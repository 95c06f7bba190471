-- ===== src/Active.antt =====
-- torrent.go: the blocks of a piece that is being downloaded (`ActivePiece`), and the loop of
-- `RequestBlock2` that hands them to a peer. A count is an `int`; -1 marks a downloaded block.
pub mod Normal
pub mod Endgame
mod Tests
use rakoshare.Base.{
  ℕ, zero, suc, ◌+◌, Bool, true, false, ◌&&◌, ◌||◌, not, List, [], ◌∷◌, ◌++◌, get_elem?, set, ltb,
  ◌==◌, if◌then◌else◌, ℤ, pos, negsuc, Run, ok, panic, out_of_fuel, ◌>>=◌, Option, none, some,
}

pub record ActivePiece : Type 0 where
  pub downloader_count : List ℤ
  pub piece_length : ℕ

-- `v == 0`
abbrev pub is_zero : ℤ → Bool
is_zero (pos zero) = true
is_zero _ = false

-- `v++`
abbrev pub increment : ℤ → ℤ
increment (pos n) = pos (n + 1)
increment (negsuc zero) = pos 0
increment (negsuc (suc n)) = negsuc n

-- An index that the code returns as -1 where there is none, and the counts that it leaves.
abbrev pub Choice : Type 0
Choice = ℤ × List ℤ

-- The loop of `chooseBlockToDownloadNormal` from index `i` on.
unfoldable pub choose_normal : ℕ → List ℤ → Choice
choose_normal i [] = (negsuc 0, [])
choose_normal i (v ∷ counts) =
    let (index, rest) = choose_normal (i + 1) counts in
    if is_zero v then (pos i, increment v ∷ counts) else (index, v ∷ rest)

-- `minCount == -1 || minCount > v`, for a `v` that is not negative.
unfoldable pub is_better : ℤ → ℕ → Bool
is_better (negsuc zero) v = true
is_better (negsuc (suc n)) v = false
is_better (pos m) v = ltb v m

-- The loop of `chooseBlockToDownloadEndgame`: the index and the count of the best block so far.
unfoldable pub best_block : ℕ → List ℤ → ℤ × ℤ → ℤ × ℤ
unfolding is_better
best_block i [] best = best
best_block i (negsuc n ∷ counts) best = best_block (i + 1) counts best
best_block i (pos v ∷ counts) best =
    best_block (i + 1) counts (if is_better best.1 v then (pos i, pos v) else best)

-- `a.downloaderCount[index]++`
unfoldable pub bump : List ℤ → ℕ → List ℤ
bump [] i = []
bump (v ∷ counts) zero = increment v ∷ counts
bump (v ∷ counts) (suc i) = v ∷ bump counts i

-- `if index > -1 { a.downloaderCount[index]++ }`
unfoldable pub bump_at : ℤ → List ℤ → Choice
unfolding bump
bump_at (pos i) counts = (pos i, bump counts i)
bump_at (negsuc n) counts = (negsuc n, counts)

unfoldable pub choose_endgame : List ℤ → Choice
unfolding best_block bump_at
choose_endgame counts = bump_at (best_block 0 counts (negsuc 0, negsuc 0)).0 counts

unfoldable pub choose_block : Bool → List ℤ → Choice
unfolding choose_normal choose_endgame
choose_block true counts = choose_endgame counts
choose_block false counts = choose_normal 0 counts

-- `recordBlock` returns the count that it replaces by -1.
unfoldable pub record_block : ActivePiece → ℕ → Run (ℤ × ActivePiece)
record_block a index = elim (get_elem? a.downloader_count index) [
  | none ↦ panic
  | some v ↦ ok (v, record a { downloader_count = set a.downloader_count index (negsuc 0) })
]

-- `v != -1`
abbrev pub is_pending : ℤ → Bool
is_pending (pos n) = true
is_pending (negsuc zero) = false
is_pending (negsuc (suc n)) = true

unfoldable pub is_complete : List ℤ → Bool
is_complete [] = true
is_complete (v ∷ counts) = if is_pending v then false else is_complete counts

-- The loop of `RequestBlock2`: the blocks that it requests, in order, and the counts at its end.
unfoldable pub request_loop : ℕ → Bool → List ℤ → Run (List ℕ × List ℤ)
unfolding choose_block
request_loop zero endgame counts = out_of_fuel
request_loop (suc fuel) endgame counts =
    let (index, counts') = choose_block endgame counts in
    elim index [
      | pos block ↦
          request_loop fuel endgame counts' >>= λ (blocks, last). ok (block ∷ blocks, last)
      | negsuc n ↦ ok ([], counts')
    ]
