-- ===== src/Pieces.antt =====
-- pieces.go: the sums of the pieces. `sha1` is a parameter, the function from a piece to its sum of
-- 20 bytes; its Write reports no error. The goroutines that hash the pieces deliver the sums in any
-- order, which is an argument. A piece length is positive.
pub mod Sums
pub mod Integrity
pub mod Slices
pub mod Verdicts
mod Tests
use rakoshare.Base.{
  ℕ, zero, suc, ◌+◌, ◌-◌, ◌*◌, ◌/◌, List, [], ◌∷◌, ◌++◌, length, take, drop, replicate, ltb, ◌==◌,
  if◌then◌else◌, Bool, true, false, Run, ok, panic, ◌>>=◌, Option, none, some, not, pos,
}
use rakoshare.Bitset.{Bitset, new, set_bit}
use rakoshare.Store.{set_bad}
use rakoshare.Files.{Disk, FileStore, read_at}

abbrev pub sum_size : ℕ
sum_size = 20

-- `(totalLength + pieceLength - 1) / pieceLength`
unfoldable pub num_pieces : ℕ → ℕ → ℕ
num_pieces total_length piece_length = (total_length + piece_length - 1) / piece_length

-- The piece that the reading goroutine of `computeSums` sends: errors of the read are ignored.
unfoldable pub read_piece : Disk → FileStore → ℕ → ℕ → ℕ → List ℕ
unfolding num_pieces
read_piece d fs total_length piece_length i =
    let size =
      if i + 1 == num_pieces total_length piece_length
      then total_length - i * piece_length
      else piece_length in
    (read_at d fs (replicate size 0) (i * piece_length)).buffer

-- `copy(sums[from:], chunk)`
unfoldable pub copy_at : List ℕ → ℕ → List ℕ → List ℕ
copy_at sums from chunk =
    take from sums ++ (take (length sums - from) chunk ++ drop (from + length chunk) sums)

-- "Merge back the results", for the pieces in the order in which their sums arrive.
unfoldable pub merge : (ℕ → List ℕ) → List ℕ → List ℕ → List ℕ
unfolding copy_at
merge sum [] sums = sums
merge sum (i ∷ arriving) sums = merge sum arriving (copy_at sums (i * sum_size) (sum i))

unfoldable pub compute_sums : (List ℕ → List ℕ) → Disk → FileStore → ℕ → ℕ → List ℕ → List ℕ
unfolding merge read_piece num_pieces
compute_sums sha1 d fs total_length piece_length arriving =
    merge (λ i. sha1 (read_piece d fs total_length piece_length i)) arriving
      (replicate (sum_size * num_pieces total_length piece_length) 0)

-- The loop of `checkEqual`, which panics where the reference is shorter.
unfoldable pub check_equal : List ℕ → List ℕ → Run Bool
check_equal ref [] = ok true
check_equal [] (c ∷ current) = panic
check_equal (r ∷ ref) (c ∷ current) =
    let rest = check_equal ref current in if r == c then rest else ok false

-- `computePieceSum`, with `none` for an error of the read.
unfoldable pub compute_piece_sum :
    (List ℕ → List ℕ) → Disk → FileStore → ℕ → ℕ → ℕ → Option (List ℕ)
unfolding num_pieces
compute_piece_sum sha1 d fs total_length piece_length i =
    let size =
      if i + 1 == num_pieces total_length piece_length
      then total_length - i * piece_length
      else piece_length in
    let result = read_at d fs (replicate size 0) (i * piece_length) in
    elim result.error [ some e ↦ none | none ↦ some (sha1 result.buffer) ]

-- `checkPiece` on the metainfo's sums: whether it returns true and no error, which it does together.
unfoldable pub check_piece : (List ℕ → List ℕ) → Disk → FileStore → ℕ → ℕ → List ℕ → ℕ → Run Bool
unfolding compute_piece_sum check_equal
check_piece sha1 d fs total_length piece_length ref i =
    elim (compute_piece_sum sha1 d fs total_length piece_length i) [
      | none ↦ ok false
      | some sum ↦
          if ltb (length ref) (i * sum_size + sum_size)
          then panic
          else check_equal (take sum_size (drop (i * sum_size) ref)) sum
    ]

-- What `checkPieces` returns where it returns no error, with the disk and the store that SetBad left.
pub record Checked : Type 0 where
  pub good : ℕ
  pub bad : ℕ
  pub good_bits : Bitset
  pub disk : Disk
  pub file_store : FileStore

-- The loop of `checkPieces`, with the rounds left as the first argument.
unfoldable pub check_from : ℕ → ℕ → ℕ → List ℕ → List ℕ → Checked → Run Checked
unfolding check_equal
check_from zero i piece_length ref sums c = ok c
check_from (suc rounds) i piece_length ref sums c =
    let rest = check_from rounds (i + 1) piece_length ref sums in
    check_equal (take sum_size (drop (i * sum_size) ref)) (take sum_size (drop (i * sum_size) sums))
    >>= λ equal.
        if equal
        then (set_bit c.good_bits (pos i) >>= λ bits.
            rest (record c { good = c.good + 1; good_bits = bits }))
        else (let (d, fs) = set_bad c.disk c.file_store (i * piece_length) in
            rest (record c { bad = c.bad + 1; disk = d; file_store = fs }))

-- `checkPieces`, with `none` for the error of sums of the wrong length.
unfoldable pub check_pieces :
    (List ℕ → List ℕ) → Disk → FileStore → ℕ → ℕ → List ℕ → List ℕ → Run (Option Checked)
unfolding compute_sums check_from num_pieces
check_pieces sha1 d fs total_length piece_length ref arriving =
    let n = num_pieces total_length piece_length in
    if not (length ref == n * sum_size)
    then ok none
    else (check_from n 0 piece_length ref
          (compute_sums sha1 d fs total_length piece_length arriving)
          (record { good = 0; bad = 0; good_bits = new n; disk = d; file_store = fs })
        >>= λ checked. ok (some checked))
