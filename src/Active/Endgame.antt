-- ===== src/Active/Endgame.antt =====
-- The endgame choice of a block.
use rakoshare.Base.{
  ℕ, zero, suc, ◌+◌, ◌≤◌, ◌<◌, ◌≡◌, ◌≢◌, refl, ap, List, [], ◌∷◌, arith, if◌then◌else◌, get_elem?,
  set, some, ℤ, pos, negsuc, ltb, Bool-cases, inl, inr, ℕ_discrete, dec_lt, ◌-◌,
}
use rakoshare.Active.{Choice, is_better, best_block, bump, bump_at, choose_endgame}

-- `best` is the index and the count of a block with the fewest downloaders among those that are
-- not downloaded, or its index is -1 and every block is downloaded.
abbrev pub IsLeast : List ℤ → ℤ × ℤ → Type 0
IsLeast counts (pos j, count) =
    (v : ℕ) × (count ≡ pos v)
    × (get_elem? counts j ≡ some (pos v))
    × ((k w : ℕ) → get_elem? counts k ≡ some (pos w) → v ≤ w)
IsLeast counts (negsuc n, count) = (k w : ℕ) → get_elem? counts k ≢ some (pos w)

-- The same of the blocks before `i`.
abbrev IsLeastSoFar : List ℤ → ℕ → ℤ × ℤ → Type 0
IsLeastSoFar all i (pos j, count) =
    (v : ℕ) × (count ≡ pos v)
    × (get_elem? all j ≡ some (pos v))
    × ((k w : ℕ) → k < i → get_elem? all k ≡ some (pos w) → v ≤ w)
IsLeastSoFar all i (negsuc n, count) =
    (count ≡ negsuc 0) × ((k w : ℕ) → k < i → get_elem? all k ≢ some (pos w))

-- The loop has the rest of the list before it.
abbrev IsRest : List ℤ → ℕ → List ℤ → Type 0
IsRest all i counts = (k : ℕ) → get_elem? all (i + k) ≡ get_elem? counts k

IsRest-next :
    (all : List ℤ) (i : ℕ) (v : ℤ) (counts : List ℤ)
    → IsRest all i (v ∷ counts)
    → IsRest all (i + 1) counts
IsRest-next all i v counts h k = let e : i + 1 + k ≡ i + suc k = omega arith in rw e (h (suc k))

here :
    (all : List ℤ) (i : ℕ) (v : ℤ) (counts : List ℤ)
    → IsRest all i (v ∷ counts)
    → get_elem? all i ≡ some v
here all i v counts h = let e : i + 0 ≡ i = omega arith in rw e at (h 0)

inside : (all : List ℤ) (i k : ℕ) (v : ℤ) → IsRest all i [] → get_elem? all k ≡ some v → k < i
inside all i k v r f = elim (dec_lt k i) [
  | yes h ↦ h
  | no h ↦ let e : i + (k - i) ≡ k = omega arith in cc (rw e at (r (k - i)), f)
]

-- A property below `i` and at `i` holds below `i + 1`.
below_next : (P : ℕ → Type 0) (i : ℕ) → ((k : ℕ) → k < i → P k) → P i → (k : ℕ) → k < i + 1 → P k
below_next P i below at k h = elim (ℕ_discrete k i) [
  | yes e ↦ rw e at
  | no ne ↦ below k (omega arith)
]

module _ (all : List ℤ) (i : ℕ) where
  -- No block of fewer downloaders than `v`.
  abbrev AtLeast : ℕ → ℕ → Type 0
  AtLeast v k = (w : ℕ) → get_elem? all k ≡ some (pos w) → v ≤ w

  abbrev Downloaded : ℕ → Type 0
  Downloaded k = (w : ℕ) → get_elem? all k ≢ some (pos w)

  -- A downloaded block changes nothing.
  skip :
      (n : ℕ) (best : ℤ × ℤ)
      → get_elem? all i ≡ some (negsuc n)
      → IsLeastSoFar all i best
      → IsLeastSoFar all (i + 1) best
  skip n (pos j, count) e (v, c, at, least) = (
    v,
    c,
    at,
    λ k w h. below_next (AtLeast v) i (λ k' h' w'. least k' w' h') (λ w' f. cc (e, f)) k h w,
  )
  skip n (negsuc m, count) e (c, nowhere) =
      (c, λ k w h. below_next Downloaded i (λ k' h' w'. nowhere k' w' h') (λ w' f. cc (e, f)) k h w)

  -- A block with `c` downloaders.
  step :
      (c : ℕ) (best : ℤ × ℤ)
      → get_elem? all i ≡ some (pos c)
      → IsLeastSoFar all i best
      → IsLeastSoFar all (i + 1) (if is_better best.1 c then (pos i, pos c) else best)
  unfolding is_better
  step c (pos j, pos m) e (v, q, at, least) =
      let old : m ≡ v = ground arith in
      elim (Bool-cases (ltb c m)) [
        | inl less ↦ rw less (
          c,
          refl,
          e,
          λ k w h.
              below_next (AtLeast c) i (λ k' h' w' f. ground (arith, least k' w' h' f))
                (λ w' f. ground (arith, e, f)) k h w,
        )
        | inr more ↦ rw more (
          v,
          q,
          at,
          λ k w h.
              below_next (AtLeast v) i (λ k' h' w'. least k' w' h') (λ w' f. ground (arith, e, f)) k
                h w,
        )
      ]
  step c (pos j, negsuc m) e (v, q, at, least) = cc
  step c (negsuc m, pos n) e (q, nowhere) = cc
  step c (negsuc m, negsuc zero) e (q, nowhere) = (
    c,
    refl,
    e,
    λ k w h.
        below_next (AtLeast c) i (λ k' h' w' f. absurd (nowhere k' w' h' f))
          (λ w' f. ground (arith, e, f)) k h w,
  )
  step c (negsuc m, negsuc (suc n)) e (q, nowhere) = cc

at_end :
    (all : List ℤ) (i : ℕ) (best : ℤ × ℤ)
    → IsRest all i []
    → IsLeastSoFar all i best
    → IsLeast all best
at_end all i (pos j, count) r (v, c, at, least) =
    (v, c, at, λ k w f. least k w (inside all i k (pos w) r f) f)
at_end all i (negsuc n, count) r (c, nowhere) = λ k w f. nowhere k w (inside all i k (pos w) r f) f

best_block-IsLeast :
    (all : List ℤ) (i : ℕ) (counts : List ℤ) (best : ℤ × ℤ)
    → IsRest all i counts
    → IsLeastSoFar all i best
    → IsLeast all (best_block i counts best)
unfolding best_block
best_block-IsLeast all i [] best r h = at_end all i best r h
best_block-IsLeast all i (negsuc n ∷ counts) best r h =
    best_block-IsLeast all (i + 1) counts best (IsRest-next all i (negsuc n) counts r)
      (skip all i n best (here all i (negsuc n) counts r) h)
best_block-IsLeast all i (pos c ∷ counts) best r h =
    best_block-IsLeast all (i + 1) counts _ (IsRest-next all i (pos c) counts r)
      (step all i c best (here all i (pos c) counts r) h)

-- The chosen block has the fewest downloaders among those that are not downloaded, and one more
-- after the choice; without such a block the index is -1 and the counts stay.
abbrev pub IsLeastChoice : List ℤ → Choice → Type 0
IsLeastChoice counts (pos j, rest) =
    (v : ℕ) × (get_elem? counts j ≡ some (pos v))
    × ((k w : ℕ) → get_elem? counts k ≡ some (pos w) → v ≤ w)
    × (rest ≡ set counts j (pos (v + 1)))
IsLeastChoice counts (negsuc n, rest) =
    ((k w : ℕ) → get_elem? counts k ≢ some (pos w)) × (rest ≡ counts)

bump-eq_set :
    (counts : List ℤ) (j v : ℕ)
    → get_elem? counts j ≡ some (pos v)
    → bump counts j ≡ set counts j (pos (v + 1))
unfolding bump
bump-eq_set [] j v h = cc
bump-eq_set (x ∷ counts) zero v h = ground arith
bump-eq_set (x ∷ counts) (suc j) v h = ap (◌∷◌ x) (bump-eq_set counts j v h)

bump_at-IsLeastChoice :
    (counts : List ℤ) (best : ℤ × ℤ)
    → IsLeast counts best
    → IsLeastChoice counts (bump_at best.0 counts)
unfolding bump_at
bump_at-IsLeastChoice counts (pos j, count) (v, c, at, least) =
    (v, at, least, bump-eq_set counts j v at)
bump_at-IsLeastChoice counts (negsuc n, count) nowhere = (nowhere, refl)

best_block-IsLeast_whole :
    (counts : List ℤ) → IsLeast counts (best_block 0 counts (negsuc 0, negsuc 0))
best_block-IsLeast_whole counts =
    best_block-IsLeast counts 0 counts (negsuc 0, negsuc 0)
      (λ k. let e : 0 + k ≡ k = omega arith in rw e) (refl, λ k w h. absurd (omega arith))

-- `chooseBlockToDownloadEndgame` picks a block with the fewest downloaders among those that are not
-- downloaded, and counts one downloader more for it; where every block is downloaded it returns -1
-- and changes nothing.
choose_endgame-IsLeastChoice : (counts : List ℤ) → IsLeastChoice counts (choose_endgame counts)
unfolding choose_endgame
choose_endgame-IsLeastChoice counts =
    bump_at-IsLeastChoice counts _ (best_block-IsLeast_whole counts)
