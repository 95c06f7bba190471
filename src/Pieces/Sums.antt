-- ===== src/Pieces/Sums.antt =====
-- The sums do not depend on the order in which the hashing goroutines deliver them.
use rakoshare.Base.{
  get_or-append, get_or-take, get_or-drop, ℕ, ◌+◌, ◌-◌, ◌*◌, ◌/◌, ◌%◌, ◌≤◌, ◌<◌, ◌≡◌, refl, ap, ◌∙◌,
  List, [], ◌∷◌, ◌++◌, length, take, drop, replicate, get_or, length-append, length-take,
  length-drop, length-replicate, take-eq_of_le, arith, ◌↔◌, ok, ltb, ltb-eq-false, lt→ltb, ◌==◌,
  ==_iff, if◌then◌else◌, Bool, true, false, Bool-cases, inl, inr, dec_lt,
}
use rakoshare.Files.{Disk, FileStore}
use rakoshare.Pieces.{sum_size, num_pieces, read_piece, copy_at, merge, compute_sums, check_equal}

module _ (sums chunk : List ℕ) (from : ℕ) (fits : from + length chunk ≤ length sums) where
  length-copy_at : length (copy_at sums from chunk) ≡ length sums
  unfolding copy_at
  length-copy_at = omega (
    arith,
    length-append (take from sums)
        (take (length sums - from) chunk ++ drop (from + length chunk) sums),
    length-append (take (length sums - from) chunk) (drop (from + length chunk) sums),
    length-take from sums,
    length-take (length sums - from) chunk,
    length-drop (from + length chunk) sums,
  )

  get_or-copy_at :
      (k : ℕ)
      → get_or (copy_at sums from chunk) k 0 ≡ (
          if ltb k from
          then get_or sums k 0
          else if ltb k (from + length chunk)
          then get_or chunk (k - from) 0
          else get_or sums k 0)
  unfolding copy_at
  get_or-copy_at k =
      let whole : take (length sums - from) chunk ≡ chunk =
        take-eq_of_le (length sums - from) chunk (omega arith) in
      let first : length (take from sums) ≡ from = omega (arith, length-take from sums) in
      let outer = get_or-append (take from sums) (chunk ++ drop (from + length chunk) sums) k in
      let inner = get_or-append chunk (drop (from + length chunk) sums) (k - from) in
      let past = get_or-drop (from + length chunk) (k - from - length chunk) sums in
      rw whole (elim (dec_lt k from) [
        | yes a ↦ ground (arith, outer, first, get_or-take from k sums a)
        | no b ↦ elim (dec_lt k (from + length chunk)) [
          | yes a ↦ ground (arith, outer, first, inner)
          | no c ↦
              let at : from + length chunk + (k - from - length chunk) ≡ k = omega arith in
              ground (arith, outer, first, inner, rw at at past)
        ]
      ])

-- A piece is among those of the list.
abbrev pub has_index : ℕ → List ℕ → Bool
has_index i [] = false
has_index i (j ∷ js) = if j == i then true else has_index i js

-- The indices of the list are below `n`.
abbrev pub AllBelow : ℕ → List ℕ → Type 0
AllBelow n [] = Unit
AllBelow n (j ∷ js) = (j < n) × AllBelow n js

module _ (sum : ℕ → List ℕ) (n : ℕ) (size : (i : ℕ) → length (sum i) ≡ sum_size) where
  pub length-merge :
      (arriving sums : List ℕ)
      → AllBelow n arriving
      → length sums ≡ sum_size * n
      → length (merge sum arriving sums) ≡ sum_size * n
  unfolding merge
  length-merge [] sums b e = e
  length-merge (i ∷ arriving) sums (lt, b) e =
      length-merge arriving (copy_at sums (i * sum_size) (sum i)) b
        (length-copy_at sums (sum i) (i * sum_size) (omega (arith, size i)) ∙ e)

  outside :
      {A : Type 0} (i k : ℕ) (x y : A)
      → (i == k / sum_size) ≡ false
      → (if ltb k (i * sum_size) then x else if ltb k (i * sum_size + length (sum i)) then y else x)
        ≡ x
  outside i k x y f = elim (dec_lt k (i * sum_size)) [
    | yes a ↦ rw (lt→ltb k (i * sum_size) a)
    | no b ↦
        let far : i * sum_size + sum_size ≤ k = ground arith in
        rw (
          ltb-eq-false k (i * sum_size) (omega arith),
          ltb-eq-false k (i * sum_size + length (sum i)) (omega (arith, size i)),
        )
  ]

  if_same : {A : Type 0} (c : Bool) (x : A) → (if c then x else x) ≡ x
  if_same true x = refl
  if_same false x = refl

  get_or-merge :
      (arriving sums : List ℕ) (k : ℕ)
      → AllBelow n arriving
      → length sums ≡ sum_size * n
      → get_or (merge sum arriving sums) k 0 ≡ (
          if has_index (k / sum_size) arriving
          then get_or (sum (k / sum_size)) (k % sum_size) 0
          else get_or sums k 0)
  unfolding merge
  get_or-merge [] sums k b e = refl
  get_or-merge (i ∷ arriving) sums k (lt, b) e =
      let fits : i * sum_size + length (sum i) ≤ length sums = omega (arith, size i) in
      let next = length-copy_at sums (sum i) (i * sum_size) fits ∙ e in
      let ih = get_or-merge arriving (copy_at sums (i * sum_size) (sum i)) k b next in
      let one = get_or-copy_at sums (sum i) (i * sum_size) fits k in
      elim (Bool-cases (i == k / sum_size)) [
        | inl f ↦
            let here : i ≡ k / sum_size = (==_iff i (k / sum_size)).0 f in
            let offset : k - i * sum_size ≡ k % sum_size = omega arith in
            let after : ltb k (i * sum_size) ≡ false = ltb-eq-false _ _ (omega arith) in
            let inside : ltb k (i * sum_size + length (sum i)) ≡ true =
              lt→ltb _ _ (omega (arith, size i)) in
            let at : get_or (copy_at sums (i * sum_size) (sum i)) k 0
                ≡ get_or (sum (k / sum_size)) (k % sum_size) 0 =
              one ∙ rw (after, inside, offset, here) in
            rw (f, ih, at) (if_same (has_index (k / sum_size) arriving) _)
        | inr f ↦
            let at : get_or (copy_at sums (i * sum_size) (sum i)) k 0 ≡ get_or sums k 0 =
              one ∙ outside i k _ _ f in
            rw (f, ih, at)
      ]

-- Where a sum has 20 bytes and the sum of every piece arrives, and of no other, `computeSums` has
-- the bytes of the sum of every piece at its place, in whatever order they arrive.
pub compute_sums-piece :
    (sha1 : List ℕ → List ℕ) (d : Disk) (fs : FileStore) (total_length piece_length : ℕ)
    (arriving : List ℕ) (k : ℕ)
    → ((piece : List ℕ) → length (sha1 piece) ≡ sum_size)
    → AllBelow (num_pieces total_length piece_length) arriving
    → ((i : ℕ) → i < num_pieces total_length piece_length → has_index i arriving ≡ true)
    → k < sum_size * num_pieces total_length piece_length
    → get_or (compute_sums sha1 d fs total_length piece_length arriving) k 0
      ≡ get_or (sha1 (read_piece d fs total_length piece_length (k / sum_size))) (k % sum_size) 0
unfolding compute_sums
compute_sums-piece sha1 d fs total_length piece_length arriving k size below every h =
    let n = num_pieces total_length piece_length in
    let sum = λ (i : ℕ). sha1 (read_piece d fs total_length piece_length i) in
    let known : has_index (k / sum_size) arriving ≡ true = every (k / sum_size) (omega arith) in
    get_or-merge sum n (λ i. size _) arriving (replicate (sum_size * n) 0) k below
      (length-replicate {A = ℕ} (sum_size * n) 0)
    ∙ rw known

-- `checkEqual` returns true exactly where the reference starts with the current bytes.
check_equal_iff :
    (ref current : List ℕ)
    → (check_equal ref current ≡ ok true) ↔ (take (length current) ref ≡ current)
unfolding check_equal
check_equal_iff ref [] = (λ h. refl, λ h. refl)
check_equal_iff [] (c ∷ current) = (λ h. cc, λ h. cc)
check_equal_iff (r ∷ ref) (c ∷ current) = elim (Bool-cases (r == c)) [
  | inr e ↦
      (λ h. cc (rw e at h), λ h. absurd (ground (arith, e, ap (λ (l : List ℕ). get_or l 0 0) h)))
  | inl e ↦
      let (to, of) = check_equal_iff ref current in
      let same : r ≡ c = (==_iff r c).0 e in
      (λ h. rw same (ap (◌∷◌ c) (to (rw e at h))), λ h. rw e (of (ap (λ (l : List ℕ). drop 1 l) h)))
]
