-- ===== src/Files/Search.antt =====
-- `sort.Search` of Go's library: a binary search for the least index at which a predicate holds.
use rakoshare.Base.{
  ℕ, zero, suc, ◌+◌, ◌/◌, ◌≤◌, ◌<◌, ◌≡◌, inl, inr, Bool, true, false, arith, ltb, if◌then◌else◌,
  Bool-cases, dec_lt, lt→ltb, ltb-eq-false,
}

-- The loop `for i < j`, on fuel.
search_loop : ℕ → (ℕ → Bool) → ℕ → ℕ → ℕ
search_loop zero p i j = i
search_loop (suc fuel) p i j =
    let h = (i + j) / 2 in
    let next : ℕ = elim (p h) [
      | true ↦ search_loop fuel p i h
      | false ↦ search_loop fuel p (h + 1) j
    ] in
    if ltb i j then next else i

unfoldable pub search : ℕ → (ℕ → Bool) → ℕ
unfolding search_loop
search n p = search_loop n p 0 n

-- `r` is in the range, the predicate fails just below it, and holds at it unless it is the end.
pub record IsBoundary (p : ℕ → Bool) (lo hi r : ℕ) : Type 0 where
  pub above : lo ≤ r
  pub below : r ≤ hi
  pub fails : (k : ℕ) → lo < r → k + 1 ≡ r → p k ≡ false
  pub holds : r < hi → p r ≡ true

search_loop-IsBoundary :
    (fuel : ℕ) (p : ℕ → Bool) (lo hi i j : ℕ)
    → lo ≤ i
    → i ≤ j
    → j ≤ hi
    → j ≤ i + fuel
    → ((k : ℕ) → lo < i → k + 1 ≡ i → p k ≡ false)
    → (j < hi → p j ≡ true)
    → IsBoundary p lo hi (search_loop fuel p i j)
unfolding search_loop
search_loop-IsBoundary zero p lo hi i j a b c d f g =
    let e : j ≡ i = omega arith in
    record { above = a; below = omega arith; fails = f; holds = λ h. rw e at (g (omega arith)) }
search_loop-IsBoundary (suc fuel) p lo hi i j a b c d f g = elim (dec_lt i j) [
  | no done ↦
      let e : j ≡ i = omega arith in
      rw (ltb-eq-false i j (omega arith)) (record {
        above = a;
        below = omega arith;
        fails = f;
        holds = λ h. rw e at (g (omega arith));
      })
  | yes more ↦
      let h = (i + j) / 2 in
      elim (Bool-cases (p h)) [
        | inl hit ↦
            rw (lt→ltb i j more, hit)
              (search_loop-IsBoundary fuel p lo hi i h a (omega arith) (omega arith) (omega arith) f
                (λ _. hit))
        | inr miss ↦
            rw (lt→ltb i j more, miss)
              (search_loop-IsBoundary fuel p lo hi (h + 1) j (omega arith) (omega arith) c
                (omega arith) (λ k _ e. let e' : h ≡ k = omega arith in rw e' at miss) g)
      ]
]

-- `sort.Search` ends at a boundary of the predicate, whatever the predicate.
pub search-IsBoundary : (n : ℕ) (p : ℕ → Bool) → IsBoundary p 0 n (search n p)
unfolding search
search-IsBoundary n p =
    search_loop-IsBoundary n p 0 n 0 n (omega arith) (omega arith) (omega arith) (omega arith)
      (λ k h. absurd (omega arith)) (λ h. absurd (omega arith))
