-- ===== src/Bitset/Find.antt =====
-- `FindNextSet`, `FindNextClear` and `IsWithinLimits`.
use rakoshare.Base.{
  ℕ, zero, suc, ◌+◌, ◌-◌, ◌≤◌, ◌<◌, ◌≡◌, refl, Bool, true, false, not, arith, ℤ, pos, negsuc,
  Bool-cases, inl, inr, ℕ_discrete,
}
use rakoshare.Bitset.{Bitset, test, find_next, find_next_set, find_next_clear}

-- `r` is the first index of [i, n) at which `p` holds, or -1 where there is none.
abbrev pub IsFirst : (ℕ → Bool) → ℕ → ℕ → ℤ → Type 0
IsFirst p i n (pos j) = (i ≤ j) × (j < n) × (p j ≡ true) × ((k : ℕ) → i ≤ k → k < j → p k ≡ false)
IsFirst p i n (negsuc m) = (m ≡ 0) × ((k : ℕ) → i ≤ k → k < n → p k ≡ false)

cons_interval :
    (p : ℕ → Bool) (i n k : ℕ)
    → p i ≡ false
    → ((j : ℕ) → i + 1 ≤ j → j < n → p j ≡ false)
    → i ≤ k
    → k < n
    → p k ≡ false
cons_interval p i n k e rest a b = elim (ℕ_discrete i k) [
  | yes q ↦ rw (← q) e
  | no ne ↦ rest k (omega arith) b
]

IsFirst-next :
    (p : ℕ → Bool) (i n : ℕ) (r : ℤ) → p i ≡ false → IsFirst p (i + 1) n r → IsFirst p i n r
IsFirst-next p i n (pos j) e (lo, hi, found, before) =
    (omega arith, hi, found, λ k. cons_interval p i j k e before)
IsFirst-next p i n (negsuc m) e (minus, nowhere) = (minus, λ k. cons_interval p i n k e nowhere)

find_next-IsFirst :
    (p : ℕ → Bool) (rounds i n : ℕ) → rounds ≡ n - i → IsFirst p i n (find_next p rounds i)
unfolding find_next
find_next-IsFirst p zero i n e = (refl, λ k a b. absurd (omega arith))
find_next-IsFirst p (suc rounds) i n e = elim (Bool-cases (p i)) [
  | inl found ↦ rw found (omega arith, omega arith, found, λ k a b. absurd (omega arith))
  | inr missed ↦
      rw missed (IsFirst-next p i n _ missed (find_next-IsFirst p rounds (i + 1) n (omega arith)))
]

-- `FindNextSet` returns the first member from `index` on, or -1 when there is none.
find_next_set-IsFirst :
    (s : Bitset) (index : ℕ) → IsFirst (test s) index s.n (find_next_set s index)
unfolding find_next_set
find_next_set-IsFirst s index = find_next-IsFirst (test s) (s.n - index) index s.n refl

-- `FindNextClear` returns the first index from `index` on that is no member, or -1 when every
-- index up to the size is one.
pub find_next_clear-IsFirst :
    (s : Bitset) (index : ℕ) → IsFirst (λ i. not (test s i)) index s.n (find_next_clear s index)
unfolding find_next_clear
find_next_clear-IsFirst s index =
    find_next-IsFirst (λ i. not (test s i)) (s.n - index) index s.n refl
