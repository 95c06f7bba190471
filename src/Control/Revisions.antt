-- ===== src/Control/Revisions.antt =====
-- The counters of revisions: the next one is newer.
use rakoshare.Base.{
  ℕ, ◌+◌, ◌≡◌, refl, List, [], ◌∷◌, ◌++◌, append_assoc, All, ltb, ◌==◌, false, not, some, pos,
}
use rakoshare.Peers.{int_ltb}
use rakoshare.Control.{
  Text, Wire, ControlSession, dash, split, counter_of, parts_of, next_rev, is_newer_than,
}

-- No byte of the string is a dash.
abbrev pub IsPlain : Text → Type 0
IsPlain s = All (λ (c : ℕ). (c == dash) ≡ false) s

split-plain : (s : Text) → IsPlain s → split dash s ≡ s ∷ []
unfolding split
split-plain [] h = refl
split-plain (c ∷ s) (a, h) = rw (a, split-plain s h) refl

split-dash : (a s : Text) → IsPlain a → split dash (a ++ (dash ∷ s)) ≡ a ∷ split dash s
unfolding split
split-dash [] s h = refl
split-dash (c ∷ a) s (e, h) = rw (e, split-dash a s h) refl

-- What the program relies on of `strconv` and of the printing of a hash.
pub record IsPrinting (wire : Wire) : Type 0 where
  pub back : (n : ℕ) → wire.atoi (wire.itoa (pos n)) ≡ some (pos n)
  pub plain : (n : ℕ) → IsPlain (wire.itoa (pos n))
  pub plain_sum : (s : Text) → IsPlain (wire.hex_sum s)

-- A revision with this counter.
abbrev pub HasCounter : Wire → Text → ℕ → Type 0
HasCounter wire rev n = counter_of wire (split dash rev) ≡ some (pos n)

module _ (wire : Wire) (v : IsPrinting wire) where
  -- The counter of the next revision is one more.
  pub next_rev-HasCounter :
      (ih rev : Text) (n : ℕ)
      → HasCounter wire rev n
      → HasCounter wire (next_rev wire ih rev) (n + 1)
  unfolding next_rev counter_of
  next_rev-HasCounter ih rev n h = go (split dash rev) refl
    where
      known :
          (parts : List Text)
          → counter_of wire parts ≡ some (pos n)
          → wire.atoi (parts_of wire parts).0 ≡ some (pos n)
      known [] e = absurd (cc e)
      known (a ∷ []) e = absurd (cc e)
      known (a ∷ b ∷ []) e = e
      known (a ∷ b ∷ c ∷ parts) e = absurd (cc e)

      go :
          (parts : List Text)
          → split dash rev ≡ parts
          → HasCounter wire (next_rev wire ih rev) (n + 1)
      go parts e =
          let counter = known (split dash rev) h in
          let sum = wire.hex_sum (ih ++ (parts_of wire (split dash rev)).1) in
          rw (next_rev, counter)
            (rw
              (
                append_assoc (wire.itoa (pos (n + 1))) (dash ∷ []) sum,
                split-dash (wire.itoa (pos (n + 1))) sum (v.plain (n + 1)),
                split-plain sum (v.plain_sum (ih ++ (parts_of wire (split dash rev)).1)),
              )
              (v.back (n + 1)))

  -- A session is newer than a revision exactly where its own counter is not below that one's.
  pub is_newer_than_lem :
      (rev : Text) (cs : ControlSession) (m n : ℕ)
      → HasCounter wire rev n
      → HasCounter wire cs.rev m
      → is_newer_than wire rev cs ≡ not (ltb m n)
  unfolding is_newer_than int_ltb
  is_newer_than_lem rev cs m n h k = rw (is_newer_than, h, k) refl
