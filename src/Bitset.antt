-- ===== src/Bitset.antt =====
-- pkg/bitset/bitset.go: the big-endian set of piece numbers. A byte is a number below 256.
-- The size `n` is never negative in the program (it counts pieces); an index is an `int`, so it
-- may be, and the range tests of `Set`, `Clear` and `IsSet` turn such an index into a panic.
-- `end_index` is `none` where the code stores -1.
pub mod Bytes
pub mod Valid
pub mod Update
pub mod Difference
pub mod Wire
pub mod Find
mod Tests
use rakoshare.Base.{
  ℕ, zero, suc, ◌+◌, ◌-◌, ◌*◌, ◌/◌, ◌%◌, ◌^◌, bit_and, bit_or, Bool, true, false, not, Option, none,
  some, List, [], ◌∷◌, length, get_or, set, replicate, ltb, ◌==◌, if◌then◌else◌, ℤ, pos, negsuc,
  Run, ok, panic, ◌>>=◌,
}

pub record Bitset : Type 0 where
  pub b : List ℕ
  pub n : ℕ
  pub end_index : Option ℕ
  pub end_mask : ℕ

-- `^x` on a byte.
abbrev pub complement : ℕ → ℕ
complement x = 255 - x

-- `byte(128 >> byte(index&7))`
abbrev pub mask : ℕ → ℕ
mask index = 128 / 2 ^ (index % 8)

unfoldable pub new : ℕ → Bitset
new n = record {
  b = replicate ((n + 7) / 8) 0;
  n = n;
  end_index = if n % 8 == 0 then none else some (n / 8);
  end_mask = complement (255 / 2 ^ (n % 8));
}

-- `bitset.endIndex >= 0 && bitset.b[bitset.endIndex]&(^bitset.endMask) != 0`
unfoldable pub spare_bits_set : Bitset → Bool
spare_bits_set s = elim s.end_index [
  | none ↦ false
  | some e ↦ not (bit_and (get_or s.b e 0) (complement s.end_mask) == 0)
]

unfoldable pub new_from_bytes : ℕ → List ℕ → Option Bitset
unfolding new spare_bits_set
new_from_bytes n bytes =
    let s = new n in
    let filled = record s { b = bytes } in
    if length s.b == length bytes
    then (if spare_bits_set filled then none else some filled)
    else none

-- The range test of `Set`, `Clear` and `IsSet`, which panic where it fails.
unfoldable pub in_range : Bitset → ℤ → Run ℕ
in_range s (pos i) = if ltb i s.n then ok i else panic
in_range s (negsuc i) = panic

abbrev pub byte_of : Bitset → ℕ → ℕ
byte_of s i = get_or s.b (i / 8) 0

-- `(b.b[i>>3] & byte(128>>byte(i&7))) != 0`
unfoldable pub test : Bitset → ℕ → Bool
test s i = not (bit_and (byte_of s i) (mask i) == 0)

abbrev pub raise_bit : Bitset → ℕ → Bitset
raise_bit s i = record s { b = set s.b (i / 8) (bit_or (byte_of s i) (mask i)) }

abbrev pub lower_bit : Bitset → ℕ → Bitset
lower_bit s i = record s { b = set s.b (i / 8) (bit_and (byte_of s i) (complement (mask i))) }

unfoldable pub set_bit : Bitset → ℤ → Run Bitset
unfolding in_range
set_bit s index = do i ← in_range s index; ok (raise_bit s i)

unfoldable pub clear : Bitset → ℤ → Run Bitset
unfolding in_range
clear s index = do i ← in_range s index; ok (lower_bit s i)

unfoldable pub is_set : Bitset → ℤ → Run Bool
unfolding in_range test
is_set s index = do i ← in_range s index; ok (test s i)

unfoldable pub clear_end : Bitset → Bitset
clear_end s = elim s.end_index [
  | none ↦ s
  | some e ↦ record s { b = set s.b e (bit_and (get_or s.b e 0) s.end_mask) }
]

-- `for i := 0; i < len(b.b); i++ { b.b[i] = b.b[i] & ^b2.b[i] }`; a shorter `b2.b` panics.
unfoldable pub and_not_bytes : List ℕ → List ℕ → Run (List ℕ)
and_not_bytes [] ys = ok []
and_not_bytes (x ∷ xs) [] = panic
and_not_bytes (x ∷ xs) (y ∷ ys) = do
  rest ← and_not_bytes xs ys
  ok (bit_and x (complement y) ∷ rest)

unfoldable pub and_not : Bitset → Bitset → Run Bitset
unfolding and_not_bytes clear_end
and_not s t =
    if s.n == t.n
    then (do bytes ← and_not_bytes s.b t.b; ok (clear_end (record s { b = bytes })))
    else panic

unfoldable pub is_end_valid : Bitset → Bool
is_end_valid s = elim s.end_index [
  | none ↦ true
  | some e ↦ bit_and (get_or s.b e 0) s.end_mask == 0
]

-- The loop `for i := index; i < b.n; i++`, with the rounds left as the first argument. The code
-- calls it at indices that are not negative.
unfoldable pub find_next : (ℕ → Bool) → ℕ → ℕ → ℤ
find_next p zero i = negsuc 0
find_next p (suc rounds) i = let rest = find_next p rounds (i + 1) in if p i then pos i else rest

unfoldable pub find_next_set : Bitset → ℕ → ℤ
unfolding find_next test
find_next_set s index = find_next (test s) (s.n - index) index

unfoldable pub find_next_clear : Bitset → ℕ → ℤ
unfolding find_next test
find_next_clear s index = find_next (λ i. not (test s i)) (s.n - index) index

abbrev pub bytes : Bitset → List ℕ
bytes s = s.b

unfoldable pub is_within_limits : Bitset → ℕ → Bool
is_within_limits s n = ltb n s.n
