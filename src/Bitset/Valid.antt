-- ===== src/Bitset/Valid.antt =====
-- The invariant of a bitset, and the bits of its array after a write.
use rakoshare.Base.{
  lt→ltb, pos, ok, ℕ, ◌+◌, ◌/◌, ◌%◌, ◌^◌, ◌≤◌, ◌<◌, ◌≡◌, bit_and, bit_or, false, not, ◌&&◌, ◌||◌,
  none, some, length, get_or, get_or-set, get_or-eq_of_le, bit_and-zero_left, arith, ◌==◌,
  if◌then◌else◌,
}
use rakoshare.Bitset.{
  Bitset, complement, mask, byte_of, test, raise_bit, lower_bit, in_range, is_set,
}
use rakoshare.Bitset.Bytes.{mask-lt, probe-or, probe-and_not, probe-mask}

-- The array has a byte for every eight members, and the end mask is that of the size.
pub record IsShaped (s : Bitset) : Type 0 where
  pub size : length s.b ≡ (s.n + 7) / 8
  pub end_index : s.end_index ≡ (if s.n % 8 == 0 then none else some (s.n / 8))
  pub end_mask : s.end_mask ≡ complement (255 / 2 ^ (s.n % 8))
  pub small : (i : ℕ) → get_or s.b i 0 < 256

-- No bit past the last member is set.
pub record IsValid (s : Bitset) : Type 0 where
  pub shape : IsShaped s
  pub open shape use *
  pub spare : (j : ℕ) → s.n ≤ j → test s j ≡ false

-- Past the array there is no bit at all.
pub test_beyond : (s : Bitset) (j : ℕ) → IsShaped s → length s.b ≤ j / 8 → test s j ≡ false
unfolding test
test_beyond s j v h =
    ground (arith, get_or-eq_of_le {A = ℕ} s.b (j / 8) 0, bit_and-zero_left (mask j))

module _ (s : Bitset) (v : IsShaped s) (i : ℕ) (h : i < s.n) where
  pub test-raise_bit : (j : ℕ) → test (raise_bit s i) j ≡ ((i == j) || test s j)
  unfolding test
  test-raise_bit j = ground (
    arith,
    v.size,
    v.small (i / 8),
    get_or-set s.b (i / 8) (j / 8) (bit_or (byte_of s i) (mask i)) 0,
    probe-or (byte_of s i) (i % 8) (j % 8),
  )

  pub test-lower_bit : (j : ℕ) → test (lower_bit s i) j ≡ (test s j && not (i == j))
  unfolding test
  test-lower_bit j = ground (
    arith,
    v.size,
    v.small (i / 8),
    get_or-set s.b (i / 8) (j / 8) (bit_and (byte_of s i) (complement (mask i))) 0,
    mask-lt (i % 8),
    probe-and_not (byte_of s i) (mask i) (j % 8),
    probe-mask (i % 8) (j % 8),
  )

-- Within the size `IsSet` answers.
pub is_set-test : (s : Bitset) (i : ℕ) → i < s.n → is_set s (pos i) ≡ ok (test s i)
unfolding is_set in_range
is_set-test s i h = rw (lt→ltb i s.n h)
