-- ===== src/Bitset/Update.antt =====
-- `New`, `Set`, `Clear` and `IsSet`: the bitset as the set of its members.
use rakoshare.Base.{
  ℕ, ◌+◌, ◌/◌, ◌%◌, ◌≤◌, ◌<◌, ◌≡◌, refl, ◌∙◌, bit_and, bit_or, false, not, ◌&&◌, ◌||◌, get_or-set,
  length-set, length-replicate, get_or-replicate, arith, ◌==◌, ℤ, pos, negsuc, ok, panic,
  bit_and-le, bit_or-lt, bit_and-zero_left,
}
use rakoshare.Bitset.{
  Bitset, complement, mask, byte_of, test, raise_bit, lower_bit, new, set_bit, clear, is_set,
}
use rakoshare.Bitset.Bytes.{mask-lt}
use rakoshare.Bitset.Valid.{IsValid, test-raise_bit, test-lower_bit}

-- A fresh bitset is well formed and has no member.
pub new-IsValid : (n : ℕ) → IsValid (new n) × ((j : ℕ) → test (new n) j ≡ false)
unfolding new test
new-IsValid n = (
  record {
    shape = record {
      size = length-replicate {A = ℕ} ((n + 7) / 8) 0;
      end_index = refl;
      end_mask = refl;
      small = λ i. omega (arith, get_or-replicate {A = ℕ} ((n + 7) / 8) i 0);
    };
    spare = λ j h. empty j;
  },
  empty,
)
  where
    empty : (j : ℕ) → test (new n) j ≡ false
    empty j =
        ground (arith, get_or-replicate {A = ℕ} ((n + 7) / 8) (j / 8) 0, bit_and-zero_left (mask j))

module _ (s : Bitset) (v : IsValid s) (i : ℕ) (h : i < s.n) where
  pub raise_bit-IsValid : IsValid (raise_bit s i)
  raise_bit-IsValid = record {
    shape = record {
      size = length-set s.b (i / 8) _ ∙ v.size;
      end_index = v.end_index;
      end_mask = v.end_mask;
      small = λ k. ground (
        arith,
        v.size,
        v.small k,
        v.small (i / 8),
        mask-lt (i % 8),
        bit_or-lt 8 (byte_of s i) (mask i),
        get_or-set s.b (i / 8) k (bit_or (byte_of s i) (mask i)) 0,
      );
    };
    spare = λ j p. ground (arith, test-raise_bit s v.shape i h j, v.spare j);
  }

  lower_bit-IsValid : IsValid (lower_bit s i)
  lower_bit-IsValid = record {
    shape = record {
      size = length-set s.b (i / 8) _ ∙ v.size;
      end_index = v.end_index;
      end_mask = v.end_mask;
      small = λ k. ground (
        arith,
        v.size,
        v.small k,
        v.small (i / 8),
        bit_and-le (byte_of s i) (complement (mask i)),
        get_or-set s.b (i / 8) k (bit_and (byte_of s i) (complement (mask i))) 0,
      );
    };
    spare = λ j p. ground (arith, test-lower_bit s v.shape i h j, v.spare j);
  }

  -- `Set` of an index in range adds exactly that member and keeps the bitset well formed.
  pub set_bit_lem :
      (t : Bitset) × (set_bit s (pos i) ≡ ok t)
      × IsValid t
      × (t.n ≡ s.n)
      × ((j : ℕ) → test t j ≡ ((i == j) || test s j))
  unfolding set_bit
  set_bit_lem = (raise_bit s i, ground arith, raise_bit-IsValid, refl, test-raise_bit s v.shape i h)

  -- `Clear` of an index in range removes exactly that member and keeps the bitset well formed.
  clear_lem :
      (t : Bitset) × (clear s (pos i) ≡ ok t)
      × IsValid t
      × (t.n ≡ s.n)
      × ((j : ℕ) → test t j ≡ (test s j && not (i == j)))
  unfolding clear
  clear_lem = (lower_bit s i, ground arith, lower_bit-IsValid, refl, test-lower_bit s v.shape i h)

-- An index that is negative or not below the size.
abbrev pub OutOfRange : Bitset → ℤ → Type 0
OutOfRange s (pos i) = s.n ≤ i
OutOfRange s (negsuc i) = Unit

-- Out of range all three methods panic, and change nothing.
OutOfRange-panic :
    (s : Bitset) (index : ℤ)
    → OutOfRange s index
    → (set_bit s index ≡ panic) × (clear s index ≡ panic) × (is_set s index ≡ panic)
unfolding set_bit clear is_set
OutOfRange-panic s (pos i) h = (ground arith, ground arith, ground arith)
OutOfRange-panic s (negsuc i) h = (refl, refl, refl)
