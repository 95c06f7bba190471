-- ===== src/Bitset/Difference.antt =====
-- `AndNot`, `clearEnd` and `IsEndValid`.
use rakoshare.Base.{
  ℕ, ◌+◌, ◌*◌, ◌/◌, ◌%◌, ◌^◌, ◌<◌, ◌≡◌, ◌≢◌, ◌↔◌, refl, sym, ap, suc, ◌∙◌, bit_and, true, false,
  not, ◌&&◌, List, [], ◌∷◌, length, get_or, get_or-set, length-set, get_or-eq_of_le, arith, ltb,
  ◌==◌, ==_iff, ok, panic, bit_and-le, bit_and-zero_left,
}
use rakoshare.Bitset.{
  Bitset, complement, mask, byte_of, test, and_not, and_not_bytes, clear_end, is_end_valid,
}
use rakoshare.Bitset.Bytes.{
  probe, probe-and_not, probe-tail, probe-complement, apart_of_zero, zero_of_apart,
}
use rakoshare.Bitset.Valid.{IsShaped, IsValid}

-- The loop of `AndNot` over arrays of one length.
and_not_bytes_lem :
    (xs ys : List ℕ)
    → length xs ≡ length ys
    → (zs : List ℕ) × (and_not_bytes xs ys ≡ ok zs)
      × (length zs ≡ length xs)
      × ((i : ℕ) → get_or zs i 0 ≡ bit_and (get_or xs i 0) (complement (get_or ys i 0)))
unfolding and_not_bytes
and_not_bytes_lem [] [] e = ([], refl, refl, λ i. sym (bit_and-zero_left (complement 0)))
and_not_bytes_lem [] (y ∷ ys) e = absurd (omega arith)
and_not_bytes_lem (x ∷ xs) [] e = absurd (omega arith)
and_not_bytes_lem (x ∷ xs) (y ∷ ys) e =
    let (zs, run, size, at) = and_not_bytes_lem xs ys (omega arith) in
    (bit_and x (complement y) ∷ zs, rw run, ap suc size, elim [ ℕ.zero ↦ refl | ℕ.suc i ↦ at i ])

-- `clearEnd` removes what lies past the last member, and nothing else.
test-clear_end : (s : Bitset) (j : ℕ) → IsShaped s → test (clear_end s) j ≡ (test s j && ltb j s.n)
unfolding clear_end test
test-clear_end s j v = ground (
  arith,
  v.size,
  v.small (j / 8),
  get_or-set s.b (s.n / 8) (j / 8) (bit_and (get_or s.b (s.n / 8) 0) s.end_mask) 0,
  get_or-eq_of_le {A = ℕ} s.b (j / 8) 0,
  bit_and-zero_left (mask j),
  probe-and_not (byte_of s j) (255 / 2 ^ (s.n % 8)) (j % 8),
  probe-tail (s.n % 8) (j % 8),
)

clear_end-IsValid : (s : Bitset) → IsShaped s → IsValid (clear_end s)
unfolding clear_end
clear_end-IsValid s v = record {
  shape = record {
    size = ground (
      arith,
      v.size,
      length-set {A = ℕ} s.b (s.n / 8) (bit_and (get_or s.b (s.n / 8) 0) s.end_mask),
    );
    end_index = ground (arith, v.end_index);
    end_mask = ground (arith, v.end_mask);
    small = λ k. ground (
      arith,
      v.size,
      v.small k,
      bit_and-le (get_or s.b (s.n / 8) 0) s.end_mask,
      get_or-set s.b (s.n / 8) k (bit_and (get_or s.b (s.n / 8) 0) s.end_mask) 0,
    );
  };
  spare = λ j h. ground (arith, test-clear_end s j v);
}

n-clear_end : (s : Bitset) → (clear_end s).n ≡ s.n
unfolding clear_end
n-clear_end s = ground arith

-- A byte of the difference.
test-differs :
    (s t : Bitset) (zs : List ℕ) (j : ℕ)
    → get_or zs (j / 8) 0 ≡ bit_and (byte_of s j) (complement (byte_of t j))
    → byte_of s j < 256
    → byte_of t j < 256
    → test (record s { b = zs }) j ≡ (test s j && not (test t j))
unfolding test
test-differs s t zs j e p q = ground (arith, e, probe-and_not (byte_of s j) (byte_of t j) (j % 8))

-- `AndNot` of two bitsets of one size keeps the members of the first that the second lacks.
and_not_lem :
    (s t : Bitset)
    → IsValid s
    → IsValid t
    → s.n ≡ t.n
    → (r : Bitset) × (and_not s t ≡ ok r)
      × IsValid r
      × (r.n ≡ s.n)
      × ((j : ℕ) → test r j ≡ (test s j && not (test t j)))
unfolding and_not
and_not_lem s t v w e =
    let (zs, run, size, at) =
      and_not_bytes_lem s.b t.b (omega (arith, v.size, w.size, ap (λ (m : ℕ). (m + 7) / 8) e)) in
    let filled : Bitset = record s { b = zs } in
    let shape : IsShaped filled = record {
      size = size ∙ v.size;
      end_index = v.end_index;
      end_mask = v.end_mask;
      small = λ k.
          omega (arith, at k, v.small k, bit_and-le (get_or s.b k 0) (complement (get_or t.b k 0)));
    } in
    (
      clear_end filled,
      ground (arith, run),
      clear_end-IsValid filled shape,
      n-clear_end filled,
      λ j. ground (
        arith,
        test-clear_end filled j shape,
        v.spare j,
        test-differs s t zs j (at (j / 8)) (v.small (j / 8)) (w.small (j / 8)),
      ),
    )

-- Of bitsets of different sizes `AndNot` panics.
pub and_not-panic : (s t : Bitset) → s.n ≢ t.n → and_not s t ≡ panic
unfolding and_not
and_not-panic s t ne = ground arith

module _ (s : Bitset) (v : IsShaped s) (ne : s.n % 8 ≢ 0) where
  abbrev last_byte : ℕ
  last_byte = get_or s.b (s.n / 8) 0

  abbrev head_mask : ℕ
  head_mask = complement (255 / 2 ^ (s.n % 8))

  is_end_valid-bit_and : is_end_valid s ≡ (bit_and last_byte head_mask == 0)
  unfolding is_end_valid
  is_end_valid-bit_and = ground arith

  probe-head_mask : (k : ℕ) → k < 8 → probe head_mask k ≡ ltb k (s.n % 8)
  probe-head_mask k hk =
      ground (arith, probe-complement (255 / 2 ^ (s.n % 8)) k, probe-tail (s.n % 8) k)

  EndEmpty : Type 0
  EndEmpty = (j : ℕ) → j / 8 ≡ s.n / 8 → j < s.n → test s j ≡ false

  end_empty : bit_and last_byte head_mask ≡ 0 → EndEmpty
  unfolding test EndEmpty
  end_empty e j same below = rw same (
      ground (
        arith,
        apart_of_zero last_byte head_mask (v.small (s.n / 8)) (omega arith) e (j % 8),
        probe-head_mask (j % 8),
      ))

  end_valid : EndEmpty → bit_and last_byte head_mask ≡ 0
  unfolding test EndEmpty
  end_valid h = zero_of_apart last_byte head_mask (v.small (s.n / 8)) (omega arith) λ k hk.
      let j = s.n / 8 * 8 + k in
      let e : j / 8 ≡ s.n / 8 = omega arith in
      let f : j % 8 ≡ k = omega arith in
      let at : k < s.n % 8 → probe last_byte k ≡ false =
        λ below. rw (e, f) at (h j e (omega arith)) in
      ground (arith, probe-head_mask k hk, at)

  -- What `IsEndValid` computes: where the last byte is not full, it says that no member lies in
  -- that byte. The bits past the last member do not matter to it.
  is_end_valid_iff :
      (is_end_valid s ≡ true) ↔ ((j : ℕ) → j / 8 ≡ s.n / 8 → j < s.n → test s j ≡ false)
  unfolding EndEmpty
  is_end_valid_iff = (
    λ h. end_empty ((==_iff _ _).0 (sym is_end_valid-bit_and ∙ h)),
    λ h. is_end_valid-bit_and ∙ (==_iff _ _).1 (end_valid h),
  )
