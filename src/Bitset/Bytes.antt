-- ===== src/Bitset/Bytes.antt =====
-- One byte of a bitset: what the masks of bitset.go pick out of it.
use rakoshare.Base.{
  ℕ, zero, suc, ltb, ltb→lt, ◌-◌, ◌/◌, ◌^◌, ◌<◌, bit_and, bit_or, ◌≡◌, refl, ap, Bool, true, false,
  not, ◌&&◌, ◌||◌, arith, ◌==◌, ==_iff, if◌then◌else◌, all_below, all_below_sound, digit,
  digit-bit_and, digit-bit_or, not, zero, suc, ap, digit-lt, bit_and-le, bit_or-lt,
}
use rakoshare.Bitset.{complement}

-- The test of bit `k` of a byte, counted from the high end.
abbrev pub probe : ℕ → ℕ → Bool
probe x k = not (bit_and x (128 / 2 ^ k) == 0)

abbrev pub digit_of : ℕ → ℕ → ℕ
digit_of k x = digit (7 - k) x

abbrev same : Bool → Bool → Bool
same true b = b
same false b = not b

same_sound : (a b : Bool) → same a b ≡ true → a ≡ b
same_sound a b h = ground arith

-- Every byte and every position.
table_sound :
    (p q : ℕ → ℕ → Bool)
    → all_below (λ x. all_below (λ k. same (p x k) (q x k)) 8) 256 ≡ true
    → (x k : ℕ) → x < 256
    → k < 8
    → p x k ≡ q x k
table_sound p q h x k hx hk =
    same_sound _ _ (all_below_sound _ 8 (all_below_sound _ 256 h x hx) k hk)

probe_table : all_below (λ x. all_below (λ k. same (probe x k) (digit_of k x == 1)) 8) 256 ≡ true
unfolding all_below
probe_table = refl

pub probe-digit : (x k : ℕ) → x < 256 → k < 8 → probe x k ≡ (digit_of k x == 1)
probe-digit = table_sound probe (λ x k. digit_of k x == 1) probe_table

complement_table :
    all_below (λ x. all_below (λ k. same (digit_of k (255 - x) == 1) (digit_of k x == 0)) 8) 256
    ≡ true
unfolding all_below
complement_table = refl

pub digit-complement :
    (x k : ℕ) → x < 256 → k < 8 → (digit_of k (complement x) == 1) ≡ (digit_of k x == 0)
digit-complement =
    table_sound (λ x k. digit_of k (255 - x) == 1) (λ x k. digit_of k x == 0) complement_table

-- The same over two positions.
positions_sound :
    (p q : ℕ → ℕ → ℕ)
    → all_below (λ i. all_below (λ k. p i k == q i k) 8) 8 ≡ true
    → (i k : ℕ) → i < 8
    → k < 8
    → p i k ≡ q i k
positions_sound p q h i k hi hk =
    (==_iff _ _).0 (all_below_sound _ 8 (all_below_sound _ 8 h i hi) k hk)

mask_table :
    all_below (λ i. all_below (λ k. digit_of k (128 / 2 ^ i) == (if i == k then 1 else 0)) 8) 8
    ≡ true
unfolding all_below
mask_table = refl

pub digit-mask : (i k : ℕ) → i < 8 → k < 8 → digit_of k (128 / 2 ^ i) ≡ (if i == k then 1 else 0)
digit-mask = positions_sound _ _ mask_table

tail_table :
    all_below (λ i. all_below (λ k. digit_of k (255 / 2 ^ i) == (if ltb k i then 0 else 1)) 8) 8
    ≡ true
unfolding all_below
tail_table = refl

-- `255 >> i` is the positions from `i` on.
pub digit-tail : (i k : ℕ) → i < 8 → k < 8 → digit_of k (255 / 2 ^ i) ≡ (if ltb k i then 0 else 1)
digit-tail = positions_sound _ _ tail_table

mask-lt_table : all_below (λ i. ltb (128 / 2 ^ i) 256) 8 ≡ true
unfolding all_below
mask-lt_table = refl

pub mask-lt : (i : ℕ) → i < 8 → 128 / 2 ^ i < 256
mask-lt i h = ltb→lt _ _ (all_below_sound _ 8 mask-lt_table i h)

pub probe-or :
    (x i k : ℕ)
    → x < 256
    → i < 8
    → k < 8
    → probe (bit_or x (128 / 2 ^ i)) k ≡ ((i == k) || probe x k)
probe-or x i k hx hi hk = ground (
  arith,
  probe-digit (bit_or x (128 / 2 ^ i)) k (bit_or-lt 8 x _ hx (mask-lt i hi)) hk,
  probe-digit x k hx hk,
  digit-bit_or (7 - k) x (128 / 2 ^ i),
  digit-mask i k hi hk,
  digit-lt (7 - k) x,
)

pub probe-and_not :
    (x y k : ℕ)
    → x < 256
    → y < 256
    → k < 8
    → probe (bit_and x (complement y)) k ≡ (probe x k && not (probe y k))
probe-and_not x y k hx hy hk = ground (
  arith,
  probe-digit (bit_and x (complement y)) k (omega (arith, bit_and-le x (complement y))) hk,
  probe-digit x k hx hk,
  probe-digit y k hy hk,
  digit-bit_and (7 - k) x (complement y),
  digit-complement y k hy hk,
  digit-lt (7 - k) x,
  digit-lt (7 - k) y,
  digit-lt (7 - k) (complement y),
)

digit-zero : (k : ℕ) → digit k 0 ≡ 0
digit-zero zero = refl
digit-zero (suc k) = digit-zero k

zero_of_digits : (y : ℕ) → y < 256 → ((k : ℕ) → k < 8 → digit_of k y ≡ 0) → y ≡ 0
zero_of_digits y h z = omega (
  arith,
  z 0 (omega arith),
  z 1 (omega arith),
  z 2 (omega arith),
  z 3 (omega arith),
  z 4 (omega arith),
  z 5 (omega arith),
  z 6 (omega arith),
  z 7 (omega arith),
)

pub probe-tail : (off k : ℕ) → off < 8 → k < 8 → probe (255 / 2 ^ off) k ≡ not (ltb k off)
probe-tail off k ho hk =
    ground (arith, probe-digit (255 / 2 ^ off) k (omega arith) hk, digit-tail off k ho hk)

pub probe-complement : (x k : ℕ) → x < 256 → k < 8 → probe (complement x) k ≡ not (probe x k)
probe-complement x k hx hk = ground (
  arith,
  probe-digit (complement x) k (omega arith) hk,
  probe-digit x k hx hk,
  digit-complement x k hx hk,
  digit-lt (7 - k) x,
  digit-lt (7 - k) (complement x),
)

-- Two bytes have no bit in common exactly when no position is set in both.
module _ (x y : ℕ) (hx : x < 256) (hy : y < 256) where
  abbrev pub Apart : Type 0
  Apart = (k : ℕ) → k < 8 → (probe x k && probe y k) ≡ false

  pub apart_of_zero : bit_and x y ≡ 0 → Apart
  apart_of_zero e k hk = ground (
    arith,
    probe-digit x k hx hk,
    probe-digit y k hy hk,
    digit-bit_and (7 - k) x y,
    ap (digit_of k) e,
    digit-zero (7 - k),
    digit-lt (7 - k) x,
    digit-lt (7 - k) y,
  )

  pub zero_of_apart : Apart → bit_and x y ≡ 0
  zero_of_apart h = zero_of_digits _ (omega (arith, bit_and-le x y)) λ k hk. ground (
    arith,
    h k,
    probe-digit x k hx hk,
    probe-digit y k hy hk,
    digit-bit_and (7 - k) x y,
    digit-lt (7 - k) x,
    digit-lt (7 - k) y,
  )

pub probe-mask : (i k : ℕ) → i < 8 → k < 8 → probe (128 / 2 ^ i) k ≡ (i == k)
probe-mask i k hi hk =
    ground (arith, probe-digit (128 / 2 ^ i) k (mask-lt i hi) hk, digit-mask i k hi hk)
