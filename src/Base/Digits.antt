-- ===== src/Base/Digits.antt =====
-- The binary digits of a number, and what the native bit operations do to them.
use Prim.Native.Nat.{
  digits, bit_and-bitwise, bit_or-bitwise, ℕ, zero, suc, ◌^◌, ◌%◌, ◌/◌, ◌*◌, ◌+◌, ◌<◌, ◌≤◌, max,
  min, bit_and, bit_or,
}
use mathlib.Core.Path.{◌≡◌, refl, ap, ◌∙◌}
use native.Mathlib.Nat.{pow-suc}
use native.Mathlib.Omega.{arith}

-- The digit of weight 2^k.
abbrev pub digit : ℕ → ℕ → ℕ
digit zero x = x % 2
digit (suc k) x = digit k (x / 2)

-- The count of rounds that the native recursion is given does not matter once it suffices.
digits_rounds :
    (z : ℕ → ℕ) (f : ℕ → ℕ → ℕ) (a n m : ℕ)
    → a ≤ m
    → a ≤ n
    → (b : ℕ) → digits z f n a b ≡ digits z f m a b
digits_rounds z f zero zero zero p q b = refl
digits_rounds z f zero zero (suc m) p q b = refl
digits_rounds z f zero (suc n) zero p q b = refl
digits_rounds z f zero (suc n) (suc m) p q b = refl
digits_rounds z f (suc a) (suc n) (suc m) p q b =
    ap (λ (t : ℕ). t * 2 + f (suc a % 2) (b % 2))
      (digits_rounds z f (suc a / 2) n m (omega arith) (omega arith) (b / 2))
digits_rounds z f a n m p q b = absurd (omega arith)

bit_and-halves : (a b : ℕ) → bit_and a b ≡ min (a % 2) (b % 2) + 2 * bit_and (a / 2) (b / 2)
bit_and-halves zero b = simp bit_and-bitwise (omega arith)
bit_and-halves (suc a) b = simp bit_and-bitwise (
    omega (
      arith,
      digits_rounds (λ _. 0) min (suc a / 2) a (suc a / 2) (omega arith) (omega arith) (b / 2),
    ))

bit_or-halves : (a b : ℕ) → bit_or a b ≡ max (a % 2) (b % 2) + 2 * bit_or (a / 2) (b / 2)
bit_or-halves zero b = simp bit_or-bitwise (omega arith)
bit_or-halves (suc a) b = simp bit_or-bitwise (
    omega (
      arith,
      digits_rounds (λ y. y) max (suc a / 2) a (suc a / 2) (omega arith) (omega arith) (b / 2),
    ))

pub digit-bit_and : (k a b : ℕ) → digit k (bit_and a b) ≡ min (digit k a) (digit k b)
digit-bit_and zero a b = omega (arith, bit_and-halves a b)
digit-bit_and (suc k) a b =
    let e : bit_and a b / 2 ≡ bit_and (a / 2) (b / 2) = omega (arith, bit_and-halves a b) in
    ap (digit k) e ∙ digit-bit_and k (a / 2) (b / 2)

pub digit-bit_or : (k a b : ℕ) → digit k (bit_or a b) ≡ max (digit k a) (digit k b)
digit-bit_or zero a b = omega (arith, bit_or-halves a b)
digit-bit_or (suc k) a b =
    let e : bit_or a b / 2 ≡ bit_or (a / 2) (b / 2) = omega (arith, bit_or-halves a b) in
    ap (digit k) e ∙ digit-bit_or k (a / 2) (b / 2)

pub digit-lt : (k a : ℕ) → digit k a < 2
digit-lt zero a = omega arith
digit-lt (suc k) a = digit-lt k (a / 2)

pub bit_and-zero_left : (b : ℕ) → bit_and 0 b ≡ 0
bit_and-zero_left b = bit_and-bitwise 0 b

bit_and-le_rounds : (n a b : ℕ) → a ≤ n → bit_and a b ≤ a
bit_and-le_rounds n zero b h = omega (arith, bit_and-halves 0 b, bit_and-zero_left b)
bit_and-le_rounds zero (suc a) b h = absurd (omega arith)
bit_and-le_rounds (suc n) (suc a) b h =
    omega (arith, bit_and-halves (suc a) b, bit_and-le_rounds n (suc a / 2) (b / 2) (omega arith))

pub bit_and-le : (a b : ℕ) → bit_and a b ≤ a
bit_and-le a b = bit_and-le_rounds a a b (omega arith)

-- Both fit `k` digits, so their union does.
pub bit_or-lt : (k a b : ℕ) → a < 2 ^ k → b < 2 ^ k → bit_or a b < 2 ^ k
bit_or-lt zero a b p q =
    let e : a ≡ 0 = omega arith in let f : b ≡ 0 = omega arith in rw (e, f) (omega arith)
bit_or-lt (suc k) a b p q = omega (
  arith,
  pow-suc 2 k,
  bit_or-halves a b,
  bit_or-lt k (a / 2) (b / 2) (omega (arith, pow-suc 2 k)) (omega (arith, pow-suc 2 k)),
)

bit_or-zero_rounds : (n a : ℕ) → a ≤ n → bit_or a 0 ≡ a
bit_or-zero_rounds n zero h = bit_or-bitwise 0 0
bit_or-zero_rounds zero (suc a) h = absurd (omega arith)
bit_or-zero_rounds (suc n) (suc a) h =
    let e : 0 / 2 ≡ 0 = refl in
    let halves : bit_or (suc a) 0 ≡ max (suc a % 2) (0 % 2) + 2 * bit_or (suc a / 2) 0 =
      rw e at (bit_or-halves (suc a) 0) in
    omega (arith, halves, bit_or-zero_rounds n (suc a / 2) (omega arith))

-- A number of `k` digits fits under one that is shifted by `k`.
pub bit_or-shifted : (k a b : ℕ) → b < 2 ^ k → bit_or (a * 2 ^ k) b ≡ a * 2 ^ k + b
bit_or-shifted zero a b h =
    let e : b ≡ 0 = omega arith in
    let f : a * 2 ^ 0 ≡ a = omega arith in
    rw (e, f) (omega (arith, bit_or-zero_rounds a a (omega arith)))
bit_or-shifted (suc k) a b h =
    let p : 2 ^ suc k ≡ 2 * 2 ^ k = omega (arith, pow-suc 2 k) in
    let q : a * 2 ^ suc k ≡ 2 * (a * 2 ^ k) = rw p (omega arith) in
    let half : 2 * (a * 2 ^ k) / 2 ≡ a * 2 ^ k = omega arith in
    let ih = bit_or-shifted k a (b / 2) (omega arith) in
    rw q (omega (arith, rw half at (bit_or-halves (2 * (a * 2 ^ k)) b), ih))
