-- ===== src/Base/Outcomes.antt =====
-- How a call of a Go function ends: it returns, or it panics. A run that the model's fuel cuts
-- off is told apart from both.
use mathlib.Core.Path.{◌≡◌}
use mathlib.Core.Bool.{Bool, true, false}
use rakoshare.Base.Tests.{if◌then◌else◌}

pub data Run {ℓ} (A : Type ℓ) : Type ℓ where
  ok : A → Run A
  panic : Run A
  out_of_fuel : Run A

infixl 5 ◌>>=◌
-- The rest of the code runs where the call returned.
abbrev pub ◌>>=◌ {ℓ κ} : {A : Type ℓ} → {B : Type κ} → Run A → (A → Run B) → Run B
call >>= rest = elim call [ ok result ↦ rest result | panic ↦ panic | out_of_fuel ↦ out_of_fuel ]

-- What a call returns, if it returns.
abbrev pub Ensures {ℓ κ} : {A : Type ℓ} → (A → Type κ) → Run A → Type κ
Ensures P (ok a) = P a
Ensures P panic = Unit
Ensures P out_of_fuel = Unit

module _ {ℓ κ ι λ'} {A : Type ℓ} {B : Type κ} where
  pub Ensures->>= :
      (Q : A → Type ι) (P : B → Type λ') (call : Run A) (rest : A → Run B)
      → Ensures Q call
      → ((a : A) → Q a → Ensures P (rest a))
      → Ensures P (call >>= rest)
  Ensures->>= Q P (ok a) rest q h = h a q
  Ensures->>= Q P panic rest q h = tt
  Ensures->>= Q P out_of_fuel rest q h = tt

module _ {ℓ κ ι} {A : Type ℓ} {B : Type κ} where
  -- Where the rest ensures it for every result.
  pub Ensures-any :
      (P : B → Type ι) (call : Run A) (rest : A → Run B)
      → ((a : A) → Ensures P (rest a))
      → Ensures P (call >>= rest)
  Ensures-any P (ok a) rest h = h a
  Ensures-any P panic rest h = tt
  Ensures-any P out_of_fuel rest h = tt

module _ {ℓ κ ι} {A : Type ℓ} where
  pub Ensures-weaken :
      (Q : A → Type κ) (P : A → Type ι) (call : Run A)
      → Ensures Q call
      → ((a : A) → Q a → P a)
      → Ensures P call
  Ensures-weaken Q P (ok a) q h = h a q
  Ensures-weaken Q P panic q h = tt
  Ensures-weaken Q P out_of_fuel q h = tt

module _ {ℓ κ} {A : Type ℓ} where
  pub Ensures-if :
      (P : A → Type κ) (test : Bool) (m n : Run A)
      → Ensures P m
      → Ensures P n
      → Ensures P (if test then m else n)
  Ensures-if P true m n h k = h
  Ensures-if P false m n h k = k

  pub Ensures-eq_ok : (P : A → Type κ) (call : Run A) (a : A) → Ensures P call → call ≡ ok a → P a
  Ensures-eq_ok P call a h e = rw e at h
