-- ===== src/Prelude/Results.antt =====
-- Code that may throw an error of type `E`.
use mathlib.Core.Path.{◌≡◌, refl}
use mathlib.Core.Logic.{◌⊎◌, inl, inr}
use mathlib.Core.Bool.{Bool, true, false}
use native.Mathlib.Omega.{arith}
use midnight_js.Prelude.Tests.{if◌then◌else◌}

pub data Result {ℓ} (E A : Type ℓ) : Type ℓ where
  ok : A → Result E A
  err : E → Result E A

module _ {ℓ} {E A B : Type ℓ} where
  infixl 5 ◌>>=◌ ◌>>◌
  abbrev pub ◌>>=◌ : Result E A → (A → Result E B) → Result E B
  ok a >>= f = f a
  err e >>= f = err e

  abbrev pub ◌>>◌ : Result E A → Result E B → Result E B
  m >> k = m >>= λ _. k

module _ {E : Type 0} where
  -- `if (b) throw e;`
  abbrev pub throw_if : Bool → E → Result E (Unit {0})
  throw_if true e = err e
  throw_if false e = ok tt

pub Result-cases :
    {E A : Type 0} (r : Result E A) → ((e : E) × (r ≡ err e)) ⊎ ((a : A) × (r ≡ ok a))
Result-cases (ok a) = inr (a, refl)
Result-cases (err e) = inl (e, refl)

-- What code returns satisfies `P`, where it returns.
pub data Returns {E A : Type 0} (P : A → Type 0) : Result E A → Type 0 where
  returns : {a : A} → P a → Returns P (ok a)
  throws : {e : E} → Returns P (err e)

module _ {E A B : Type 0} {P : A → Type 0} {Q : B → Type 0} where
  infixl 5 ◌⟫◌
  pub ◌⟫◌ :
      {m : Result E A} {f : A → Result E B}
      → Returns P m
      → ((a : A) → P a → Returns Q (f a))
      → Returns Q (m >>= f)
  returns p ⟫ k = k _ p
  throws ⟫ k = throws

module _ {E A : Type 0} {P Q : A → Type 0} where
  pub weaken : {m : Result E A} → ((a : A) → P a → Q a) → Returns P m → Returns Q m
  weaken f (returns p) = returns (f _ p)
  weaken f throws = throws

module _ {E A : Type 0} {P : A → Type 0} where
  pub of_ok : {m : Result E A} {a : A} → m ≡ ok a → Returns P m → P a
  of_ok h (returns p) = ground (arith, p)
  of_ok h throws = ground arith

  pub if-Returns :
      (b : Bool) {x y : Result E A}
      → (b ≡ true → Returns P x)
      → (b ≡ false → Returns P y)
      → Returns P (if b then x else y)
  if-Returns true h k = h refl
  if-Returns false h k = k refl

pub anything : {E A : Type 0} (m : Result E A) → Returns (λ _. Unit {0}) m
anything (ok a) = returns tt
anything (err e) = throws
