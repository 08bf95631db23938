-- ===== src/Prelude/Exec.antt =====
-- Asynchronous code that changes a state and may reject. What was written before a rejection stays
-- written, so the state comes back beside the error too.
pub mod Frames
pub mod Triples
use mathlib.Core.Path.{◌≡◌, refl}
use mathlib.Core.Logic.{◌⊎◌, inl, inr}
use mathlib.Core.Bool.{Bool, true, false, not}
use mathlib.Core.Option.{Option, none, some}
use midnight_js.Prelude.Tests.{if◌then◌else◌}
use midnight_js.Prelude.Results.{Result, ok, err}

abbrev pub Exec : Type 0 → Type 0 → Type 0 → Type 0
Exec E S A = S → Result E A × S

module _ {E S A : Type 0} where
  unfoldable pub pure : A → Exec E S A
  pure a s = (ok a, s)

  unfoldable pub throw : E → Exec E S A
  throw e s = (err e, s)

  -- A step that reads no state.
  unfoldable pub lift : Result E A → Exec E S A
  lift r s = (r, s)

  unfoldable pub gets : (S → A) → Exec E S A
  gets f s = (ok (f s), s)

module _ {E S : Type 0} where
  unfoldable pub modify : (S → S) → Exec E S (Unit {0})
  modify f s = (ok tt, f s)

  -- `if (b) throw e;`
  unfoldable pub throw_when : Bool → E → Exec E S (Unit {0})
  throw_when b e s = (if b then err e else ok tt, s)

module _ {E S A : Type 0} where
  -- `assertDefined(value)`: packages/utils/src/assertion-utils.ts. What it throws on is `!value`,
  -- so besides an absent value every falsy one.
  unfoldable pub assert_defined : (A → Bool) → E → Option A → Exec E S A
  assert_defined truthy e none s = (err e, s)
  assert_defined truthy e (some a) s = (if truthy a then ok a else err e, s)

  -- `assertUndefined(value)`
  unfoldable pub assert_undefined : (A → Bool) → E → Option A → Exec E S (Unit {0})
  assert_undefined truthy e none s = (ok tt, s)
  assert_undefined truthy e (some a) s = (if truthy a then err e else ok tt, s)

module _ {E S A B : Type 0} where
  abbrev pub continue : Result E A → (A → Exec E S B) → Exec E S B
  continue (ok a) f s = f a s
  continue (err e) f s = (err e, s)

  infixl 5 ◌>>=◌ ◌>>◌
  unfoldable pub ◌>>=◌ : Exec E S A → (A → Exec E S B) → Exec E S B
  unfolding pure throw lift gets modify throw_when assert_defined assert_undefined
  ◌>>=◌ m f s = let (r, s') = m s in continue r f s'

  abbrev pub ◌>>◌ : Exec E S A → Exec E S B → Exec E S B
  m >> n = m >>= λ _. n

  continue-eq-ok :
      (r : Result E A) (f : A → Exec E S B) (s : S) {b : B} {s' : S}
      → continue r f s ≡ (ok b, s')
      → (a : A) × (r ≡ ok a) × (f a s ≡ (ok b, s'))
  continue-eq-ok (ok a) f s h = (a, refl, h)
  continue-eq-ok (err e) f s h = cc

  continue-eq-err :
      (r : Result E A) (f : A → Exec E S B) (s : S) {e : E} {s' : S}
      → continue r f s ≡ (err e, s')
      → ((r ≡ err e) × (s ≡ s')) ⊎ ((a : A) × (r ≡ ok a) × (f a s ≡ (err e, s')))
  continue-eq-err (ok a) f s h = inr (a, refl, h)
  continue-eq-err (err e) f s h = inl (cc, cc)

  -- A block that resolves has run both its parts.
  pub bind-eq-ok :
      (m : Exec E S A) (f : A → Exec E S B) (s : S) {b : B} {s' : S}
      → (m >>= f) s ≡ (ok b, s')
      → (a : A) × (t : S) × (m s ≡ (ok a, t)) × (f a t ≡ (ok b, s'))
  unfolding ◌>>=◌
  bind-eq-ok m f s h =
      let (a, e, k) = continue-eq-ok (m s).0 f (m s).1 h in (a, (m s).1, (λ i. (e i, (m s).1)), k)

  -- A block that rejects did so in its first part or after it.
  pub bind-eq-err :
      (m : Exec E S A) (f : A → Exec E S B) (s : S) {e : E} {s' : S}
      → (m >>= f) s ≡ (err e, s')
      → (m s ≡ (err e, s')) ⊎ ((a : A) × (t : S) × (m s ≡ (ok a, t)) × (f a t ≡ (err e, s')))
  unfolding ◌>>=◌
  bind-eq-err m f s h = elim (continue-eq-err (m s).0 f (m s).1 h) [
    | inl (p, q) ↦ inl (λ i. (p i, q i))
    | inr (a, p, q) ↦ inr (a, (m s).1, (λ i. (p i, (m s).1)), q)
  ]
