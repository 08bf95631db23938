-- ===== src/Prelude/Exec/Frames.antt =====
-- Actions that leave a part of the state alone, one rule for each way to build an action.
use mathlib.Core.Path.{◌≡◌, refl, ◌∙◌}
use mathlib.Core.Bool.{Bool, true, false}
use mathlib.Core.Option.{Option, none, some}
use midnight_js.Prelude.Tests.{if◌then◌else◌}
use midnight_js.Prelude.Results.{Result, ok, err}
use midnight_js.Prelude.Exec.{
  Exec, pure, throw, lift, gets, throw_when, assert_defined, assert_undefined, continue, ◌>>=◌,
}

-- Whether `m` resolves or rejects, what `part` shows of the state is as before.
pub record Frames {E S A B : Type 0} (part : S → B) (m : Exec E S A) : Type 0 where
  pub at : (s : S) → part (m s).1 ≡ part s

module _ {E S A B : Type 0} {part : S → B} where
  pub Frames-pure : (a : A) → Frames {E = E} part (pure a)
  unfolding pure
  Frames-pure a = record { at = λ s. refl }

  pub Frames-throw : (e : E) → Frames {A = A} part (throw e)
  unfolding throw
  Frames-throw e = record { at = λ s. refl }

  pub Frames-lift : (r : Result E A) → Frames part (lift r)
  unfolding lift
  Frames-lift r = record { at = λ s. refl }

  pub Frames-gets : (f : S → A) → Frames {E = E} part (gets f)
  unfolding gets
  Frames-gets f = record { at = λ s. refl }

  pub Frames-assert_defined :
      (truthy : A → Bool) (e : E) (o : Option A) → Frames part (assert_defined truthy e o)
  unfolding assert_defined
  Frames-assert_defined truthy e none = record { at = λ s. refl }
  Frames-assert_defined truthy e (some a) = record { at = λ s. refl }

  pub Frames-assert_undefined :
      (truthy : A → Bool) (e : E) (o : Option A) → Frames part (assert_undefined truthy e o)
  unfolding assert_undefined
  Frames-assert_undefined truthy e none = record { at = λ s. refl }
  Frames-assert_undefined truthy e (some a) = record { at = λ s. refl }

  pub Frames-if :
      (b : Bool) (m n : Exec E S A)
      → Frames part m
      → Frames part n
      → Frames part (if b then m else n)
  Frames-if true m n hm hn = hm
  Frames-if false m n hm hn = hn

module _ {E S B : Type 0} {part : S → B} where
  pub Frames-throw_when : (b : Bool) (e : E) → Frames part (throw_when b e)
  unfolding throw_when
  Frames-throw_when b e = record { at = λ s. refl }

module _ {E S A B C : Type 0} {part : S → C} where
  Frames-continue :
      (r : Result E A) (f : A → Exec E S B)
      → ((a : A) → Frames part (f a))
      → Frames part (continue r f)
  Frames-continue (ok a) f h = record { at = (h a).at }
  Frames-continue (err e) f h = record { at = λ s. refl }

  pub Frames-bind :
      (m : Exec E S A) (f : A → Exec E S B)
      → Frames part m
      → ((a : A) → Frames part (f a))
      → Frames part (m >>= f)
  unfolding ◌>>=◌
  Frames-bind m f hm hf = record { at = λ s. (Frames-continue (m s).0 f hf).at (m s).1 ∙ hm.at s }

pub ruleset frame_rules = (
  Frames-pure, Frames-throw, Frames-lift, Frames-gets, Frames-assert_defined,
  Frames-assert_undefined, Frames-if, Frames-throw_when, Frames-bind,
)
