-- ===== src/Prelude/Exec/Triples.antt =====
-- What an action ensures when it resolves and when it rejects.
use mathlib.Core.Path.{◌≡◌, refl, ◌∙◌, subst}
use mathlib.Core.Bool.{Bool, true, false}
use mathlib.Core.Option.{Option, none, some}
use midnight_js.Prelude.Tests.{if◌then◌else◌}
use midnight_js.Prelude.Results.{Result, ok, err}
use midnight_js.Prelude.Exec.{
  Exec, pure, throw, lift, gets, modify, throw_when, assert_defined, continue, ◌>>=◌,
}
use midnight_js.Prelude.Exec.Frames.{Frames}

abbrev pub Post : {E S A : Type 0} → (A → S → Type 0) → (E → S → Type 0) → Result E A → S → Type 0
Post Q X (ok a) s = Q a s
Post Q X (err e) s = X e s

-- From a state with `P`, `m` resolves with `Q` or rejects with `X`.
pub record Triple {E S A : Type 0} (P : S → Type 0) (m : Exec E S A) (Q : A → S → Type 0)
    (X : E → S → Type 0) : Type 0 where
  pub at : (s : S) → P s → Post Q X (m s).0 (m s).1

module _ {E S A : Type 0} {P : S → Type 0} {Q : A → S → Type 0} {X : E → S → Type 0} where
  pub Triple-pure : (a : A) → ((s : S) → P s → Q a s) → Triple P (pure a) Q X
  unfolding pure
  Triple-pure a h = record { at = h }

  pub Triple-throw : (e : E) → ((s : S) → P s → X e s) → Triple P (throw e) Q X
  unfolding throw
  Triple-throw e h = record { at = h }

  pub Triple-gets : (f : S → A) → ((s : S) → P s → Q (f s) s) → Triple P (gets f) Q X
  unfolding gets
  Triple-gets f h = record { at = h }

  pub Triple-lift :
      (r : Result E A)
      → ((a : A) (s : S) → r ≡ ok a → P s → Q a s)
      → ((e : E) (s : S) → r ≡ err e → P s → X e s)
      → Triple P (lift r) Q X
  unfolding lift
  Triple-lift (ok a) h k = record { at = λ s p. h a s refl p }
  Triple-lift (err e) h k = record { at = λ s p. k e s refl p }

  pub Triple-assert_defined :
      (truthy : A → Bool) (e : E) (o : Option A)
      → ((a : A) (s : S) → o ≡ some a → truthy a ≡ true → P s → Q a s)
      → ((s : S) → P s → X e s)
      → Triple P (assert_defined truthy e o) Q X
  unfolding assert_defined
  Triple-assert_defined truthy e none h k = record { at = k }
  Triple-assert_defined truthy e (some a) h k = record { at = λ s p. split (truthy a) s refl p }
    where
      split : (b : Bool) (s : S) → truthy a ≡ b → P s → Post Q X (if b then ok a else err e) s
      split true s t p = h a s refl t p
      split false s t p = k s p

  pub Triple-if :
      (b : Bool) (m n : Exec E S A)
      → (b ≡ true → Triple P m Q X)
      → (b ≡ false → Triple P n Q X)
      → Triple P (if b then m else n) Q X
  Triple-if true m n hm hn = hm refl
  Triple-if false m n hm hn = hn refl

  pub Triple-weaken :
      {R : A → S → Type 0} {P' : S → Type 0} (m : Exec E S A)
      → ((s : S) → P s → P' s)
      → Triple P' m R X
      → ((a : A) (s : S) → R a s → Q a s)
      → Triple P m Q X
  Triple-weaken {R} m before h after = record {
    at = λ s p. weaken (m s).0 (m s).1 (h.at s (before s p));
  }
    where
      weaken : (r : Result E A) (s : S) → Post R X r s → Post Q X r s
      weaken (ok a) s q = after a s q
      weaken (err e) s x = x

  pub Triple-weaken_rejects :
      {Y : E → S → Type 0} (m : Exec E S A)
      → Triple P m Q Y
      → ((e : E) (s : S) → Y e s → X e s)
      → Triple P m Q X
  Triple-weaken_rejects {Y} m h after = record { at = λ s p. weaken (m s).0 (m s).1 (h.at s p) }
    where
      weaken : (r : Result E A) (s : S) → Post Q Y r s → Post Q X r s
      weaken (ok a) s q = q
      weaken (err e) s x = after e s x

  -- The rule's use: a run that resolved, and one that rejected.
  pub Triple-resolves :
      {m : Exec E S A} {s s' : S} {a : A} → Triple P m Q X → P s → m s ≡ (ok a, s') → Q a s'
  Triple-resolves {s} h p e = subst (λ (t : Result E A × S). Post Q X t.0 t.1) e (h.at s p)

  pub Triple-rejects :
      {m : Exec E S A} {s s' : S} {e : E} → Triple P m Q X → P s → m s ≡ (err e, s') → X e s'
  Triple-rejects {s} h p q = subst (λ (t : Result E A × S). Post Q X t.0 t.1) q (h.at s p)

module _ {E S : Type 0} {P : S → Type 0} {Q : Unit {0} → S → Type 0} {X : E → S → Type 0} where
  pub Triple-throw_when :
      (b : Bool) (e : E)
      → (b ≡ false → (s : S) → P s → Q tt s)
      → (b ≡ true → (s : S) → P s → X e s)
      → Triple P (throw_when b e) Q X
  unfolding throw_when
  Triple-throw_when true e h k = record { at = k refl }
  Triple-throw_when false e h k = record { at = h refl }

module _ {E S : Type 0} {P : S → Type 0} {Q : Unit {0} → S → Type 0} {X : E → S → Type 0} where
  pub Triple-modify : (f : S → S) → ((s : S) → P s → Q tt (f s)) → Triple P (modify f) Q X
  unfolding modify
  Triple-modify f h = record { at = h }

Post-fact :
    {E S A : Type 0} {F : Type 0} (Q : A → S → Type 0) (X : E → S → Type 0) (r : Result E A) (s : S)
    → F
    → Post Q X r s
    → Post (λ a t. F × Q a t) X r s
Post-fact Q X (ok a) s f q = (f, q)
Post-fact Q X (err e) s f x = x

-- A fact that no state shows holds after an action as before it.
pub Triple-fact :
    {E S A : Type 0} {F : Type 0} {P : S → Type 0} {Q : A → S → Type 0} {X : E → S → Type 0}
    (m : Exec E S A)
    → Triple P m Q X
    → Triple (λ s. F × P s) m (λ a s. F × Q a s) X
Triple-fact {Q} {X} m h = record { at = λ s p. Post-fact Q X (m s).0 (m s).1 p.0 (h.at s p.1) }

Post-continue :
    {E S A B : Type 0} (R : A → S → Type 0) (Q : B → S → Type 0) (X : E → S → Type 0)
    (r : Result E A) (s : S) (f : A → Exec E S B)
    → Post R X r s
    → ((a : A) → Triple (R a) (f a) Q X)
    → Post Q X (continue r f s).0 (continue r f s).1
Post-continue R Q X (ok a) s f p h = (h a).at s p
Post-continue R Q X (err e) s f p h = p

module _ {E S A B : Type 0} {P : S → Type 0} {R : A → S → Type 0} {Q : B → S → Type 0}
    {X : E → S → Type 0} where
  pub Triple-bind :
      (m : Exec E S A) (f : A → Exec E S B)
      → Triple P m R X
      → ((a : A) → Triple (R a) (f a) Q X)
      → Triple P (m >>= f) Q X
  unfolding ◌>>=◌
  Triple-bind m f hm hf = record {
    at = λ s p. Post-continue R Q X (m s).0 (m s).1 f (hm.at s p) hf;
  }

Post-frame :
    {E S A B : Type 0} (part : S → B) (l : B) (r : Result E A) (s : S)
    → part s ≡ l
    → Post (λ _ t. part t ≡ l) (λ _ t. part t ≡ l) r s
Post-frame part l (ok a) s h = h
Post-frame part l (err e) s h = h

-- An action that leaves a part of the state alone ensures that it is what it was.
pub Triple-frame :
    {E S A B : Type 0} {part : S → B} (l : B) (m : Exec E S A)
    → Frames part m
    → Triple (λ s. part s ≡ l) m (λ _ s. part s ≡ l) (λ _ s. part s ≡ l)
Triple-frame {part} l m h = record { at = λ s p. Post-frame part l (m s).0 (m s).1 (h.at s ∙ p) }

Post-any :
    {E S A : Type 0} (r : Result E A) (s : S) → Post (λ (_ : A) _. Unit {0}) (λ (_ : E) _. Unit) r s
Post-any (ok a) s = tt
Post-any (err e) s = tt

-- Nothing is asked of the action.
pub Triple-any :
    {E S A : Type 0} {P : S → Type 0} (m : Exec E S A)
    → Triple P m (λ _ _. Unit {0}) (λ _ _. Unit {0})
Triple-any m = record { at = λ s p. Post-any (m s).0 (m s).1 }

-- A step whose result is all that what follows needs.
pub Triple-then :
    {E S A B : Type 0} {Q : B → S → Type 0} (m : Exec E S A) (f : A → Exec E S B)
    → ((a : A) → Triple (λ _. Unit {0}) (f a) Q (λ _ _. Unit {0}))
    → Triple (λ _. Unit {0}) (m >>= f) Q (λ _ _. Unit {0})
Triple-then m f h = Triple-bind m f (Triple-any m) h

-- A fact that no state shows is a hypothesis.
pub Triple-given :
    {E S A : Type 0} {F : Type 0} {Q : A → S → Type 0} {X : E → S → Type 0} (m : Exec E S A)
    → (F → Triple (λ _. Unit {0}) m Q X)
    → Triple (λ _. F) m Q X
Triple-given m h = record { at = λ s f. (h f).at s tt }

-- The same, beside a precondition.
pub Triple-assume :
    {E S A : Type 0} {F : Type 0} {P : S → Type 0} {Q : A → S → Type 0} {X : E → S → Type 0}
    (m : Exec E S A)
    → (F → Triple P m Q X)
    → Triple (λ s. F × P s) m Q X
Triple-assume m h = record { at = λ s p. (h p.0).at s p.1 }

Post-returned :
    {E S A B : Type 0} (part : S → B) (l : B) (m : Exec E S A) (v : S) (r : Result E A) (s : S)
    → m v ≡ (r, s)
    → part s ≡ l
    → Post (λ a t. ((u : S) × (u' : S) × (m u ≡ (ok a, u'))) × (part t ≡ l)) (λ _ t. part t ≡ l) r s
Post-returned part l m v (ok a) s e h = ((v, s, e), h)
Post-returned part l m v (err x) s e h = h

-- What is returned was returned by a run.
pub Triple-returned :
    {E S A B : Type 0} {part : S → B} (l : B) (m : Exec E S A)
    → Frames part m
    → Triple
        (λ s. part s ≡ l)
        m
        (λ a s. ((u : S) × (u' : S) × (m u ≡ (ok a, u'))) × (part s ≡ l))
        (λ _ s. part s ≡ l)
Triple-returned {part} l m h = record {
  at = λ s p. Post-returned part l m s (m s).0 (m s).1 refl (h.at s ∙ p);
}

-- Two things that an action ensures.
pub Triple-both :
    {E S A : Type 0} {P : S → Type 0} {Q Q' Q'' : A → S → Type 0} {X X' : E → S → Type 0}
    (m : Exec E S A)
    → Triple P m Q X'
    → Triple P m Q' X
    → ((a : A) (s : S) → Q a s → Q' a s → Q'' a s)
    → Triple P m Q'' X
Triple-both {E} {S} {A} {P} {Q} {Q'} {Q''} {X} {X'} m h k after = record {
  at = λ s p. both (m s).0 (m s).1 (h.at s p) (k.at s p);
}
  where
    both : (r : Result E A) (s : S) → Post Q X' r s → Post Q' X r s → Post Q'' X r s
    both (ok a) s q q' = after a s q q'
    both (err e) s x x' = x'
