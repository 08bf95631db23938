-- ===== src/PrivateState/Level/Sublevels.antt =====
-- One task in a sublevel of a Level database, and what the sublevels then hold.
use midnight_js.Prelude.{
  ◌≡◌, refl, sym, subst, ap, ◌∙◌, ◌⊎◌, inl, inr, Bool, false, arith, Option, none, some, Text,
  text_eq, text_eq_refl, Result, ok, err, update,
}
use mathlib.Core.Option
use midnight_js.Prelude.Exec.{Exec, lift, ◌>>◌}
use midnight_js.Prelude.Exec.Triples.{
  Triple, Post, Triple-bind, Triple-pure, Triple-lift, Triple-weaken, Triple-weaken_rejects,
  Triple-fact, Triple-assume,
}
use midnight_js.PrivateState.{or_null}
use midnight_js.PrivateState.Stores.{without}
use midnight_js.PrivateState.Level.Database.{
  Level, Superjson, finally_do, settle, Contents, written, emptied, Documented,
}
use midnight_js.PrivateState.Level.{with_sub_level, sub_level_maybe_get, decode}

Post-settle :
    {E S A : Type 0} (Q : A → S → Type 0) (Y : S → Type 0) (r : Result E A)
    (c : Result E (Unit {0})) (s : S)
    → Post (λ _ t. Post Q (λ _. Y) r t) (λ _. Y) c s
    → Post Q (λ _. Y) (settle r c) s
Post-settle Q Y r (ok u) s h = h
Post-settle Q Y r (err e) s h = h

Triple-finally :
    {E S A : Type 0} {P Y : S → Type 0} {Q : A → S → Type 0} (m : Exec E S A)
    (cleanup : Exec E S (Unit {0}))
    → Triple P m Q (λ _. Y)
    → ((a : A) → Triple (Q a) cleanup (λ _. Q a) (λ _. Y))
    → Triple Y cleanup (λ _. Y) (λ _. Y)
    → Triple P (finally_do m cleanup) Q (λ _. Y)
unfolding finally_do
Triple-finally {E} {S} {A} {Y = Y} {Q = Q} m cleanup h k j = record {
  at = λ s p.
      Post-settle Q Y (m s).0 (cleanup (m s).1).0 (cleanup (m s).1).1
        (after (m s).0 (m s).1 (h.at s p));
}
  where
    after :
        (r : Result E A) (t : S)
        → Post Q (λ _. Y) r t
        → Post (λ _ u. Post Q (λ _. Y) r u) (λ _. Y) (cleanup t).0 (cleanup t).1
    after (ok a) t q = (k a).at t q
    after (err e) t y = j.at t y

Triple-or :
    {E S A : Type 0} {P P' : S → Type 0} {Q : A → S → Type 0} {X : E → S → Type 0} (m : Exec E S A)
    → Triple P m Q X
    → Triple P' m Q X
    → Triple (λ s. P s ⊎ P' s) m Q X
Triple-or m h k = record { at = λ s p. elim p [ inl q ↦ h.at s q | inr q ↦ k.at s q ] }

module _ {V : Type 0} (encode : V → Text) where
  -- A sublevel holds the encodings of a partial function's values.
  abbrev pub Holds : Contents → Text → Text → (Text → Option V) → Type 0
  Holds c d l f = (k : Text) → c d l k ≡ Option.map encode (f k)

  pub Holds-written :
      (c : Contents) (d l : Text) (f : Text → Option V) (k : Text) (v : V)
      → Holds c d l f
      → Holds (written c d l k (some (encode v))) d l (update f k v)
  Holds-written c d l f k v h j = ground (arith, text_eq_refl d, text_eq_refl l, h j)

  pub Holds-deleted :
      (c : Contents) (d l : Text) (f : Text → Option V) (k : Text)
      → Holds c d l f
      → Holds (written c d l k none) d l (without f k)
  Holds-deleted c d l f k h j = ground (arith, text_eq_refl d, text_eq_refl l, h j)

  pub Holds-emptied : (c : Contents) (d l : Text) → Holds (emptied c d l) d l (λ _. none)
  Holds-emptied c d l j = ground (arith, text_eq_refl d, text_eq_refl l)

  module _ (c : Contents) (d l l' : Text) (f : Text → Option V) (other : text_eq l l' ≡ false)
      (h : Holds c d l' f) where
    pub Holds-written_other : (k : Text) (o : Option Text) → Holds (written c d l k o) d l' f
    Holds-written_other k o j = ground (arith, h j)

    pub Holds-emptied_other : Holds (emptied c d l) d l' f
    Holds-emptied_other j = ground (arith, h j)

module _ (db : Level) (contents : db.World → Contents) (documented : Documented db contents) where
  abbrev pub At : Contents → db.World → Type 0
  At c w = contents w ≡ c

  abbrev pub Either : Contents → Contents → db.World → Type 0
  Either c c' w = At c w ⊎ At c' w

  module _ {A : Type 0} (c c' : Contents) (R : A → Type 0) (d l : Text) where
    cleanup_keeps :
        (b : Contents)
        → Triple (At b) (db.close_sub_level d l >> db.close_level d) (λ _. At b) (λ _. At b)
    cleanup_keeps b = Triple-bind _ _ (documented.closes_sub b d l) (λ _. documented.closes b d)

    cleanup_keeps_Either :
        Triple
          (Either c c')
          (db.close_sub_level d l >> db.close_level d)
          (λ _. Either c c')
          (λ _. Either c c')
    cleanup_keeps_Either =
        Triple-or _
          (Triple-weaken _ (λ w p. p) (Triple-weaken_rejects _ (cleanup_keeps c) (λ e w x. inl x))
            (λ u w q. inl q))
          (Triple-weaken _ (λ w p. p) (Triple-weaken_rejects _ (cleanup_keeps c') (λ e w x. inr x))
            (λ u w q. inr q))

    -- A task that leaves `Y` of the sublevels behind a rejection.
    pub with_sub_level_partly :
        (Y : Contents → Type 0) (thunk : Exec db.Error db.World A)
        → Y c
        → Y c'
        → Triple (At c) thunk (λ r w. R r × At c' w) (λ _ w. Y (contents w))
        → Triple (At c) (with_sub_level db d l thunk) (λ r w. R r × At c' w) (λ _ w. Y (contents w))
    unfolding with_sub_level
    with_sub_level_partly Y thunk y y' h =
        Triple-finally _ _
          (Triple-bind _ _ (Triple-weaken_rejects _ (documented.opens c d) (holds_at y)) λ _.
            Triple-bind _ _ (Triple-weaken_rejects _ (documented.opens_sub c d l) (holds_at y))
              λ _. h)
          (λ a. Triple-weaken_rejects _ (Triple-fact _ (cleanup_keeps c')) (holds_at y'))
          (record {
            at = λ w z.
                (Triple-weaken_rejects _
                    (Triple-weaken _ (λ v p. p) (cleanup_keeps (contents w)) (holds_at z))
                    (holds_at z)).at
                  w refl;
          })
      where
        holds_at :
            {B : Type 0} {b : Contents}
            → Y b
            → (x : B) (w : db.World) → contents w ≡ b
            → Y (contents w)
        holds_at z x w p = subst Y (sym p) z

    -- A task that does all of its work or none leaves either behind a rejection, which may also be that
    -- of the closing.
    pub with_sub_level_lem :
        (thunk : Exec db.Error db.World A)
        → Triple (At c) thunk (λ r w. R r × At c' w) (λ _. At c)
        → Triple (At c) (with_sub_level db d l thunk) (λ r w. R r × At c' w) (λ _. Either c c')
    unfolding with_sub_level
    with_sub_level_lem thunk h =
        Triple-finally _ _
          (Triple-weaken_rejects _
            (Triple-bind _ _ (documented.opens c d)
              λ _. Triple-bind _ _ (documented.opens_sub c d l) λ _. h)
            (λ e w x. inl x))
          (λ a. Triple-weaken_rejects _ (Triple-fact _ (cleanup_keeps c')) (λ e w x. inr x))
          cleanup_keeps_Either

  module _ {V : Type 0} (json : Superjson db V) (is_undefined : V → Bool)
      (round_trip : (v : V) → json.parse (json.stringify v) ≡ ok v) where
    decode_lem :
        (c : Contents) (o : Option V) (raw : Option Text)
        → raw ≡ Option.map json.stringify o
        → Triple (At c) (decode db json raw) (λ r w. (r ≡ o) × At c w) (λ _. At c)
    unfolding decode
    decode_lem c none raw e = rw e (Triple-pure none (λ w p. (refl, p)))
    decode_lem c (some v) raw e =
        rw (e, round_trip v)
          (Triple-bind (lift (ok v)) _
            (Triple-lift {Q = λ u w. (u ≡ v) × At c w} (ok v) (λ u w q p. (cc, p)) (λ x w q p. p))
            (λ u. Triple-pure (some u) (λ w p. (ap some p.0, p.1))))

    pub sub_level_maybe_get_lem :
        (c : Contents) (d l : Text) (f : Text → Option V) (k : Text)
        → Holds json.stringify c d l f
        → Triple
            (At c)
            (sub_level_maybe_get db json is_undefined d l k)
            (λ r w. (r ≡ or_null is_undefined (f k)) × At c w)
            (λ _. At c)
    unfolding sub_level_maybe_get
    sub_level_maybe_get_lem c d l f k h =
        Triple-weaken_rejects _
          (with_sub_level_lem c c (λ r. r ≡ or_null is_undefined (f k)) d l _
            (Triple-bind _ _ (documented.gets c d l k) λ raw. Triple-assume _ λ e.
              Triple-bind _ _ (decode_lem c (f k) raw (e ∙ h k)) λ v.
                Triple-pure (or_null is_undefined v) (λ w p. (ap (or_null is_undefined) p.0, p.1))))
          (λ e w x. elim x [ inl y ↦ y | inr y ↦ y ])
