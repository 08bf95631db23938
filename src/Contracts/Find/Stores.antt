-- ===== src/Contracts/Find/Stores.antt =====
-- What finding a contract leaves in the private stores.
use midnight_js.Prelude.{
  ◌≡◌, refl, ◌⊎◌, inl, inr, ap, sym, ◌∙◌, subst, false, Option, none, some, [], ◌∷◌, Text, text_eq,
  text_eq_refl, update,
}
use midnight_js.Prelude.Exec.{pure, ◌>>=◌, ◌>>◌}
use midnight_js.Prelude.Exec.Triples.{
  Triple, Triple-bind, Triple-weaken_rejects, Triple-frame, Triple-pure, Triple-throw, Triple-gets,
  Triple-assert_defined,
}
use midnight_js.Contracts.Runtime.{Runtime}
use midnight_js.Contracts.World.{
  Local, World, M, Providers, Error, set_signing_key, outside_call, get_signing_key,
  get_private_state,
}
use midnight_js.Contracts.World.Frames.{outside_call-KeepsLocal}
use midnight_js.Contracts.World.Writes.{
  HasLocal, HasStates, with_signing_key, set_private_state_triple, set_signing_key_triple,
}
use midnight_js.Contracts.Find.{
  keep_or_sample, set_or_get_initial_signing_key, set_or_get_initial_private_state,
}

-- The signing key of the contract is `key`, and beside it nothing has changed.
pub record HoldsKey {rt : Runtime} (l : Local rt) (address key : Text) (l' : Local rt)
    : Type 0 where
  pub held : l'.signing_keys address ≡ some key
  pub others :
      (other : Text) → text_eq address other ≡ false → l'.signing_keys other ≡ l.signing_keys other
  pub states : l'.private_states ≡ l.private_states

module _ {rt : Runtime} where
  HoldsKey-with_signing_key :
      (l : Local rt) (address key : Text) → HoldsKey l address key (with_signing_key l address key)
  HoldsKey-with_signing_key l address key = record {
    held = rw (text_eq_refl address);
    others = λ other e. rw e;
    states = refl;
  }

-- The private state that is reported, by what the caller gave.
abbrev pub Reported :
    {rt : Runtime} → Local rt → Option Text → Option rt.PrivateState → rt.PrivateState → Type 0
Reported l (some id) (some state) reported = reported ≡ state
Reported l (some id) none reported = l.private_states id ≡ some reported
Reported l none (some state) reported = ⊥
Reported {rt} l none none reported = reported ≡ rt.undefined_state

-- The private states after a find: a given state is stored under a given identifier.
abbrev pub states_after :
    {rt : Runtime} → Local rt → Option Text → Option rt.PrivateState → Text → Option rt.PrivateState
states_after l (some id) (some state) = update l.private_states id state
states_after l (some id) none = l.private_states
states_after l none state = l.private_states

module _ (rt : Runtime) where
  pub Triple-start :
      {A : Type 0} {F : Local rt → Type 0} {Q : A → World rt → Type 0}
      {X : Error rt → World rt → Type 0} (m : M rt A)
      → ((l : Local rt) → F l → Triple (HasLocal l) m Q X)
      → Triple (λ w. F w.local) m Q X
  Triple-start m h = record { at = λ w p. (h w.local p).at w refl }

module _ (rt : Runtime) (p : Providers rt) (l : Local rt) (address : Text) where
  get_signing_key_triple :
      Triple
        (HasLocal l)
        (get_signing_key rt p address)
        (λ found w. (l.signing_keys address ≡ found) × HasLocal l w)
        (λ _. HasLocal l)
  unfolding get_signing_key
  get_signing_key_triple =
      Triple-bind _ _ (Triple-frame l _ (outside_call-KeepsLocal rt p.private_state_io))
        λ _. Triple-gets _ λ w h. (ap (λ k. k.signing_keys address) (sym h), h)

  kept : (w : World rt) → HasLocal l w → HasStates l w
  kept w h = ap (λ k. k.private_states) h

  write_key_triple :
      (key : Text)
      → Triple
          (HasLocal l)
          (set_signing_key rt p address key >> pure key)
          (λ k w. HoldsKey l address k w.local)
          (λ _. HasStates l)
  write_key_triple key =
      Triple-bind _ _
        (Triple-weaken_rejects _ (set_signing_key_triple rt p l address key)
          λ e w. elim [ inl h ↦ kept w h | inr h ↦ ap (λ k. k.private_states) h ])
        λ _.
          Triple-pure _
            λ w h. subst (HoldsKey l address key) (sym h) (HoldsKey-with_signing_key l address key)

  sample_triple :
      Triple
        (HasLocal l)
        (outside_call rt rt.sample_signing_key >>= λ fresh.
          set_signing_key rt p address fresh >> pure fresh)
        (λ k w. HoldsKey l address k w.local)
        (λ _. HasStates l)
  sample_triple =
      Triple-bind _ _
        (Triple-weaken_rejects _
          (Triple-frame l _ (outside_call-KeepsLocal rt rt.sample_signing_key)) λ e. kept)
        write_key_triple

  keep_or_sample_triple :
      (found : Option Text)
      → l.signing_keys address ≡ found
      → Triple
          (HasLocal l)
          (keep_or_sample rt p address found)
          (λ k w. HoldsKey l address k w.local)
          (λ _. HasStates l)
  unfolding keep_or_sample
  keep_or_sample_triple (some (c ∷ key)) e = Triple-pure _ λ w h.
      subst (HoldsKey l address (c ∷ key)) (sym h)
        (record { held = e; others = λ other n. refl; states = refl })
  keep_or_sample_triple none e = sample_triple
  keep_or_sample_triple (some []) e = sample_triple

  get_or_sample_triple :
      Triple
        (HasLocal l)
        (get_signing_key rt p address >>= keep_or_sample rt p address)
        (λ k w. HoldsKey l address k w.local)
        (λ _. HasStates l)
  get_or_sample_triple =
      Triple-bind _ _ (Triple-weaken_rejects _ get_signing_key_triple λ e. kept)
        λ found. record { at = λ w h. (keep_or_sample_triple found h.0).at w h.1 }

  pub set_or_get_initial_signing_key_triple :
      (given : Option Text)
      → Triple
          (HasLocal l)
          (set_or_get_initial_signing_key rt p address given)
          (λ k w. HoldsKey l address k w.local)
          (λ _. HasStates l)
  unfolding set_or_get_initial_signing_key
  set_or_get_initial_signing_key_triple (some (c ∷ key)) = write_key_triple (c ∷ key)
  set_or_get_initial_signing_key_triple none = get_or_sample_triple
  set_or_get_initial_signing_key_triple (some []) = get_or_sample_triple

-- The local state after the private state has been set or read.
pub record StateDone {rt : Runtime} (l : Local rt) (id : Option Text)
    (given : Option rt.PrivateState) (state : rt.PrivateState) (l' : Local rt) : Type 0 where
  pub keys : l'.signing_keys ≡ l.signing_keys
  pub states : l'.private_states ≡ states_after l id given
  pub reported : Reported l id given state

module _ (rt : Runtime) (p : Providers rt) (l : Local rt) where
  pub set_or_get_initial_private_state_triple :
      (id : Option Text) (given : Option rt.PrivateState)
      → Triple
          (HasLocal l)
          (set_or_get_initial_private_state rt p id given)
          (λ reported w. StateDone l id given reported w.local)
          (λ _ w. HasLocal l w ⊎ (w.local.private_states ≡ states_after l id given))
  unfolding set_or_get_initial_private_state get_private_state
  set_or_get_initial_private_state_triple (some id) (some state) =
      Triple-bind _ _
        (Triple-weaken_rejects _ (set_private_state_triple rt p l id state)
          λ e w. elim [ inl h ↦ inl h | inr h ↦ inr (ap (λ k. k.private_states) h) ])
        λ _. Triple-pure _ λ w h.
          subst (StateDone l (some id) (some state) state) (sym h)
            (record { keys = refl; states = refl; reported = refl })
  set_or_get_initial_private_state_triple (some id) none =
      Triple-bind {R = λ found w. (l.private_states id ≡ found) × HasLocal l w} _ _
        (Triple-bind _ _
          (Triple-weaken_rejects _
            (Triple-frame l _ (outside_call-KeepsLocal rt p.private_state_io)) λ e w. inl)
          λ _. Triple-gets _ λ w h. (ap (λ k. k.private_states id) (sym h), h))
        λ found.
          Triple-assert_defined rt.truthy_state _ found
            (λ state w e t h.
              subst (StateDone l (some id) none state) (sym h.1)
                (record { keys = refl; states = refl; reported = h.0 ∙ e }))
            (λ w h. inl h.1)
  set_or_get_initial_private_state_triple none (some state) = Triple-throw _ λ w h. inl h
  set_or_get_initial_private_state_triple none none = Triple-pure _ λ w h.
      subst (StateDone l none none rt.undefined_state) (sym h)
        (record { keys = refl; states = refl; reported = refl })
