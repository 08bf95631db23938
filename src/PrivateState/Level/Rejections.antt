-- ===== src/PrivateState/Level/Rejections.antt =====
-- What a request to the provider over Level answers and leaves, whether it resolves or rejects, against
-- the two maps of the interface.
use midnight_js.Prelude.{
  ◌≡◌, refl, sym, ap, ◌∙◌, subst, ◌⊎◌, inl, inr, Bool, false, Option, none, some, Text, text_eq,
  text_eq_iff, ok, arith,
}
use midnight_js.Prelude.Exec.{Exec, pure, ◌>>=◌}
use midnight_js.Prelude.Exec.Triples.{
  Triple, Post, Triple-bind, Triple-pure, Triple-weaken, Triple-weaken_rejects,
}
use midnight_js.PrivateState.{
  Request, Response, set, get, remove, clear, set_signing_key, get_signing_key, remove_signing_key,
  clear_signing_keys, done, state, signing_key, or_null,
}
use midnight_js.PrivateState.Stores.{Stores, abstract_step}
use midnight_js.PrivateState.Level.Database.{
  Level, Superjson, Contents, written, emptied, PartlyEmptied, Documented,
}
use midnight_js.PrivateState.Level.{Config, with_sub_level, defined_key, level_provider}
use midnight_js.PrivateState.Level.Outcomes.{Stands, HoldsSome, Left}
use midnight_js.PrivateState.Level.Sublevels.{
  At, Holds, with_sub_level_lem, with_sub_level_partly, sub_level_maybe_get_lem, Holds-written,
  Holds-deleted, Holds-emptied, Holds-written_other, Holds-emptied_other,
}

or_null-defined_key : (o : Option Text) → or_null defined_key o ≡ o
unfolding or_null
or_null-defined_key none = refl
or_null-defined_key (some key) = refl

module _ (db : Level) (contents : db.World → Contents) {S : Type 0} (states : Superjson db S)
    (is_undefined : S → Bool) (keys : Superjson db Text) (config : Config)
    (documented : Documented db contents)
    (states_round_trip : (s : S) → states.parse (states.stringify s) ≡ ok s)
    (keys_round_trip : (k : Text) → keys.parse (keys.stringify k) ≡ ok k)
    (distinct : text_eq config.private_state_store_name config.signing_key_store_name ≡ false) where
  abbrev D : Text
  D = config.midnight_db_name

  abbrev PS : Text
  PS = config.private_state_store_name

  abbrev SK : Text
  SK = config.signing_key_store_name

  -- What a request that asks for `a'` and `response` ensures.
  abbrev Answers :
      Contents → Exec db.Error db.World (Response S) → Stores S → Response S × Stores S → Type 0
  Answers c m a next =
      Triple (At db contents documented c) m
        (λ r w.
          (r ≡ next.0) × Stands db contents states is_undefined keys config (contents w) next.1)
        (λ _ w.
          Stands db contents states is_undefined keys config (contents w) a
          ⊎ Stands db contents states is_undefined keys config (contents w) next.1)

  Stands-at :
      (a : Stores S) (c : Contents) (w : db.World)
      → contents w ≡ c
      → Stands db contents states is_undefined keys config c a
      → Stands db contents states is_undefined keys config (contents w) a
  Stands-at a c w e h =
      subst (λ b. Stands db contents states is_undefined keys config b a) (sym e) h

  distinct' : text_eq SK PS ≡ false
  distinct' = ground (arith, text_eq_iff SK PS, text_eq_iff PS SK)

  write_lem :
      (c c' : Contents) (l : Text) (m : Exec db.Error db.World (Unit {0})) (a a' : Stores S)
      → Stands db contents states is_undefined keys config c a
      → Stands db contents states is_undefined keys config c' a'
      → Triple
          (At db contents documented c)
          m
          (λ _. At db contents documented c')
          (λ _. At db contents documented c)
      → Answers c (with_sub_level db D l m >>= λ _. pure done) a (done, a')
  write_lem c c' l m a a' h h' t =
      Triple-bind _ _
        (Triple-weaken_rejects _
          (with_sub_level_lem db contents documented c c' (λ (u : Unit {0}). Unit) D l m
            (Triple-weaken m (λ w p. p) t (λ u w q. (tt, q))))
          (λ e w x. elim x [
            | inl y ↦ inl (Stands-at a c w y h)
            | inr y ↦ inr (Stands-at a' c' w y h')
          ]))
        (λ u. Triple-pure done (λ w p. (refl, Stands-at a' c' w p.1 h')))

  read_lem :
      {A : Type 0} (c : Contents) (a : Stores S) (m : Exec db.Error db.World A) (v : A)
      (f : A → Response S)
      → Stands db contents states is_undefined keys config c a
      → Triple
          (At db contents documented c)
          m
          (λ r w. (r ≡ v) × At db contents documented c w)
          (λ _. At db contents documented c)
      → Answers c (m >>= λ r. pure (f r)) a (f v, a)
  read_lem c a m v f h t =
      Triple-bind _ _ (Triple-weaken_rejects m t (λ e w x. inl (Stands-at a c w x h)))
        (λ r. Triple-pure (f r) (λ w p. (ap f p.0, Stands-at a c w p.1 h)))

  Holds-partly :
      {V : Type 0} (encode : V → Text) (c c' : Contents) (l : Text) (f : Text → Option V)
      → Holds encode c D l f
      → PartlyEmptied c D l c'
      → HoldsSome db contents states is_undefined keys config encode c' l f
  Holds-partly encode c c' l f h p k = elim (p.within k) [ inl e ↦ inl (e ∙ h k) | inr e ↦ inr e ]

  Holds-partly_other :
      {V : Type 0} (encode : V → Text) (c c' : Contents) (l l' : Text) (f : Text → Option V)
      → text_eq l l' ≡ false
      → Holds encode c D l' f
      → PartlyEmptied c D l c'
      → Holds encode c' D l' f
  Holds-partly_other encode c c' l l' f apart h p k = p.outside D l' k (ground arith) ∙ h k

  -- A clear, which may reject half way.
  clear_lem :
      (Y : Contents → Type 0) (c c' : Contents) (l : Text) (m : Exec db.Error db.World (Unit {0}))
      (a' : Stores S)
      → Y c
      → Y c'
      → ((b : Contents) → PartlyEmptied c D l b → Y b)
      → Stands db contents states is_undefined keys config c' a'
      → Triple
          (At db contents documented c)
          m
          (λ _. At db contents documented c')
          (λ _ w. PartlyEmptied c D l (contents w))
      → Triple {A = Response S}
          (At db contents documented c)
          (with_sub_level db D l m >>= λ _. pure done)
          (λ r w. (r ≡ done) × Stands db contents states is_undefined keys config (contents w) a')
          (λ _ w. Y (contents w))
  clear_lem Y c c' l m a' y y' part h' t =
      Triple-bind _ _
        (with_sub_level_partly db contents documented c c' (λ (u : Unit {0}). Unit) D l Y m y y'
          (Triple-weaken_rejects _ (Triple-weaken m (λ w p. p) t (λ u w q. (tt, q)))
            (λ e w. part (contents w))))
        (λ u. Triple-pure done (λ w p. (refl, Stands-at a' c' w p.1 h')))

  request_lem :
      (r : Request S) (c : Contents) (a : Stores S)
      → Stands db contents states is_undefined keys config c a
      → Triple
          (At db contents documented c)
          (level_provider db states is_undefined keys config r)
          (λ response w.
            (response ≡ (abstract_step is_undefined r a).0)
            × Stands db contents states is_undefined keys config
                (contents w)
                (abstract_step is_undefined r a).1)
          (λ _ w. Left db contents states is_undefined keys config r a (contents w))
  unfolding level_provider abstract_step
  request_lem (set k s) c a h =
      write_lem c (written c D PS k (some (states.stringify s))) PS _ a _ h
        (
          Holds-written states.stringify c D PS a.state_at k s h.0,
          Holds-written_other keys.stringify c D PS SK a.key_at distinct h.1 k _,
        )
        (documented.puts c D PS k (states.stringify s))
  request_lem (get k) c a h = read_lem c a _ (or_null is_undefined (a.state_at k)) state h (
      sub_level_maybe_get_lem db contents documented states is_undefined states_round_trip c D PS
        a.state_at k h.0)
  request_lem (remove k) c a h =
      write_lem c (written c D PS k none) PS _ a _ h
        (
          Holds-deleted states.stringify c D PS a.state_at k h.0,
          Holds-written_other keys.stringify c D PS SK a.key_at distinct h.1 k none,
        )
        (documented.deletes c D PS k)
  request_lem clear c a h =
      clear_lem (Left db contents states is_undefined keys config clear a) c (emptied c D PS) PS _
        (record a { state_at = λ _. none }) (λ k. inl (h.0 k), h.1)
        (
          λ k. inr (Holds-emptied states.stringify c D PS k),
          Holds-emptied_other keys.stringify c D PS SK a.key_at distinct h.1,
        )
        (λ b p. (
          Holds-partly states.stringify c b PS a.state_at h.0 p,
          Holds-partly_other keys.stringify c b PS SK a.key_at distinct h.1 p,
        ))
        (
          Holds-emptied states.stringify c D PS,
          Holds-emptied_other keys.stringify c D PS SK a.key_at distinct h.1,
        )
        (documented.clears c D PS)
  request_lem (set_signing_key k v) c a h =
      write_lem c (written c D SK k (some (keys.stringify v))) SK _ a _ h
        (
          Holds-written_other states.stringify c D SK PS a.state_at distinct' h.0 k _,
          Holds-written keys.stringify c D SK a.key_at k v h.1,
        )
        (documented.puts c D SK k (keys.stringify v))
  request_lem (get_signing_key k) c a h = read_lem c a _ (a.key_at k) signing_key h (
      Triple-weaken _ (λ w p. p)
        (sub_level_maybe_get_lem db contents documented keys defined_key keys_round_trip c D SK
          a.key_at k h.1)
        (λ r w q. (q.0 ∙ or_null-defined_key (a.key_at k), q.1)))
  request_lem (remove_signing_key k) c a h =
      write_lem c (written c D SK k none) SK _ a _ h
        (
          Holds-written_other states.stringify c D SK PS a.state_at distinct' h.0 k none,
          Holds-deleted keys.stringify c D SK a.key_at k h.1,
        )
        (documented.deletes c D SK k)
  request_lem clear_signing_keys c a h =
      clear_lem (Left db contents states is_undefined keys config clear_signing_keys a) c
        (emptied c D SK) SK _ (record a { key_at = λ _. none }) (h.0, λ k. inl (h.1 k))
        (
          Holds-emptied_other states.stringify c D SK PS a.state_at distinct' h.0,
          λ k. inr (Holds-emptied keys.stringify c D SK k),
        )
        (λ b p. (
          Holds-partly_other states.stringify c b SK PS a.state_at distinct' h.0 p,
          Holds-partly keys.stringify c b SK a.key_at h.1 p,
        ))
        (
          Holds-emptied_other states.stringify c D SK PS a.state_at distinct' h.0,
          Holds-emptied keys.stringify c D SK,
        )
        (documented.clears c D SK)

  -- Over a Level as documented and a superjson that reads back what it writes, with different names
  -- for the two sublevels, and from sublevels that hold the two maps of the interface: a request
  -- that resolves has answered as the maps do, and the sublevels hold what the maps then are. One
  -- that rejects has done all of its work, as when the closing fails, or none of it; a clear that
  -- rejects may also have removed some of its sublevel's entries, and leaves the other one alone.
  pub level_provider_refines :
      (r : Request S) (a : Stores S) (w : db.World)
      → Stands db contents states is_undefined keys config (contents w) a
      → Post
          (λ response w'.
            (response ≡ (abstract_step is_undefined r a).0)
            × Stands db contents states is_undefined keys config
                (contents w')
                (abstract_step is_undefined r a).1)
          (λ _ w'. Left db contents states is_undefined keys config r a (contents w'))
          (level_provider db states is_undefined keys config r w).0
          (level_provider db states is_undefined keys config r w).1
  level_provider_refines r a w h = (request_lem r (contents w) a h).at w refl
