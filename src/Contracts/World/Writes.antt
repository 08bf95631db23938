-- ===== src/Contracts/World/Writes.antt =====
-- What the two writes to the private stores do, when they resolve and when they reject.
use midnight_js.Prelude.{◌≡◌, ap, ◌⊎◌, inl, inr, Bool, true, false, Text, Result, ok, err, update}
use midnight_js.Prelude.Exec.Triples.{Post, Triple}
use midnight_js.Contracts.Runtime.{Runtime}
use midnight_js.Contracts.World.{
  Local, World, Providers, Error, external, map_err, local_of, after_write, write_store,
  set_private_state, set_signing_key,
}

abbrev pub with_private_state : {rt : Runtime} → Local rt → Text → rt.PrivateState → Local rt
with_private_state l id state = record l { private_states = update l.private_states id state }

abbrev pub with_signing_key : {rt : Runtime} → Local rt → Text → Text → Local rt
with_signing_key l address key = record l { signing_keys = update l.signing_keys address key }

-- The local state is `l`.
abbrev pub HasLocal : {rt : Runtime} → Local rt → World rt → Type 0
HasLocal l w = local_of w ≡ l

-- The private states are those of `l`.
abbrev pub HasStates : {rt : Runtime} → Local rt → World rt → Type 0
HasStates l w = w.local.private_states ≡ l.private_states

module _ (rt : Runtime) (p : Providers rt) (l : Local rt) where
  -- A write that rejects has been stored or not.
  write_store_triple :
      (change : Local rt → Local rt)
      → Triple
          (HasLocal l)
          (write_store rt p change)
          (λ _. HasLocal (change l))
          (λ _ w. HasLocal l w ⊎ HasLocal (change l) w)
  unfolding write_store
  write_store_triple change = record {
    at = λ w h.
        written (p.private_state_io w.ext).0 (p.private_state_io w.ext).1
          (p.stored_although_rejected w.ext) w h;
  }
    where
      written :
          (r : Result rt.ExtError (Unit {0})) (ext' : rt.Ext) (stored : Bool) (w : World rt)
          → HasLocal l w
          → Post {E = Error rt}
              (λ _. HasLocal (change l))
              (λ _ v. HasLocal l v ⊎ HasLocal (change l) v)
              (map_err {A = Unit {0}} external r)
              (record w { local = after_write rt p r stored w.local (change w.local); ext = ext' })
      written (ok a) ext' stored w h = ap change h
      written (err e) ext' true w h = inr (ap change h)
      written (err e) ext' false w h = inl h

  pub set_private_state_triple :
      (id : Text) (state : rt.PrivateState)
      → Triple
          (HasLocal l)
          (set_private_state rt p id state)
          (λ _. HasLocal (with_private_state l id state))
          (λ _ w. HasLocal l w ⊎ HasLocal (with_private_state l id state) w)
  unfolding set_private_state
  set_private_state_triple id state = write_store_triple λ k. with_private_state k id state

  pub set_signing_key_triple :
      (address key : Text)
      → Triple
          (HasLocal l)
          (set_signing_key rt p address key)
          (λ _. HasLocal (with_signing_key l address key))
          (λ _ w. HasLocal l w ⊎ HasLocal (with_signing_key l address key) w)
  unfolding set_signing_key
  set_signing_key_triple address key = write_store_triple λ k. with_signing_key k address key
