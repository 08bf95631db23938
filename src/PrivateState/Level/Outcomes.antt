-- ===== src/PrivateState/Level/Outcomes.antt =====
-- What the sublevels hold once a request to the provider over Level has resolved or rejected.
use midnight_js.Prelude.{◌≡◌, ◌⊎◌, Bool, Option, none, Text}
use mathlib.Core.Option
use midnight_js.PrivateState.{Request, clear, clear_signing_keys}
use midnight_js.PrivateState.Stores.{Stores, abstract_step}
use midnight_js.PrivateState.Level.Database.{Level, Superjson, Contents}
use midnight_js.PrivateState.Level.{Config}
use midnight_js.PrivateState.Level.Sublevels.{Holds}

module _ (db : Level) (contents : db.World → Contents) {S : Type 0} (states : Superjson db S)
    (is_undefined : S → Bool) (keys : Superjson db Text) (config : Config) where
  -- The two sublevels hold the encodings of the two maps.
  abbrev pub Stands : Contents → Stores S → Type 0
  Stands c a =
      Holds states.stringify c config.midnight_db_name config.private_state_store_name a.state_at
      × Holds keys.stringify c config.midnight_db_name config.signing_key_store_name a.key_at

  -- A sublevel holds some of the encodings of a map's values, and nothing else.
  abbrev pub HoldsSome : {V : Type 0} → (V → Text) → Contents → Text → (Text → Option V) → Type 0
  HoldsSome encode c l f =
      (k : Text)
      → (c config.midnight_db_name l k ≡ Option.map encode (f k))
        ⊎ (c config.midnight_db_name l k ≡ none)

  -- What a request that rejects leaves: all of its work done or none of it, or, of a clear, some of
  -- the entries removed, and the other sublevel as it was.
  abbrev pub Left : Request S → Stores S → Contents → Type 0
  Left clear a c =
      HoldsSome states.stringify c config.private_state_store_name a.state_at
      × Holds keys.stringify c config.midnight_db_name config.signing_key_store_name a.key_at
  Left clear_signing_keys a c =
      Holds states.stringify c config.midnight_db_name config.private_state_store_name a.state_at
      × HoldsSome keys.stringify c config.signing_key_store_name a.key_at
  Left r a c = Stands c a ⊎ Stands c (abstract_step is_undefined r a).1
