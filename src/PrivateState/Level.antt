-- ===== src/PrivateState/Level.antt =====
-- packages/level-private-state-provider/src/level-private-state-provider.ts: the private state provider
-- over a Level database. The database and superjson are arguments.
pub mod Database
pub mod Sublevels
pub mod Outcomes
pub mod Rejections
use midnight_js.Prelude.{
  Bool, true, false, Option, none, some, List, [], ◌∷◌, Text, codes, Result, ok, err,
}
use midnight_js.Prelude.Exec.{Exec, pure, lift, ◌>>=◌, ◌>>◌}
use midnight_js.PrivateState.{
  Request, Response, set, get, remove, clear, set_signing_key, get_signing_key, remove_signing_key,
  clear_signing_keys, done, state, signing_key, or_null,
}
use Database.{Level, Superjson, finally_do}

-- LevelPrivateStateProviderConfig
pub record Config : Type 0 where
  pub midnight_db_name : Text
  pub private_state_store_name : Text
  pub signing_key_store_name : Text

pub record PartialConfig : Type 0 where
  pub midnight_db_name : Option Text
  pub private_state_store_name : Option Text
  pub signing_key_store_name : Option Text

abbrev given_or : Option Text → Text → Text
given_or none name = name
given_or (some name) default_name = name

abbrev pub default_config : Config
default_config = record {
  midnight_db_name = codes "midnight-level-db";
  private_state_store_name = codes "private-states";
  signing_key_store_name = codes "signing-keys";
}

-- `_.defaults(partialConfig, DEFAULT_CONFIG)`
unfoldable pub with_defaults : PartialConfig → Config
with_defaults partial = record {
  midnight_db_name = given_or partial.midnight_db_name default_config.midnight_db_name;
  private_state_store_name =
      given_or partial.private_state_store_name default_config.private_state_store_name;
  signing_key_store_name =
      given_or partial.signing_key_store_name default_config.signing_key_store_name;
}

module _ (db : Level) where
  unfoldable pub with_sub_level :
      {A : Type 0} → Text → Text → Exec db.Error db.World A → Exec db.Error db.World A
  with_sub_level db_name level_name thunk =
      finally_do (do db.open_level db_name; db.open_sub_level db_name level_name; thunk)
        (do db.close_sub_level db_name level_name; db.close_level db_name)

module _ (db : Level) {V : Type 0} (json : Superjson db V) where
  -- The value that the sublevel's encoding decodes, `undefined` where there is none.
  unfoldable pub decode : Option Text → Exec db.Error db.World (Option V)
  decode none = pure none
  decode (some s) = lift (json.parse s) >>= λ v. pure (some v)

  unfoldable pub sub_level_maybe_get :
      (is_undefined : V → Bool) → Text → Text → Text → Exec db.Error db.World (Option V)
  unfolding decode or_null
  sub_level_maybe_get is_undefined db_name level_name key = with_sub_level db db_name level_name (do
    raw ← db.get db_name level_name key
    value ← decode raw
    pure (or_null is_undefined value))

-- No signing key is `undefined`.
abbrev pub defined_key : Text → Bool
defined_key key = false

module _ (db : Level) {S : Type 0} (states : Superjson db S) (is_undefined : S → Bool)
    (keys : Superjson db Text) (config : Config) where
  unfoldable pub level_provider : Request S → Exec db.Error db.World (Response S)
  unfolding sub_level_maybe_get with_sub_level
  level_provider (set key s) = do
    with_sub_level db config.midnight_db_name config.private_state_store_name
        (db.put config.midnight_db_name config.private_state_store_name key (states.stringify s))
    pure done
  level_provider (get key) = do
    value ←
        sub_level_maybe_get db states is_undefined config.midnight_db_name
          config.private_state_store_name key
    pure (state value)
  level_provider (remove key) = do
    with_sub_level db config.midnight_db_name config.private_state_store_name
        (db.del config.midnight_db_name config.private_state_store_name key)
    pure done
  level_provider clear = do
    with_sub_level db config.midnight_db_name config.private_state_store_name
        (db.clear config.midnight_db_name config.private_state_store_name)
    pure done
  level_provider (set_signing_key address key) = do
    with_sub_level db config.midnight_db_name config.signing_key_store_name
        (db.put config.midnight_db_name config.signing_key_store_name address (keys.stringify key))
    pure done
  level_provider (get_signing_key address) = do
    value ←
        sub_level_maybe_get db keys defined_key config.midnight_db_name
          config.signing_key_store_name address
    pure (signing_key value)
  level_provider (remove_signing_key address) = do
    with_sub_level db config.midnight_db_name config.signing_key_store_name
        (db.del config.midnight_db_name config.signing_key_store_name address)
    pure done
  level_provider clear_signing_keys = do
    with_sub_level db config.midnight_db_name config.signing_key_store_name
        (db.clear config.midnight_db_name config.signing_key_store_name)
    pure done
