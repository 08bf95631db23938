-- ===== src/PrivateState/Stores.antt =====
-- The two maps that the interface of a private state provider promises.
use midnight_js.Prelude.{Bool, Option, none, if◌then◌else◌, Text, text_eq, update}
use midnight_js.PrivateState.{
  Request, Response, set, get, remove, clear, set_signing_key, get_signing_key, remove_signing_key,
  clear_signing_keys, done, state, signing_key, or_null,
}

-- The abstract provider: two partial functions.
pub record Stores (S : Type 0) : Type 0 where
  pub state_at : Text → Option S
  pub key_at : Text → Option Text

abbrev pub without : {V : Type 0} → (Text → Option V) → Text → Text → Option V
without f k j = if text_eq k j then none else f j

module _ {S : Type 0} (nullish : S → Bool) where
  unfoldable pub abstract_step : Request S → Stores S → Response S × Stores S
  abstract_step (set key s) a = (done, record a { state_at = update a.state_at key s })
  abstract_step (get key) a = (state (or_null nullish (a.state_at key)), a)
  abstract_step (remove key) a = (done, record a { state_at = without a.state_at key })
  abstract_step clear a = (done, record a { state_at = λ _. none })
  abstract_step (set_signing_key address key) a =
      (done, record a { key_at = update a.key_at address key })
  abstract_step (get_signing_key address) a = (signing_key (a.key_at address), a)
  abstract_step (remove_signing_key address) a =
      (done, record a { key_at = without a.key_at address })
  abstract_step clear_signing_keys a = (done, record a { key_at = λ _. none })
