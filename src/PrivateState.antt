-- ===== src/PrivateState.antt =====
-- packages/types/src/private-state-provider.ts: the requests to a private state provider, and what
-- they are answered with.
pub mod Stores
pub mod Level
use midnight_js.Prelude.{
  Bool, Option, none, some, List, [], ◌∷◌, if◌then◌else◌, Text, Entries, map_get, map_set,
  map_delete, keys,
}

-- The methods of a private state provider, with their arguments.
pub data Request (S : Type 0) : Type 0 where
  set : Text → S → Request S
  get remove : Text → Request S
  clear : Request S
  set_signing_key : Text → Text → Request S
  get_signing_key remove_signing_key : Text → Request S
  clear_signing_keys : Request S

-- What the promise of a method resolves with.
pub data Response (S : Type 0) : Type 0 where
  done : Response S
  state : Option S → Response S
  signing_key : Option Text → Response S

module _ {S : Type 0} (nullish : S → Bool) where
  -- `?? null` on a private state
  unfoldable pub or_null : Option S → Option S
  or_null none = none
  or_null (some s) = if nullish s then none else some s
