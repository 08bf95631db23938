-- ===== src/Contracts/States/Frames.antt =====
-- Fetching the states of a contract: what is left of the private states and signing keys.
use midnight_js.Prelude.{Text}
use midnight_js.Contracts.Runtime.{Runtime}
use midnight_js.Contracts.World.{Providers}
use midnight_js.Contracts.World.Frames.{KeepsLocal, local_rules}
use midnight_js.Contracts.States.{get_public_states, get_states}

module _ (rt : Runtime) (p : Providers rt) where
  pub get_public_states-KeepsLocal :
      (address : Text) → KeepsLocal {rt = rt} (get_public_states rt p address)
  unfolding get_public_states
  get_public_states-KeepsLocal address = search local_rules depth 8

  pub get_states-KeepsLocal :
      (address id : Text) → KeepsLocal {rt = rt} (get_states rt p address id)
  unfolding get_states
  get_states-KeepsLocal address id = search (local_rules, get_public_states-KeepsLocal) depth 8
