-- ===== src/Contracts/States.antt =====
-- packages/contracts/src/get-states.ts: fetching the states of a contract.
pub mod Frames
use midnight_js.Prelude.{
  ℕ, Bool, true, false, not, ◌&&◌, Option, none, some, List, [], ◌∷◌, if◌then◌else◌, Text, map_get,
}
use midnight_js.Prelude.Exec.{pure, throw, throw_when, assert_defined, ◌>>=◌, ◌>>◌}
use midnight_js.Contracts.Runtime.{Runtime, CoinInfo, Contract}
use midnight_js.Contracts.World.{
  M, Providers, FinalizedTxData, ZkConfig, is_success, call_tx, tx_failed, circuit_undefined,
  no_public_state, no_private_state, incomplete_call_tx_private_state_config, outside_call,
  check_address, get_zswap_network_id, parse_coin_public_key_to_hex, get_private_state,
  set_private_state, get_zk_config,
}

pub record PublicContractStates (rt : Runtime) : Type 0 where
  pub zswap_chain_state : rt.ZswapChainState
  pub contract_state : rt.ContractState

-- `private_state` is there where the caller asked for it.
pub record ContractStates (rt : Runtime) : Type 0 where
  pub public_states : PublicContractStates rt
  pub private_state : Option rt.PrivateState

module _ (rt : Runtime) (p : Providers rt) where
  unfoldable pub get_public_states : Text → M rt (PublicContractStates rt)
  get_public_states address = do
    check_address rt address
    found ← outside_call rt (p.query_zswap_and_contract_state address)
    states ← assert_defined (λ _. true) (no_public_state address) found
    pure (record { zswap_chain_state = states.0; contract_state = states.1 })

  unfoldable pub get_states : Text → Text → M rt (ContractStates rt)
  get_states address id = do
    public_states ← get_public_states address
    found ← get_private_state rt p id
    state ← assert_defined rt.truthy_state (no_private_state id) found
    pure (record { public_states = public_states; private_state = some state })
