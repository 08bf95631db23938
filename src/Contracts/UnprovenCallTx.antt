-- ===== src/Contracts/UnprovenCallTx.antt =====
-- packages/contracts/src/unproven-call-tx.ts: from a circuit's name to an unproven call transaction.
pub mod Frames
use midnight_js.Prelude.{
  ℕ, Bool, true, false, not, ◌&&◌, Option, none, some, List, [], ◌∷◌, if◌then◌else◌, Text, map_get,
}
use midnight_js.Prelude.Exec.{pure, throw, throw_when, assert_defined, ◌>>=◌, ◌>>◌}
use midnight_js.Contracts.Runtime.{Runtime, CoinInfo, Contract, circuit_of}
use midnight_js.Contracts.World.{
  M, Providers, FinalizedTxData, ZkConfig, is_success, call_tx, tx_failed, circuit_undefined,
  no_public_state, no_private_state, incomplete_call_tx_private_state_config, outside_call,
  check_address, get_zswap_network_id, parse_coin_public_key_to_hex, get_private_state,
  set_private_state, get_zk_config,
}
use midnight_js.Contracts.Zswap.{encryption_public_key_for_zswap_state, zswap_state_to_new_coins}
use midnight_js.Contracts.LedgerTx.{create_unproven_ledger_call_tx}
use midnight_js.Contracts.Call.{CallOptions, CallResult, call}
use midnight_js.Contracts.States.{ContractStates, get_public_states, get_states}

pub record CallTxOptions (rt : Runtime) : Type 0 where
  pub contract : Contract rt
  pub circuit_id : Text
  pub contract_address : Text
  pub args : Option rt.Args
  pub private_state_id : Option Text

pub record UnsubmittedCallTxData (rt : Runtime) : Type 0 where
  pub call_result : CallResult rt
  pub unproven_tx : rt.UnprovenTransaction
  pub new_coins : List CoinInfo

abbrev pub is_defined : {A : Type 0} → Option A → Bool
is_defined none = false
is_defined (some a) = true

module _ (rt : Runtime) where
  -- `initialPrivateState ? {…} : …`: a falsy state is left out.
  keep_truthy : Option rt.PrivateState → Option rt.PrivateState
  keep_truthy none = none
  keep_truthy (some state) = if rt.truthy_state state then some state else none

module _ (rt : Runtime) where
  -- `impureCircuits[circuitId]`: a property that objects inherit is there too.
  unfoldable pub assert_circuit : Contract rt → Text → M rt (Unit {0})
  assert_circuit contract id = do
    assert_defined (λ _. true) (circuit_undefined id) (circuit_of contract id)
    pure tt

  unfoldable pub create_unproven_call_tx_from_initial_states :
      CallOptions rt → Text → Text → M rt (UnsubmittedCallTxData rt)
  create_unproven_call_tx_from_initial_states options wallet_coin_key wallet_encryption_key = do
    check_address rt options.contract_address
    assert_circuit options.contract options.circuit_id
    result ← call rt options
    encryption_key ←
        encryption_public_key_for_zswap_state rt result.private_part.next_zswap_local_state
          wallet_coin_key wallet_encryption_key
    tx ←
        create_unproven_ledger_call_tx rt options.circuit_id options.contract_address
          options.initial_contract_state options.initial_zswap_chain_state
          result.public_part.partitioned_transcript result.private_part.private_transcript_outputs
          result.private_part.input result.private_part.output
          result.private_part.next_zswap_local_state encryption_key
    id ← get_zswap_network_id rt
    coin_key ← parse_coin_public_key_to_hex rt options.coin_public_key id
    pure (record {
      call_result = result;
      unproven_tx = tx;
      new_coins = zswap_state_to_new_coins coin_key result.private_part.next_zswap_local_state;
    })

  unfoldable pub create_call_options :
      CallTxOptions rt
      → Text
      → rt.ContractState
      → rt.ZswapChainState
      → Option rt.PrivateState
      → M rt (CallOptions rt)
  unfolding keep_truthy
  create_call_options options coin_key contract_state chain_state private_state = do
    id ← get_zswap_network_id rt
    parsed_key ← parse_coin_public_key_to_hex rt coin_key id
    pure (record {
      contract = options.contract;
      circuit_id = options.circuit_id;
      contract_address = options.contract_address;
      args = options.args;
      coin_public_key = parsed_key;
      initial_contract_state = contract_state;
      initial_zswap_chain_state = chain_state;
      initial_private_state = keep_truthy rt private_state;
    })

module _ (rt : Runtime) (p : Providers rt) where
  get_states_without_private : Text → M rt (ContractStates rt)
  get_states_without_private address = do
    public_states ← get_public_states rt p address
    pure (record { public_states = public_states; private_state = none })

  -- the two branches of `createUnprovenCallTx`
  fetch_states : Text → Option Text → M rt (ContractStates rt)
  fetch_states address none = get_states_without_private address
  fetch_states address (some id) =
      if p.has_private_state_provider
      then get_states rt p address id
      else get_states_without_private address

  unfoldable pub create_unproven_call_tx : CallTxOptions rt → M rt (UnsubmittedCallTxData rt)
  unfolding fetch_states get_states_without_private
  create_unproven_call_tx options = do
    check_address rt options.contract_address
    assert_circuit rt options.contract options.circuit_id
    throw_when (is_defined options.private_state_id && not p.has_private_state_provider)
        incomplete_call_tx_private_state_config
    states ← fetch_states options.contract_address options.private_state_id
    id ← get_zswap_network_id rt
    coin_key ← parse_coin_public_key_to_hex rt p.coin_public_key id
    call_options ←
        create_call_options rt options coin_key states.public_states.contract_state
          states.public_states.zswap_chain_state states.private_state
    create_unproven_call_tx_from_initial_states rt call_options p.coin_public_key
        p.encryption_public_key
