-- ===== src/Contracts/CallTx.antt =====
-- packages/contracts/src/submit-call-tx.ts: calling a circuit through a submitted transaction.
pub mod Atomicity
use midnight_js.Prelude.{
  ℕ, Bool, true, false, not, ◌&&◌, Option, none, some, List, [], ◌∷◌, if◌then◌else◌, Text, map_get,
}
use midnight_js.Prelude.Exec.{pure, throw, throw_when, assert_defined, ◌>>=◌, ◌>>◌}
use midnight_js.Contracts.Runtime.{Runtime, CoinInfo, Contract}
use midnight_js.Contracts.World.{
  M, Providers, FinalizedTxData, ZkConfig, is_success, call_tx, tx_failed, circuit_undefined,
  no_public_state, no_private_state, incomplete_call_tx_private_state_config, outside_call,
  check_address, get_zswap_network_id, parse_coin_public_key_to_hex, get_private_state,
  set_private_state, get_zk_config,
}
use midnight_js.Contracts.Submit.{SubmitTxOptions, submit_tx}
use midnight_js.Contracts.UnprovenCallTx.{
  CallTxOptions, UnsubmittedCallTxData, is_defined, assert_circuit, create_unproven_call_tx,
}

pub record FinalizedCallTxData (rt : Runtime) : Type 0 where
  pub unsubmitted : UnsubmittedCallTxData rt
  pub finalized : FinalizedTxData rt

module _ (rt : Runtime) (p : Providers rt) where
  -- the write of the next private state, if there is a provider and an identifier
  unfoldable pub store_private_state : Option Text → rt.PrivateState → M rt (Unit {0})
  store_private_state none state = pure tt
  store_private_state (some id) state =
      if p.has_private_state_provider then set_private_state rt p id state else pure tt

  unfoldable pub submit_call_tx : CallTxOptions rt → M rt (FinalizedCallTxData rt)
  unfolding store_private_state
  submit_call_tx options = do
    check_address rt options.contract_address
    assert_circuit rt options.contract options.circuit_id
    throw_when (is_defined options.private_state_id && not p.has_private_state_provider)
        incomplete_call_tx_private_state_config
    unsubmitted ← create_unproven_call_tx rt p options
    finalized ← submit_tx rt p (record {
      unproven_tx = unsubmitted.unproven_tx;
      new_coins = unsubmitted.new_coins;
      circuit_id = some options.circuit_id;
    })
    throw_when (not (is_success finalized.status))
        (tx_failed call_tx finalized (some options.circuit_id))
    store_private_state options.private_state_id
        unsubmitted.call_result.private_part.next_private_state
    pure (record { unsubmitted = unsubmitted; finalized = finalized })
