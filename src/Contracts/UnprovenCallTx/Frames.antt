-- ===== src/Contracts/UnprovenCallTx/Frames.antt =====
-- Creating an unproven call transaction: what is left of the private states and signing keys.
use midnight_js.Prelude.{Option, none, some, Text}
use midnight_js.Contracts.Runtime.{Runtime, Contract}
use midnight_js.Contracts.World.{Providers}
use midnight_js.Contracts.World.Frames.{KeepsLocal, local_rules}
use midnight_js.Contracts.Zswap.Frames.{encryption_public_key_for_zswap_state-KeepsLocal}
use midnight_js.Contracts.LedgerTx.Frames.{create_unproven_ledger_call_tx-KeepsLocal}
use midnight_js.Contracts.Call.{CallOptions}
use midnight_js.Contracts.Call.Frames.{call-KeepsLocal}
use midnight_js.Contracts.States.Frames.{get_public_states-KeepsLocal, get_states-KeepsLocal}
use midnight_js.Contracts.UnprovenCallTx.{
  CallTxOptions, assert_circuit, create_call_options, create_unproven_call_tx,
  create_unproven_call_tx_from_initial_states, fetch_states, get_states_without_private,
}

module _ (rt : Runtime) where
  pub assert_circuit-KeepsLocal :
      (contract : Contract rt) (id : Text) → KeepsLocal {rt = rt} (assert_circuit rt contract id)
  unfolding assert_circuit
  assert_circuit-KeepsLocal contract id = search local_rules

  from_initial_states-KeepsLocal :
      (options : CallOptions rt) (coin_key encryption_key : Text)
      → KeepsLocal {rt = rt}
          (create_unproven_call_tx_from_initial_states rt options coin_key encryption_key)
  unfolding create_unproven_call_tx_from_initial_states
  from_initial_states-KeepsLocal options coin_key encryption_key =
      search
        (
          local_rules, assert_circuit-KeepsLocal, call-KeepsLocal,
          encryption_public_key_for_zswap_state-KeepsLocal,
          create_unproven_ledger_call_tx-KeepsLocal,
        )
        depth 14

  create_call_options-KeepsLocal :
      (options : CallTxOptions rt) (coin_key : Text) (state : rt.ContractState)
      (chain_state : rt.ZswapChainState) (private_state : Option rt.PrivateState)
      → KeepsLocal {rt = rt}
          (create_call_options rt options coin_key state chain_state private_state)
  unfolding create_call_options
  create_call_options-KeepsLocal options coin_key state chain_state private_state =
      search local_rules depth 8

module _ (rt : Runtime) (p : Providers rt) where
  without_private-KeepsLocal :
      (address : Text) → KeepsLocal {rt = rt} (get_states_without_private rt p address)
  unfolding get_states_without_private
  without_private-KeepsLocal address = search (local_rules, get_public_states-KeepsLocal)

  fetch_states-KeepsLocal :
      (address : Text) (id : Option Text) → KeepsLocal {rt = rt} (fetch_states rt p address id)
  unfolding fetch_states
  fetch_states-KeepsLocal address none = without_private-KeepsLocal address
  fetch_states-KeepsLocal address (some id) =
      search (local_rules, without_private-KeepsLocal, get_states-KeepsLocal)

  pub create_unproven_call_tx-KeepsLocal :
      (options : CallTxOptions rt) → KeepsLocal {rt = rt} (create_unproven_call_tx rt p options)
  unfolding create_unproven_call_tx
  create_unproven_call_tx-KeepsLocal options =
      search
        (
          local_rules, assert_circuit-KeepsLocal, fetch_states-KeepsLocal,
          create_call_options-KeepsLocal, from_initial_states-KeepsLocal,
        )
        depth 14
