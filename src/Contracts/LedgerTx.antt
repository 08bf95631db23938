-- ===== src/Contracts/LedgerTx.antt =====
-- packages/contracts/src/utils/ledger-utils.ts: ledger transactions for deployments, calls and
-- maintenance updates.
pub mod Frames
use midnight_js.Prelude.{ℕ, ◌+◌, true, Option, none, some, List, [], ◌∷◌, Text}
use midnight_js.Prelude.Exec.{pure, assert_defined, ◌>>=◌}
use midnight_js.Contracts.Runtime.{Runtime, ZswapLocalState}
use midnight_js.Contracts.World.{
  M, circuit_undefined, operation_undefined, outside_call, library_call, get_ledger_network_id,
  get_runtime_network_id,
}
use midnight_js.Contracts.Zswap.{zswap_state_to_offer}

module _ (rt : Runtime) where
  unfoldable pub to_ledger_query_context : rt.QueryContext → rt.LedgerQueryContext
  to_ledger_query_context context =
      rt.set_effects
        (rt.set_block
          (rt.new_ledger_query_context (rt.query_state context) (rt.query_address context))
          (rt.query_block context))
        (rt.query_effects context)

  abbrev next_counter : Option rt.ContractState → ℕ
  next_counter none = 0
  next_counter (some state) = rt.authority_counter state + 1

  unfoldable pub contract_maintenance_authority :
      Text → Option rt.ContractState → rt.MaintenanceAuthority
  contract_maintenance_authority key state =
      rt.new_authority (rt.signature_verifying_key key ∷ []) 1 (next_counter state)

  unfoldable pub add_maintenance_authority : Text → rt.LedgerContractState → rt.LedgerContractState
  unfolding contract_maintenance_authority
  add_maintenance_authority key state =
      rt.set_authority state (contract_maintenance_authority key none)

  unfoldable pub replace_authority : Text → rt.ContractState → rt.SingleUpdate
  replace_authority key state =
      rt.replace_authority_update (contract_maintenance_authority key (some state))

module _ (rt : Runtime) where
  unfoldable pub to_ledger_contract_state : rt.ContractState → M rt rt.LedgerContractState
  to_ledger_contract_state state = do
    runtime_id ← get_runtime_network_id rt
    bytes ← library_call rt (rt.serialize_state state runtime_id)
    ledger_id ← get_ledger_network_id rt
    library_call rt (rt.deserialize_ledger_state bytes ledger_id)

  unfoldable pub from_ledger_contract_state : rt.LedgerContractState → M rt rt.ContractState
  from_ledger_contract_state state = do
    ledger_id ← get_ledger_network_id rt
    bytes ← library_call rt (rt.serialize_ledger_state state ledger_id)
    runtime_id ← get_runtime_network_id rt
    library_call rt (rt.deserialize_state bytes runtime_id)

  unfoldable pub add_verifier_keys :
      List (Text × List ℕ) → rt.LedgerContractState → M rt rt.LedgerContractState
  add_verifier_keys [] state = pure state
  add_verifier_keys ((id, key) ∷ keys) state = do
    operation ← assert_defined (λ _. true) (circuit_undefined id) (rt.ledger_operation state id)
    add_verifier_keys keys (rt.set_operation state id (rt.with_verifier_key operation key))

  unfoldable pub create_unproven_ledger_deploy_tx :
      List (Text × List ℕ)
      → Text
      → rt.ContractState
      → ZswapLocalState
      → Text
      → M rt (Text × rt.ContractState × rt.UnprovenTransaction)
  create_unproven_ledger_deploy_tx keys signing_key state zswap_state encryption_public_key = do
    ledger_state ← to_ledger_contract_state state
    with_keys ← add_verifier_keys keys ledger_state
    deploy ←
        outside_call rt
          (rt.new_contract_deploy (add_maintenance_authority rt signing_key with_keys))
    initial_state ← from_ledger_contract_state (rt.deploy_initial_state deploy)
    offer ← zswap_state_to_offer rt zswap_state encryption_public_key none
    pure (
      rt.deploy_address deploy,
      initial_state,
      rt.new_unproven_tx offer (rt.add_deploy rt.no_calls deploy),
    )

  unfoldable pub create_unproven_ledger_call_tx :
      Text
      → Text
      → rt.ContractState
      → rt.ZswapChainState
      → Option rt.Transcript × Option rt.Transcript
      → List rt.AlignedValue
      → rt.AlignedValue
      → rt.AlignedValue
      → ZswapLocalState
      → Text
      → M rt rt.UnprovenTransaction
  create_unproven_ledger_call_tx id address initial_state chain_state partitioned private_outputs
        input output zswap_state encryption_public_key =
      do
        ledger_state ← to_ledger_contract_state initial_state
        op ←
            assert_defined (λ _. true) (operation_undefined id)
              (rt.ledger_operation ledger_state id)
        offer ←
            zswap_state_to_offer rt zswap_state encryption_public_key (some (address, chain_state))
        calls ← outside_call rt (
            rt.add_call rt.no_calls address id op partitioned.0 partitioned.1 private_outputs input
              output)
        pure (rt.new_unproven_tx offer calls)

  unfoldable pub unproven_tx_from_contract_updates :
      Text → List rt.SingleUpdate → rt.ContractState → Text → M rt rt.UnprovenTransaction
  unproven_tx_from_contract_updates address updates state key = do
    signed ← outside_call rt (
        rt.sign_update (rt.new_maintenance_update address updates (rt.authority_counter state)) 0
          key)
    pure (rt.new_unproven_tx rt.new_offer (rt.add_maintenance_update rt.no_calls signed))

  unfoldable pub create_unproven_replace_authority_tx :
      Text → Text → rt.ContractState → Text → M rt rt.UnprovenTransaction
  create_unproven_replace_authority_tx address new_authority state current =
      unproven_tx_from_contract_updates address (replace_authority rt new_authority state ∷ [])
        state current

  unfoldable pub create_unproven_remove_verifier_key_tx :
      Text → Text → rt.ContractState → Text → M rt rt.UnprovenTransaction
  create_unproven_remove_verifier_key_tx address operation state current =
      unproven_tx_from_contract_updates address (rt.verifier_key_remove operation ∷ []) state
        current

  unfoldable pub create_unproven_insert_verifier_key_tx :
      Text → Text → List ℕ → rt.ContractState → Text → M rt rt.UnprovenTransaction
  create_unproven_insert_verifier_key_tx address operation key state current =
      unproven_tx_from_contract_updates address (rt.verifier_key_insert operation key ∷ []) state
        current
