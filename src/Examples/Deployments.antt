-- ===== src/Examples/Deployments.antt =====
-- Deployments and finds at concrete inputs.
use midnight_js.Prelude.{
  ◌⊎◌, ◌≡◌, refl, none, some, [], ◌∷◌, codes, ok, text_eq, map_get, keys, ◌+◌,
}
use midnight_js.Prelude.Exec.{◌>>=◌}
use midnight_js.Hex.{
  assert_is_contract_address, assert_is_hex, parse_hex, strip_prefix, split_bytes, is_hex, to_hex,
}
use midnight_js.Hex.Digits.{is_hex_digit, is_line_terminator}
use midnight_js.NetworkId.{to_zswap_network_id, to_ledger_network_id, to_runtime_network_id}
use midnight_js.Contracts.Zswap.{
  zswap_state_to_new_coins, zswap_state_to_offer, create_outputs, route_inputs,
  unproven_offer_from_map, entries_to_map,
}
use midnight_js.Contracts.LedgerTx.{
  to_ledger_contract_state, from_ledger_contract_state, add_verifier_keys,
  add_maintenance_authority, create_unproven_ledger_deploy_tx,
}
use midnight_js.Contracts.Call.{call_contract_constructor}
use midnight_js.Contracts.Submit.{submit_tx}
use midnight_js.Contracts.World.{
  succeed_entirely, fail_entirely, Local, deploy_tx, tx_failed, outside_call, get_zswap_network_id,
  get_ledger_network_id, get_runtime_network_id, parse_coin_public_key_to_hex, is_success,
  get_private_state, write_store, set_private_state, get_signing_key, set_signing_key,
  get_verifier_keys, Providers,
}
use midnight_js.Contracts.World.Writes.{with_private_state, with_signing_key}
use midnight_js.Contracts.DeployTx.{
  DeployTxOptions, FinalizedDeployTxData, get_impure_circuit_ids, create_unproven_deploy_tx,
  create_unproven_deploy_tx_from_verifier_keys, submit_deploy_tx,
}
use midnight_js.Contracts.DeployTx.Atomicity.{
  StoredDeploy, with_initial_state, submit_deploy_tx_success, submit_deploy_tx_failure,
}
use midnight_js.Contracts.Find.{
  FindDeployedContractOptions, FoundContractData, find_deployed_contract,
  set_or_get_initial_signing_key, set_or_get_initial_private_state, verifier_keys_equal,
  mismatched_circuit_ids, verify_contract_state,
}
use midnight_js.Contracts.Find.Outcome.{Found, find_deployed_contract_success}
use midnight_js.Examples.Toy.{toy, counter, address, providers, start, finalized}

abbrev deployment : DeployTxOptions toy
deployment = record {
  contract = counter;
  args = none;
  signing_key = codes "4d";
  initial_private_state = some 1;
  private_state_id = some (codes "q");
}

abbrev find_options : FindDeployedContractOptions toy
find_options = record {
  contract = counter;
  contract_address = address;
  signing_key = none;
  private_state_id = some (codes "p");
  initial_private_state = none;
}

abbrev deployed : FinalizedDeployTxData toy
deployed = record {
  unsubmitted = record {
    contract_address = address;
    initial_contract_state = 7 ∷ [];
    signing_key = codes "4d";
    initial_private_state = 1;
    initial_zswap_state = record { coin_public_key = codes "aa"; inputs = []; outputs = [] };
    unproven_tx = 1;
    new_coins = [];
  };
  finalized = finalized succeed_entirely;
}

abbrev local_after_deploy : Local toy
local_after_deploy =
    with_signing_key (with_private_state start.local (codes "q") 1) (address) (codes "4d")

submit_deploy_tx_success_example :
    (deployed.finalized.status ≡ succeed_entirely)
    × (local_after_deploy
        ≡ with_signing_key
            (with_initial_state start.local (some (codes "q")) 1)
            (address)
            (codes "4d"))
unfolding ◌>>=◌ assert_is_contract_address assert_is_hex parse_hex strip_prefix split_bytes
    is_hex_digit is_line_terminator text_eq map_get is_hex to_zswap_network_id to_ledger_network_id
    to_runtime_network_id outside_call get_zswap_network_id get_ledger_network_id
    get_runtime_network_id parse_coin_public_key_to_hex is_success submit_tx get_private_state
    write_store set_private_state get_signing_key set_signing_key get_verifier_keys
    get_impure_circuit_ids keys to_ledger_contract_state from_ledger_contract_state
    add_verifier_keys add_maintenance_authority create_unproven_ledger_deploy_tx
    call_contract_constructor create_unproven_deploy_tx create_unproven_deploy_tx_from_verifier_keys
    zswap_state_to_new_coins zswap_state_to_offer create_outputs route_inputs
    unproven_offer_from_map entries_to_map submit_deploy_tx
submit_deploy_tx_success_example =
    submit_deploy_tx_success toy (providers succeed_entirely) deployment start
      (record { local = local_after_deploy; ext = 9 }) deployed refl

submit_deploy_tx_failure_example :
    (start.local ≡ start.local)
    ⊎ StoredDeploy toy (providers fail_entirely) start.local deployment (record start { ext = 7 })
unfolding ◌>>=◌ assert_is_contract_address assert_is_hex parse_hex strip_prefix split_bytes
    is_hex_digit is_line_terminator text_eq map_get is_hex to_zswap_network_id to_ledger_network_id
    to_runtime_network_id outside_call get_zswap_network_id get_ledger_network_id
    get_runtime_network_id parse_coin_public_key_to_hex is_success submit_tx get_private_state
    write_store set_private_state get_signing_key set_signing_key get_verifier_keys
    get_impure_circuit_ids keys to_ledger_contract_state from_ledger_contract_state
    add_verifier_keys add_maintenance_authority create_unproven_ledger_deploy_tx
    call_contract_constructor create_unproven_deploy_tx create_unproven_deploy_tx_from_verifier_keys
    zswap_state_to_new_coins zswap_state_to_offer create_outputs route_inputs
    unproven_offer_from_map entries_to_map submit_deploy_tx
submit_deploy_tx_failure_example =
    submit_deploy_tx_failure toy (providers fail_entirely) deployment start
      (record start { ext = 7 }) (tx_failed deploy_tx (finalized fail_entirely) none) refl

abbrev found : FoundContractData toy
found = record {
  signing_key = codes "5e";
  initial_private_state = 5;
  finalized = finalized succeed_entirely;
  contract_address = address;
  initial_contract_state = 7 ∷ [];
}

find_deployed_contract_success_example :
    Found start.local address (some (codes "p")) none (codes "5e") 5 start.local
unfolding ◌>>=◌ assert_is_contract_address assert_is_hex parse_hex strip_prefix split_bytes
    is_hex_digit is_line_terminator text_eq map_get is_hex to_zswap_network_id to_ledger_network_id
    to_runtime_network_id outside_call get_zswap_network_id get_ledger_network_id
    get_runtime_network_id parse_coin_public_key_to_hex is_success submit_tx get_private_state
    write_store set_private_state get_signing_key set_signing_key get_verifier_keys
    get_impure_circuit_ids keys to_ledger_contract_state from_ledger_contract_state
    add_verifier_keys add_maintenance_authority create_unproven_ledger_deploy_tx
    call_contract_constructor create_unproven_deploy_tx create_unproven_deploy_tx_from_verifier_keys
    zswap_state_to_new_coins zswap_state_to_offer create_outputs route_inputs
    unproven_offer_from_map entries_to_map find_deployed_contract set_or_get_initial_signing_key
    set_or_get_initial_private_state verifier_keys_equal mismatched_circuit_ids
    verify_contract_state to_hex
find_deployed_contract_success_example =
    find_deployed_contract_success toy (providers succeed_entirely) find_options start
      (record start { ext = 6 }) found refl

-- The chain has another key than the client for the circuit.
abbrev other_key : Providers toy
other_key = record (providers succeed_entirely) {
  query_contract_state = λ address n. (ok (some (8 ∷ [])), n + 1);
}
