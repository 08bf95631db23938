-- ===== src/Examples/Handles.antt =====
-- Handles of deployed and found contracts at concrete inputs.
use midnight_js.Contracts.Interfaces.{DeployContractOptions, find_deployed_contract_handle}
use midnight_js.Contracts.Interfaces.Laws.{handle_of, find_adds_interfaces}
use midnight_js.Prelude.{Option}
use midnight_js.Prelude.{◌≡◌, refl, none, some, [], ◌∷◌, Text, codes, ok, text_eq, map_get, keys}
use midnight_js.Prelude.Exec.{◌>>=◌}
use midnight_js.Hex.{
  assert_is_contract_address, assert_is_hex, parse_hex, strip_prefix, split_bytes, is_hex, to_hex,
}
use midnight_js.Hex.Digits.{is_hex_digit, is_line_terminator}
use midnight_js.NetworkId.{to_zswap_network_id, to_ledger_network_id, to_runtime_network_id}
use midnight_js.Contracts.Zswap.{
  zswap_state_to_new_coins, zswap_state_to_offer, create_outputs, route_inputs,
  unproven_offer_from_map, entries_to_map,
}
use midnight_js.Contracts.LedgerTx.{
  to_ledger_contract_state, from_ledger_contract_state, add_verifier_keys,
  add_maintenance_authority, create_unproven_ledger_deploy_tx,
}
use midnight_js.Contracts.Call.{call_contract_constructor}
use midnight_js.Contracts.Submit.{submit_tx}
use midnight_js.Contracts.World.{
  succeed_entirely, Local, outside_call, get_zswap_network_id, get_ledger_network_id,
  get_runtime_network_id, parse_coin_public_key_to_hex, is_success, get_private_state, write_store,
  set_private_state, get_signing_key, set_signing_key, get_verifier_keys,
}
use midnight_js.Contracts.World.Writes.{with_private_state, with_signing_key}
use midnight_js.Contracts.DeployTx.{
  FinalizedDeployTxData, get_impure_circuit_ids, create_unproven_deploy_tx,
  create_unproven_deploy_tx_from_verifier_keys,
}
use midnight_js.Contracts.Find.{
  FindDeployedContractOptions, FoundContractData, find_deployed_contract,
  set_or_get_initial_signing_key, set_or_get_initial_private_state, verifier_keys_equal,
  mismatched_circuit_ids, verify_contract_state,
}
use midnight_js.Examples.Toy.{toy, counter, address, providers, start, finalized}

abbrev find_options : FindDeployedContractOptions toy
find_options = record {
  contract = counter;
  contract_address = address;
  signing_key = none;
  private_state_id = some (codes "p");
  initial_private_state = none;
}

abbrev deployed_with : Text → FinalizedDeployTxData toy
deployed_with key = record {
  unsubmitted = record {
    contract_address = address;
    initial_contract_state = 7 ∷ [];
    signing_key = key;
    initial_private_state = 1;
    initial_zswap_state = record { coin_public_key = codes "aa"; inputs = []; outputs = [] };
    unproven_tx = 1;
    new_coins = [];
  };
  finalized = finalized succeed_entirely;
}

abbrev local_after_key : Text → Local toy
local_after_key key = with_signing_key (with_private_state start.local (codes "q") 1) (address) key

abbrev found : FoundContractData toy
found = record {
  signing_key = codes "5e";
  initial_private_state = 5;
  finalized = finalized succeed_entirely;
  contract_address = address;
  initial_contract_state = 7 ∷ [];
}

abbrev options_with : Option Text → DeployContractOptions toy
options_with key = record {
  contract = counter;
  args = none;
  signing_key = key;
  initial_private_state = some 1;
  private_state_id = some (codes "q");
}

find_adds_interfaces_example :
    find_deployed_contract_handle toy (providers succeed_entirely) find_options start ≡ (
      ok (handle_of toy (providers succeed_entirely) address counter (some (codes "p")) found),
      record start { ext = 6 },
    )
unfolding ◌>>=◌ assert_is_contract_address assert_is_hex parse_hex strip_prefix split_bytes
    is_hex_digit is_line_terminator text_eq map_get is_hex to_zswap_network_id to_ledger_network_id
    to_runtime_network_id outside_call get_zswap_network_id get_ledger_network_id
    get_runtime_network_id parse_coin_public_key_to_hex is_success submit_tx get_private_state
    write_store set_private_state get_signing_key set_signing_key get_verifier_keys
    get_impure_circuit_ids keys to_ledger_contract_state from_ledger_contract_state
    add_verifier_keys add_maintenance_authority create_unproven_ledger_deploy_tx
    call_contract_constructor create_unproven_deploy_tx create_unproven_deploy_tx_from_verifier_keys
    zswap_state_to_new_coins zswap_state_to_offer create_outputs route_inputs
    unproven_offer_from_map entries_to_map find_deployed_contract set_or_get_initial_signing_key
    set_or_get_initial_private_state verifier_keys_equal mismatched_circuit_ids
    verify_contract_state to_hex
find_adds_interfaces_example =
    find_adds_interfaces toy (providers succeed_entirely) find_options start
      (record start { ext = 6 }) (ok found) refl
