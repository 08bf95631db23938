-- ===== src/Examples/Maintenance.antt =====
-- Maintenance transactions and the check of keys at concrete inputs.
use midnight_js.Prelude.{
  ◌⊎◌, ℕ, ◌≡◌, refl, arith, subst, none, some, List, [], ◌∷◌, Text, codes, ok, text_eq, map_get,
  keys, ◌↔◌, All,
}
use midnight_js.Prelude.Exec.{◌>>=◌}
use midnight_js.Hex.{
  assert_is_contract_address, assert_is_hex, parse_hex, strip_prefix, split_bytes, is_hex,
}
use midnight_js.Hex.Digits.{is_hex_digit, is_line_terminator}
use midnight_js.NetworkId.{to_zswap_network_id, to_ledger_network_id, to_runtime_network_id}
use midnight_js.Contracts.Zswap.{
  zswap_state_to_new_coins, zswap_state_to_offer, create_outputs, route_inputs,
  unproven_offer_from_map, entries_to_map,
}
use midnight_js.Contracts.LedgerTx.{
  to_ledger_contract_state, from_ledger_contract_state, add_verifier_keys,
  add_maintenance_authority, create_unproven_ledger_deploy_tx, unproven_tx_from_contract_updates,
  create_unproven_replace_authority_tx, replace_authority,
}
use midnight_js.Contracts.Call.{call_contract_constructor}
use midnight_js.Contracts.Submit.{submit_tx}
use midnight_js.Contracts.World.{
  succeed_entirely, fail_fallible, tx_failed, outside_call, get_zswap_network_id,
  get_ledger_network_id, get_runtime_network_id, parse_coin_public_key_to_hex, is_success,
  get_private_state, write_store, set_private_state, get_signing_key, set_signing_key,
  get_verifier_keys, replace_maintenance_authority_tx,
}
use midnight_js.Contracts.World.Writes.{with_signing_key}
use midnight_js.Contracts.DeployTx.{
  get_impure_circuit_ids, create_unproven_deploy_tx, create_unproven_deploy_tx_from_verifier_keys,
}
use midnight_js.Contracts.Maintenance.{
  submit_insert_verifier_key_tx, submit_remove_verifier_key_tx, submit_replace_authority_tx,
}
use midnight_js.Contracts.Maintenance.Atomicity.{
  key_updates_touch_no_store, submit_replace_authority_tx_success,
  submit_replace_authority_tx_failure, StoredKey,
}
use midnight_js.Contracts.Find.{verify_contract_state}
use midnight_js.Contracts.Find.KeyCheck.{HasKey, verify_contract_state_iff}
use midnight_js.Hex.RoundTrip.{IsByte}
use midnight_js.Examples.Toy.{toy, key_of_state, address, providers, start, finalized}

submit_replace_authority_tx_success_example :
    (succeed_entirely ≡ succeed_entirely)
    × (with_signing_key start.local address (codes "6f")
        ≡ with_signing_key start.local address (codes "6f"))
unfolding ◌>>=◌ assert_is_contract_address assert_is_hex parse_hex strip_prefix split_bytes
    is_hex_digit is_line_terminator text_eq map_get is_hex to_zswap_network_id to_ledger_network_id
    to_runtime_network_id outside_call get_zswap_network_id get_ledger_network_id
    get_runtime_network_id parse_coin_public_key_to_hex is_success submit_tx get_private_state
    write_store set_private_state get_signing_key set_signing_key get_verifier_keys
    get_impure_circuit_ids keys to_ledger_contract_state from_ledger_contract_state
    add_verifier_keys add_maintenance_authority create_unproven_ledger_deploy_tx
    call_contract_constructor create_unproven_deploy_tx create_unproven_deploy_tx_from_verifier_keys
    zswap_state_to_new_coins zswap_state_to_offer create_outputs route_inputs
    unproven_offer_from_map entries_to_map submit_replace_authority_tx
    create_unproven_replace_authority_tx unproven_tx_from_contract_updates replace_authority
submit_replace_authority_tx_success_example =
    submit_replace_authority_tx_success toy (providers succeed_entirely) address (codes "6f") start
      (record { local = with_signing_key start.local address (codes "6f"); ext = 8 })
      (finalized succeed_entirely) refl

submit_replace_authority_tx_failure_example :
    (start.local ≡ start.local)
    ⊎ StoredKey toy
        (providers fail_fallible)
        start.local
        address
        (codes "6f")
        (record start { ext = 7 })
unfolding ◌>>=◌ assert_is_contract_address assert_is_hex parse_hex strip_prefix split_bytes
    is_hex_digit is_line_terminator text_eq map_get is_hex to_zswap_network_id to_ledger_network_id
    to_runtime_network_id outside_call get_zswap_network_id get_ledger_network_id
    get_runtime_network_id parse_coin_public_key_to_hex is_success submit_tx get_private_state
    write_store set_private_state get_signing_key set_signing_key get_verifier_keys
    get_impure_circuit_ids keys to_ledger_contract_state from_ledger_contract_state
    add_verifier_keys add_maintenance_authority create_unproven_ledger_deploy_tx
    call_contract_constructor create_unproven_deploy_tx create_unproven_deploy_tx_from_verifier_keys
    zswap_state_to_new_coins zswap_state_to_offer create_outputs route_inputs
    unproven_offer_from_map entries_to_map submit_replace_authority_tx
    create_unproven_replace_authority_tx unproven_tx_from_contract_updates replace_authority
submit_replace_authority_tx_failure_example =
    submit_replace_authority_tx_failure toy (providers fail_fallible) address (codes "6f") start
      (record start { ext = 7 })
      (tx_failed replace_maintenance_authority_tx (finalized fail_fallible) none) refl

key_updates_touch_no_store_example :
    ((submit_insert_verifier_key_tx toy
        (providers succeed_entirely)
        address
        (codes "b")
        []
        start).1.local
      ≡ start.local)
    × ((submit_remove_verifier_key_tx toy
          (providers succeed_entirely)
          address
          (codes "b")
          start).1.local
        ≡ start.local)
key_updates_touch_no_store_example =
    key_updates_touch_no_store toy (providers succeed_entirely) address (codes "b") [] start

small_key :
    (id : Text) (operation : List ℕ) → key_of_state (7 ∷ []) ≡ some operation → All IsByte operation
small_key id operation e =
    let same : 7 ∷ [] ≡ operation = cc e in subst (All IsByte) same (omega arith, tt)

verify_contract_state_iff_example :
    (verify_contract_state toy ((codes "increment", 7 ∷ []) ∷ []) (7 ∷ []) start ≡ (ok tt, start))
    ↔ All (HasKey toy (7 ∷ [])) ((codes "increment", 7 ∷ []) ∷ [])
verify_contract_state_iff_example =
    verify_contract_state_iff toy (7 ∷ []) small_key ((codes "increment", 7 ∷ []) ∷ []) start
      ((omega arith, tt), tt)
