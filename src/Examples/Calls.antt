-- ===== src/Examples/Calls.antt =====
-- Circuit calls at concrete inputs.
use midnight_js.Prelude.{map_get, ◌⊎◌, ◌≡◌, refl, none, some, [], codes, text_eq}
use midnight_js.Prelude.Exec.{◌>>=◌}
use midnight_js.Contracts.World.{
  outside_call, get_zswap_network_id, get_ledger_network_id, get_runtime_network_id,
  parse_coin_public_key_to_hex, parse_enc_public_key_to_hex, get_private_state, write_store,
  set_private_state, get_zk_config, succeed_entirely, fail_fallible, Local, call_tx, tx_failed,
  is_success,
}
use midnight_js.Contracts.UnprovenCallTx.{
  CallTxOptions, UnsubmittedCallTxData, create_unproven_call_tx, create_call_options,
  create_unproven_call_tx_from_initial_states, assert_circuit,
}
use midnight_js.Contracts.Call.{call, partition_transcript}
use midnight_js.Contracts.States.{get_states, get_public_states}
use midnight_js.Contracts.LedgerTx.{
  to_ledger_query_context, create_unproven_ledger_call_tx, to_ledger_contract_state,
}
use midnight_js.Contracts.Zswap.{
  encryption_public_key_for_zswap_state, zswap_state_to_new_coins, zswap_state_to_offer,
  create_outputs, route_inputs, unproven_offer_from_map, entries_to_map,
}
use midnight_js.Contracts.Submit.{submit_tx}
use midnight_js.Contracts.World.Writes.{with_private_state}
use midnight_js.Hex.{
  assert_is_contract_address, assert_is_hex, parse_hex, strip_prefix, split_bytes, is_hex,
}
use midnight_js.Hex.Digits.{is_hex_digit, is_line_terminator}
use midnight_js.NetworkId.{to_zswap_network_id, to_ledger_network_id, to_runtime_network_id}
use midnight_js.Contracts.CallTx.{FinalizedCallTxData, submit_call_tx}
use midnight_js.Contracts.CallTx.Atomicity.{
  submit_call_tx_success, submit_call_tx_failure, StoredCall, after_call, next_state_of,
}
use midnight_js.Examples.Toy.{toy, counter, address, providers, start, finalized}

abbrev increment : CallTxOptions toy
increment = record {
  contract = counter;
  circuit_id = codes "increment";
  contract_address = address;
  args = none;
  private_state_id = some (codes "p");
}

-- What the call of `increment` creates, and what it resolves with.
abbrev unsubmitted : UnsubmittedCallTxData toy
unsubmitted = record {
  call_result = record {
    public_part = record {
      next_contract_state = 1;
      public_transcript = 0;
      partitioned_transcript = (some 1, none);
    };
    private_part = record {
      input = 0;
      output = 0;
      private_transcript_outputs = [];
      result = 5;
      next_private_state = 6;
      next_zswap_local_state = record { coin_public_key = codes "aa"; inputs = []; outputs = [] };
    };
  };
  unproven_tx = 1;
  new_coins = [];
}

abbrev called : FinalizedCallTxData toy
called = record { unsubmitted = unsubmitted; finalized = finalized succeed_entirely }

abbrev local_after : Local toy
local_after = with_private_state start.local (codes "p") 6

submit_call_tx_success_example :
    (called.finalized.status ≡ succeed_entirely)
    × (local_after
        ≡ after_call
            (providers succeed_entirely)
            start.local
            (some (codes "p"))
            (next_state_of called))
unfolding ◌>>=◌ assert_is_contract_address assert_is_hex parse_hex strip_prefix split_bytes
    is_hex_digit is_line_terminator text_eq map_get is_hex to_zswap_network_id to_ledger_network_id
    to_runtime_network_id outside_call get_zswap_network_id get_ledger_network_id
    get_runtime_network_id parse_coin_public_key_to_hex parse_enc_public_key_to_hex
    get_private_state write_store set_private_state get_zk_config is_success submit_tx call
    partition_transcript to_ledger_query_context get_states get_public_states create_call_options
    create_unproven_call_tx_from_initial_states create_unproven_call_tx assert_circuit
    encryption_public_key_for_zswap_state zswap_state_to_new_coins zswap_state_to_offer
    create_outputs route_inputs unproven_offer_from_map entries_to_map
    create_unproven_ledger_call_tx to_ledger_contract_state submit_call_tx
submit_call_tx_success_example =
    submit_call_tx_success toy (providers succeed_entirely) increment start
      (record { local = local_after; ext = 13 }) called refl

submit_call_tx_failure_example :
    (start.local ≡ start.local)
    ⊎ StoredCall toy (providers fail_fallible) start.local increment (record start { ext = 12 })
unfolding ◌>>=◌ assert_is_contract_address assert_is_hex parse_hex strip_prefix split_bytes
    is_hex_digit is_line_terminator text_eq map_get is_hex to_zswap_network_id to_ledger_network_id
    to_runtime_network_id outside_call get_zswap_network_id get_ledger_network_id
    get_runtime_network_id parse_coin_public_key_to_hex parse_enc_public_key_to_hex
    get_private_state write_store set_private_state get_zk_config is_success submit_tx call
    partition_transcript to_ledger_query_context get_states get_public_states create_call_options
    create_unproven_call_tx_from_initial_states create_unproven_call_tx assert_circuit
    encryption_public_key_for_zswap_state zswap_state_to_new_coins zswap_state_to_offer
    create_outputs route_inputs unproven_offer_from_map entries_to_map
    create_unproven_ledger_call_tx to_ledger_contract_state submit_call_tx
submit_call_tx_failure_example =
    submit_call_tx_failure toy (providers fail_fallible) increment start (record start { ext = 12 })
      (tx_failed call_tx (finalized fail_fallible) (some (codes "increment"))) refl
