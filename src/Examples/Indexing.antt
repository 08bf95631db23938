-- ===== src/Examples/Indexing.antt =====
-- The provider over an indexer, at concrete answers of the server.
use midnight_js.Prelude.{
  true, ℕ, ◌≡◌, refl, false, none, some, List, [], ◌∷◌, Text, codes, length, ok,
}
use midnight_js.NetworkId.{NetworkId}
use mathlib.Core.List.{flat_map}
use midnight_js.Indexer.Streams.{pending, next, prepend, map_try}
use midnight_js.Indexer.{
  Client, Deserializers, ContractAction, Transaction, Block, TransactionData,
  maybe_throw_graphql_errors,
}
use midnight_js.Indexer.Queries.{finalized, watch_for_tx_data}
use midnight_js.Indexer.Queries.Watches.{answer, settled, watch_for_tx_data_settles}
use midnight_js.Indexer.Observables.{
  contract_state_observable, block_height, tx_id, sent, block_offset_to_block, is_inclusive,
}
use midnight_js.Indexer.Observables.Flattening.{select}
use midnight_js.Indexer.Observables.BlockOrder.{
  actions_at, states_of, contract_state_observable_of_blocks,
}
use midnight_js.Indexer.Observables.TxIds.{
  states_of_pairs, pairs_from, has_identifier, tx_id_observable_lem,
}
use midnight_js.Examples.Toy.{toy}

abbrev action : Text → Text → ContractAction
action address state = record { state = state; address = address }

-- A transaction that updates two contracts, and a later one that updates the first again.
abbrev two_updates : Transaction
two_updates = record {
  identifiers = codes "i1" ∷ codes "i2" ∷ [];
  contract_actions = action (codes "a") (codes "01") ∷ action (codes "b") (codes "02") ∷ [];
}

abbrev one_update : Transaction
one_update = record {
  identifiers = codes "i3" ∷ [];
  contract_actions = action (codes "a") (codes "03") ∷ [];
}

abbrev block_of : ℕ → Transaction → Block
block_of n t = record { block_hash = codes "h"; block_height = n; transactions = t ∷ [] }

abbrev blocks : List Block
blocks = block_of 4 two_updates ∷ block_of 5 one_update ∷ []

abbrev transaction_data : TransactionData
transaction_data = record {
  raw = codes "0a";
  apply_stage = codes "SucceedEntirely";
  tx_hash = codes "t";
  block_height = 4;
  block_hash = codes "h";
}

abbrev server : Client toy
server = record {
  contract_state = λ address offset. ok (answer (some (codes "01")));
  contract_and_zswap_state = λ address offset. ok (answer (some (codes "00", codes "01")));
  deploy_contract_state = λ address. ok (answer none);
  watch_contract_state = λ address offset. next (answer (some (codes "01"))) pending;
  watch_deploy_tx = λ address. pending;
  watch_tx_id = λ id. next (answer (transaction_data ∷ [])) pending;
  watch_latest_height = λ address. pending;
  watch_block = λ offset. next (answer (some (codes "h", 4))) pending;
  blocks_from = λ offset.
      next (answer (block_of 4 two_updates)) (next (answer (block_of 5 one_update)) pending);
  contract_states_from = λ address offset. pending;
}

-- The server again, with a poll before the transaction is there.
abbrev slow_server : Client toy
slow_server = record server {
  watch_tx_id = λ id. next (answer []) (next (answer (transaction_data ∷ [])) pending);
}

abbrev readers : Deserializers toy
readers = record {
  deserialize_zswap_state = λ bytes id. ok (length bytes);
  deserialize_transaction = λ bytes id. ok (length bytes);
}

contract_state_observable_of_blocks_example :
    contract_state_observable server NetworkId.test_net (codes "a") (block_height 4 (some false))
    ≡ states_of NetworkId.test_net
        (codes "a")
        (prepend (flat_map (actions_at (codes "a")) (block_of 5 one_update ∷ [])) pending)
unfolding is_inclusive block_offset_to_block sent map_try prepend maybe_throw_graphql_errors
contract_state_observable_of_blocks_example =
    contract_state_observable_of_blocks server NetworkId.test_net (codes "a") 4 (some false)
      (codes "h", 4) blocks pending refl refl

tx_id_observable_lem_example :
    contract_state_observable server NetworkId.test_net (codes "a") (tx_id (codes "i1") (some true))
    ≡ states_of_pairs NetworkId.test_net (
        prepend
          (flat_map (pairs_from (codes "i1")) (
            select
              (has_identifier (codes "i1"))
              (flat_map (λ (block : Block). block.transactions) blocks)))
          pending)
unfolding block_offset_to_block sent map_try prepend maybe_throw_graphql_errors is_inclusive
tx_id_observable_lem_example =
    tx_id_observable_lem server (codes "i1") transaction_data [] blocks refl refl NetworkId.test_net
      (codes "a") (some true)

watch_for_tx_data_settles_example :
    watch_for_tx_data readers slow_server NetworkId.test_net (codes "i1")
    ≡ settled (finalized readers NetworkId.test_net (some (codes "i1")) transaction_data)
unfolding prepend
watch_for_tx_data_settles_example =
    watch_for_tx_data_settles readers slow_server NetworkId.test_net (codes "i1") (answer [] ∷ [])
      transaction_data [] pending (refl, tt) refl
