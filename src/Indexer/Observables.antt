-- ===== src/Indexer/Observables.antt =====
-- `contractStateObservable` of
-- packages/indexer-public-data-provider/src/indexer-public-data-provider.ts, with the streams it is
-- made of.
pub mod Flattening
pub mod BlockOrder
pub mod TxIds
use midnight_js.Prelude.{
  ℕ, Bool, true, false, not, Option, none, some, List, [], ◌∷◌, Text, text_eq, Result, ok, err,
  if◌then◌else◌, ◌>>=◌, ◌>>◌,
}
use mathlib.Core.List.{zip}
use midnight_js.NetworkId.{NetworkId}
use midnight_js.Contracts.Runtime.{Runtime}
use midnight_js.Indexer.Streams.{
  Stream, from_list, map_try, filter_try, keep_if, skip_while, skip_one, take_one, concat_map,
}
use midnight_js.Indexer.{
  Error, QueryResult, BlockOffset, height, hash, Transaction, Block, ContractAction,
  TransactionData, Client, maybe_throw_graphql_errors, maybe_throw_errors, data_of, has_action,
  action_of,
}
use midnight_js.Indexer.Queries.{
  deserialize_contract_state, has_transactions, first_transaction, wait_for_contract_to_appear,
}

-- ContractStateObservableConfig (packages/types/src/public-data-provider.ts), each with its `inclusive`.
pub data ObservableConfig : Type 0 where
  tx_id block_hash : Text → Option Bool → ObservableConfig
  block_height : ℕ → Option Bool → ObservableConfig
  latest all_states : ObservableConfig

-- `config.inclusive ?? true`
unfoldable pub is_inclusive : Option Bool → Bool
is_inclusive none = true
is_inclusive (some b) = b

-- The data of what a subscription sends.
unfoldable pub sent : {rt : Runtime} {D : Type 0} → QueryResult D → Result (Error rt) D
unfolding maybe_throw_graphql_errors
sent answer = maybe_throw_graphql_errors answer >>= data_of

module _ {rt : Runtime} (network : NetworkId) where
  unfoldable pub transaction_to_contract_state :
      Text → Transaction → Stream (Error rt) rt.ContractState
  transaction_to_contract_state id t =
      map_try (λ pair. deserialize_contract_state network pair.1.state)
        (skip_while (λ pair. not (text_eq pair.0 id))
          (from_list (zip t.identifiers t.contract_actions)))

  unfoldable pub block_to_contract_state : Text → Block → Stream (Error rt) rt.ContractState
  block_to_contract_state address block =
      let calls =
        concat_map (λ (t : Transaction). from_list t.contract_actions)
          (from_list block.transactions) in
      map_try (λ call. deserialize_contract_state network call.state)
        (keep_if (λ call. text_eq call.address address) calls)

module _ {rt : Runtime} (client : Client rt) where
  unfoldable pub block_offset_to_block : BlockOffset → Stream (Error rt) Block
  block_offset_to_block offset = map_try sent (client.blocks_from offset)

  unfoldable pub transaction_id_to_transaction : Text → Stream (Error rt) Transaction
  transaction_id_to_transaction id =
      let answers =
        filter_try has_transactions (map_try maybe_throw_errors (client.watch_tx_id id)) in
      let offsets =
        map_try (λ answer. first_transaction answer >>= λ t. ok (height t.block_height)) answers in
      concat_map (λ block. from_list block.transactions) (concat_map block_offset_to_block offsets)

  unfoldable pub contract_address_to_latest_block_offset : Text → Stream (Error rt) BlockOffset
  contract_address_to_latest_block_offset address =
      let answers =
        filter_try has_action (map_try maybe_throw_errors (client.watch_latest_height address)) in
      map_try (λ n. ok (height n)) (take_one (map_try action_of answers))

  unfoldable pub wait_for_block_to_appear :
      BlockOffset → Stream (Error rt) (QueryResult (Option (Text × ℕ)))
  wait_for_block_to_appear offset =
      take_one (filter_try has_action (map_try maybe_throw_errors (client.watch_block offset)))

module _ {rt : Runtime} (client : Client rt) (network : NetworkId) where
  unfoldable pub block_offset_to_contract_state :
      Text → Option BlockOffset → Stream (Error rt) rt.ContractState
  block_offset_to_contract_state address offset =
      map_try (deserialize_contract_state network)
        (map_try sent (client.contract_states_from address offset))

  -- The states from the block at an offset on.
  unfoldable pub states_from_block :
      Text → BlockOffset → Option Bool → Stream (Error rt) rt.ContractState
  unfolding block_offset_to_block wait_for_block_to_appear is_inclusive
  states_from_block address offset inclusive =
      let blocks =
        concat_map (λ answer. block_offset_to_block client offset)
          (wait_for_block_to_appear client offset) in
      concat_map (block_to_contract_state network address)
        (if is_inclusive inclusive then blocks else skip_one blocks)

  unfoldable pub contract_state_observable :
      Text → ObservableConfig → Stream (Error rt) rt.ContractState
  unfolding transaction_id_to_transaction is_inclusive
  contract_state_observable address (tx_id id inclusive) =
      let states =
        concat_map (transaction_to_contract_state network id)
          (transaction_id_to_transaction client id) in
      if is_inclusive inclusive then states else skip_one states
  contract_state_observable address latest = concat_map (block_to_contract_state network address) (
      concat_map (block_offset_to_block client)
        (contract_address_to_latest_block_offset client address))
  contract_state_observable address all_states =
      concat_map (λ state. block_offset_to_contract_state address none)
        (wait_for_contract_to_appear client network address none)
  contract_state_observable address (block_hash h inclusive) =
      states_from_block address (hash h) inclusive
  contract_state_observable address (block_height n inclusive) =
      states_from_block address (height n) inclusive
