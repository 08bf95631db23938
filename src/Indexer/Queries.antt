-- ===== src/Indexer/Queries.antt =====
-- The queries and the watches of the provider in
-- packages/indexer-public-data-provider/src/indexer-public-data-provider.ts.
pub mod Watches
use midnight_js.Prelude.{
  ℕ, Bool, true, false, not, Option, none, some, List, [], ◌∷◌, get_elem?, is_empty, Text,
  if◌then◌else◌, Result, ok, err, ◌>>=◌, ◌>>◌,
}
use midnight_js.Hex.{from_hex}
use midnight_js.NetworkId.{
  NetworkId, NetworkIdError, TargetNetworkId, to_ledger_network_id, to_runtime_network_id,
}
use midnight_js.Contracts.Runtime.{Runtime}
use midnight_js.Contracts.World.{map_err}
use midnight_js.Indexer.Streams.{Stream, Awaited, first_value_from, filter_try, map_try, take_one}
use midnight_js.Indexer.{
  Error, type_error, no_elements, network_id_error, external, QueryResult, BlockOffset,
  TransactionData, DeployTransaction, DeployAction, called, deployed, IndexedTxData, Client,
  Deserializers, find_state, find_index, to_tx_status, maybe_throw_errors, data_of, has_action,
  action_of,
}

module _ {rt : Runtime} {A : Type 0} where
  -- `deserialize(toByteArray(s), network())`
  abbrev decode :
      (List ℕ → TargetNetworkId → Result rt.ExtError A)
      → Text
      → Result NetworkIdError TargetNetworkId
      → Result (Error rt) A
  decode deserialize s target = do
    id ← map_err network_id_error target
    map_err external (deserialize (from_hex s) id)

module _ {rt : Runtime} (network : NetworkId) where
  unfoldable pub deserialize_contract_state : Text → Result (Error rt) rt.ContractState
  deserialize_contract_state s = decode rt.deserialize_state s (to_runtime_network_id network)

  -- `s ? deserializeContractState(s) : null`
  unfoldable pub deserialize_truthy : Option Text → Result (Error rt) (Option rt.ContractState)
  unfolding deserialize_contract_state
  deserialize_truthy none = ok none
  deserialize_truthy (some s) =
      if is_empty s then ok none else deserialize_contract_state s >>= λ state. ok (some state)

-- `identifiers[contractActions.findIndex(...)]`
unfoldable pub identifier_of : Text → DeployTransaction → Option Text
identifier_of address t = elim (find_index address t.action_addresses) [
  | none ↦ none
  | some i ↦ get_elem? t.identifiers i
]

module _ {rt : Runtime} (d : Deserializers rt) (network : NetworkId) where
  unfoldable pub deserialize_zswap_state : Text → Result (Error rt) rt.ZswapChainState
  deserialize_zswap_state s = decode d.deserialize_zswap_state s (to_ledger_network_id network)

  unfoldable pub deserialize_transaction : Text → Result (Error rt) rt.LedgerTransaction
  deserialize_transaction s = decode d.deserialize_transaction s (to_ledger_network_id network)

  -- The object that the two watches of transactions make.
  unfoldable pub finalized : Option Text → TransactionData → Result (Error rt) (IndexedTxData rt)
  unfolding deserialize_transaction
  finalized tx_id t = do
    tx ← deserialize_transaction t.raw
    status ← to_tx_status t.apply_stage
    ok (record {
      tx = tx;
      status = status;
      tx_id = tx_id;
      tx_hash = t.tx_hash;
      block_height = t.block_height;
      block_hash = t.block_hash;
    })

  -- `deserializeZswapState` and `deserializeContractState` of an action, if there is one.
  unfoldable pub both_states :
      Option (Text × Text) → Result (Error rt) (Option (rt.ZswapChainState × rt.ContractState))
  unfolding deserialize_zswap_state
  both_states none = ok none
  both_states (some (chain, state)) = do
    zswap ← deserialize_zswap_state chain
    contract ← deserialize_contract_state network state
    ok (some (zswap, contract))

-- The state of a deployment, looked up among the actions of its transaction where it is given so.
unfoldable pub deploy_state :
    {rt : Runtime} → Text → Option DeployAction → Result (Error rt) (Option Text)
deploy_state address none = ok none
deploy_state address (some (deployed s)) = ok (some s)
deploy_state address (some (called actions)) = elim (find_state address actions) [
  | none ↦ err type_error
  | some s ↦ ok (some s)
]

-- `queryResult.data?.contractAction?.state ?? null`
unfoldable pub state_or_null : Option (Option Text) → Option Text
state_or_null none = none
state_or_null (some action) = action

-- Whether a poll for a transaction has found one: `data.transactions.length !== 0`.
unfoldable pub has_transactions :
    {rt : Runtime} → QueryResult (List TransactionData) → Result (Error rt) Bool
has_transactions result = data_of result >>= λ ts. ok (not (is_empty ts))

-- `data.transactions[0]!`, with a property of it read.
unfoldable pub first_transaction :
    {rt : Runtime} → QueryResult (List TransactionData) → Result (Error rt) TransactionData
first_transaction result =
    data_of result >>= λ ts. elim ts [ [] ↦ err type_error | t ∷ rest ↦ ok t ]

module _ {rt : Runtime} (client : Client rt) (network : NetworkId) where
  unfoldable pub query_contract_state :
      Text → Option BlockOffset → Result (Error rt) (Option rt.ContractState)
  query_contract_state address config = do
    answer ← client.contract_state address config
    result ← maybe_throw_errors answer
    deserialize_truthy network (state_or_null result.result_data)

  -- The answer's errors are not looked at.
  unfoldable pub query_deploy_contract_state : Text → Result (Error rt) (Option rt.ContractState)
  query_deploy_contract_state address = do
    answer ← client.deploy_contract_state address
    action ← data_of answer
    state ← deploy_state address action
    deserialize_truthy network state

  unfoldable pub wait_for_contract_to_appear : Text → Option BlockOffset → Stream (Error rt) Text
  wait_for_contract_to_appear address offset =
      let answers = map_try maybe_throw_errors (client.watch_contract_state address offset) in
      take_one (map_try action_of (filter_try has_action answers))

  unfoldable pub watch_for_contract_state : Text → Awaited (Error rt) rt.ContractState
  watch_for_contract_state address =
      first_value_from no_elements
        (map_try (deserialize_contract_state network) (wait_for_contract_to_appear address none))

module _ {rt : Runtime} (d : Deserializers rt) (client : Client rt) (network : NetworkId) where
  unfoldable pub query_zswap_and_contract_state :
      Text → Option BlockOffset → Result (Error rt) (Option (rt.ZswapChainState × rt.ContractState))
  query_zswap_and_contract_state address config = do
    answer ← client.contract_and_zswap_state address config
    result ← maybe_throw_errors answer
    action ← data_of result
    both_states d network action

  -- The filter comes before the check for errors.
  unfoldable pub watch_for_deploy_tx_data : Text → Awaited (Error rt) (IndexedTxData rt)
  watch_for_deploy_tx_data address =
      let answers = filter_try has_action (client.watch_deploy_tx address) in
      let transactions = map_try action_of (map_try maybe_throw_errors answers) in
      first_value_from no_elements
        (map_try (λ t. finalized d network (identifier_of address t) t.transaction) transactions)

  unfoldable pub watch_for_tx_data : Text → Awaited (Error rt) (IndexedTxData rt)
  watch_for_tx_data tx_id =
      let answers =
        filter_try has_transactions (map_try maybe_throw_errors (client.watch_tx_id tx_id)) in
      first_value_from no_elements
        (map_try (finalized d network (some tx_id)) (map_try first_transaction answers))
