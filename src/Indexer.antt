-- ===== src/Indexer.antt =====
-- packages/indexer-public-data-provider/src/indexer-public-data-provider.ts: the public data provider
-- over a GraphQL client. The client's answers are arguments; the network identifier, which the code
-- reads again at each use, does not change while a call runs.
pub mod Streams
pub mod Queries
pub mod Observables
pub mod Wrapper
use midnight_js.Prelude.{
  ℕ, ◌+◌, Bool, true, false, not, Option, none, some, List, [], ◌∷◌, length, get_elem?, is_empty,
  Text, text_eq, codes, if◌then◌else◌, Result, ok, err, ◌>>=◌, ◌>>◌,
}
use mathlib.Core.Option
use midnight_js.Hex.{HexError, from_hex}
use midnight_js.NetworkId.{
  NetworkId, NetworkIdError, TargetNetworkId, to_ledger_network_id, to_runtime_network_id,
}
use midnight_js.Contracts.Runtime.{Runtime}
use midnight_js.Contracts.World.{TxStatus, fail_entirely, fail_fallible, succeed_entirely, map_err}
use Streams.{Stream, Awaited, first_value_from, filter_try, map_try, take_one}

-- What the provider throws. `type_error` is the TypeError of reading a property of nothing.
pub data Error (rt : Runtime) : Type 0 where
  indexer_error : List Text → Error rt
  apollo_error : Text → Error rt
  type_error no_elements : Error rt
  unexpected_apply_stage : Text → Error rt
  invalid_protocol : Text → Error rt
  hex_error : HexError → Error rt
  network_id_error : NetworkIdError → Error rt
  external : rt.ExtError → Error rt

-- ApolloQueryResult and FetchResult
pub record QueryResult (D : Type 0) : Type 0 where
  pub result_data : Option D
  pub errors : List Text
  pub error : Option Text

pub data BlockOffset : Type 0 where
  height : ℕ → BlockOffset
  hash : Text → BlockOffset

-- A transaction of TX_ID_QUERY and of DEPLOY_TX_QUERY.
pub record TransactionData : Type 0 where
  pub raw : Text
  pub apply_stage : Text
  pub tx_hash : Text
  pub block_height : ℕ
  pub block_hash : Text

pub record DeployTransaction : Type 0 where
  pub transaction : TransactionData
  pub identifiers : List Text
  pub action_addresses : List Text

pub record ContractAction : Type 0 where
  pub state : Text
  pub address : Text

-- The answer of DEPLOY_CONTRACT_STATE_TX_QUERY: a call, with the actions of the deployment's
-- transaction, or a deployment or update, with its state.
pub data DeployAction : Type 0 where
  called : List ContractAction → DeployAction
  deployed : Text → DeployAction

pub record Transaction : Type 0 where
  pub identifiers : List Text
  pub contract_actions : List ContractAction

pub record Block : Type 0 where
  pub block_hash : Text
  pub block_height : ℕ
  pub transactions : List Transaction

-- FinalizedTxData, with an identifier that is `undefined` where the code indexes out of range.
pub record IndexedTxData (rt : Runtime) : Type 0 where
  pub tx : rt.LedgerTransaction
  pub status : TxStatus
  pub tx_id : Option Text
  pub tx_hash : Text
  pub block_height : ℕ
  pub block_hash : Text

-- The GraphQL client: a query answers once, a watched query at each poll, a subscription as the
-- server sends.
pub record Client (rt : Runtime) : Type 0 where
  pub contract_state : Text → Option BlockOffset → Result (Error rt) (QueryResult (Option Text))
  -- the chain state and the contract state
  pub contract_and_zswap_state :
      Text → Option BlockOffset → Result (Error rt) (QueryResult (Option (Text × Text)))
  pub deploy_contract_state : Text → Result (Error rt) (QueryResult (Option DeployAction))
  pub watch_contract_state :
      Text → Option BlockOffset → Stream (Error rt) (QueryResult (Option Text))
  pub watch_deploy_tx : Text → Stream (Error rt) (QueryResult (Option DeployTransaction))
  pub watch_tx_id : Text → Stream (Error rt) (QueryResult (List TransactionData))
  pub watch_latest_height : Text → Stream (Error rt) (QueryResult (Option ℕ))
  pub watch_block : BlockOffset → Stream (Error rt) (QueryResult (Option (Text × ℕ)))
  pub blocks_from : BlockOffset → Stream (Error rt) (QueryResult Block)
  pub contract_states_from : Text → Option BlockOffset → Stream (Error rt) (QueryResult Text)

-- The deserialisers of the ledger that the rest of the program does not use.
pub record Deserializers (rt : Runtime) : Type 0 where
  pub deserialize_zswap_state : List ℕ → TargetNetworkId → Result rt.ExtError rt.ZswapChainState
  pub deserialize_transaction : List ℕ → TargetNetworkId → Result rt.ExtError rt.LedgerTransaction

unfoldable pub find_state : Text → List ContractAction → Option Text
find_state address [] = none
find_state address (action ∷ actions) =
    let rest = find_state address actions in
    if text_eq action.address address then some action.state else rest

-- `findIndex`, with -1 as `none`
unfoldable pub find_index : Text → List Text → Option ℕ
find_index address [] = none
find_index address (a ∷ addresses) =
    let rest = find_index address addresses in
    if text_eq a address then some 0 else Option.map (λ i. i + 1) rest

unfoldable pub to_tx_status : {rt : Runtime} → Text → Result (Error rt) TxStatus
to_tx_status apply_stage =
    if text_eq apply_stage (codes "FailEntirely")
    then ok fail_entirely
    else if text_eq apply_stage (codes "FailFallible")
    then ok fail_fallible
    else if text_eq apply_stage (codes "SucceedEntirely")
    then ok succeed_entirely
    else err (unexpected_apply_stage apply_stage)

module _ {rt : Runtime} {D : Type 0} where
  unfoldable pub maybe_throw_graphql_errors : QueryResult D → Result (Error rt) (QueryResult D)
  maybe_throw_graphql_errors result =
      if is_empty result.errors then ok result else err (indexer_error result.errors)

  abbrev apollo_of : Option Text → QueryResult D → Result (Error rt) (QueryResult D)
  apollo_of none result = ok result
  apollo_of (some message) result = err (apollo_error message)

  unfoldable pub maybe_throw_apollo_error : QueryResult D → Result (Error rt) (QueryResult D)
  maybe_throw_apollo_error result = apollo_of result.error result

  unfoldable pub maybe_throw_errors : QueryResult D → Result (Error rt) (QueryResult D)
  unfolding maybe_throw_apollo_error maybe_throw_graphql_errors
  maybe_throw_errors result = do maybe_throw_apollo_error result; maybe_throw_graphql_errors result

  -- A property of `data`.
  abbrev pub data_of : QueryResult D → Result (Error rt) D
  data_of result = elim result.result_data [ none ↦ err type_error | some d ↦ ok d ]

module _ {rt : Runtime} {D : Type 0} where
  -- `data.contractAction !== null`
  abbrev pub has_action : QueryResult (Option D) → Result (Error rt) Bool
  has_action result = elim result.result_data [
    | none ↦ err type_error
    | some none ↦ ok false
    | some (some d) ↦ ok true
  ]

  -- `data.contractAction!` and a property of it.
  abbrev pub action_of : QueryResult (Option D) → Result (Error rt) D
  action_of result = elim result.result_data [
    | none ↦ err type_error
    | some none ↦ err type_error
    | some (some d) ↦ ok d
  ]
