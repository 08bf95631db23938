-- ===== src/Indexer/Wrapper.antt =====
-- `indexerPublicDataProvider` of
-- packages/indexer-public-data-provider/src/indexer-public-data-provider.ts: the provider whose
-- contract addresses are checked, and sent with the network identifier before them.
pub mod Guards
use midnight_js.Prelude.{
  ℕ, Bool, true, false, not, ◌||◌, Option, none, some, List, [], ◌∷◌, ◌++◌, Text, codes, text_eq,
  Result, ok, err, if◌then◌else◌, ◌>>=◌, ◌>>◌,
}
use midnight_js.Hex.{assert_is_contract_address}
use midnight_js.NetworkId.{NetworkId, network_id_to_hex}
use midnight_js.Contracts.Runtime.{Runtime}
use midnight_js.Contracts.World.{map_err}
use midnight_js.Indexer.Streams.{Stream, Awaited}
use midnight_js.Indexer.{
  Error, hex_error, network_id_error, invalid_protocol, BlockOffset, IndexedTxData, Client,
  Deserializers,
}
use midnight_js.Indexer.Queries
use midnight_js.Indexer.Observables
use midnight_js.Indexer.Observables.{ObservableConfig, latest}

unfoldable pub prepend_network_id_hex : {rt : Runtime} → NetworkId → Text → Result (Error rt) Text
prepend_network_id_hex network address = do
  id ← map_err network_id_error (network_id_to_hex network)
  ok (id ++ address)

-- The checks of the two URLs' protocols.
unfoldable pub check_protocols : {rt : Runtime} → Text → Text → Result (Error rt) (Unit {0})
check_protocols query subscription =
    if not (text_eq query (codes "http:") || text_eq query (codes "https:"))
    then err (invalid_protocol query)
    else if not (text_eq subscription (codes "ws:") || text_eq subscription (codes "wss:"))
    then err (invalid_protocol subscription)
    else ok tt

-- The address that a method of the wrapper passes on.
unfoldable pub wrap : {rt : Runtime} → NetworkId → Text → Result (Error rt) Text
unfolding prepend_network_id_hex
wrap network address = do
  map_err hex_error (assert_is_contract_address address)
  prepend_network_id_hex network address

-- `config` of an observable, with the default of the inner provider.
unfoldable pub config_or_latest : Option ObservableConfig → ObservableConfig
config_or_latest none = latest
config_or_latest (some config) = config

module _ {rt : Runtime} (client : Client rt) (network : NetworkId) where
  unfoldable pub contract_state_observable :
      Text → Option ObservableConfig → Result (Error rt) (Stream (Error rt) rt.ContractState)
  contract_state_observable address config = do
    prefixed ← wrap network address
    ok (Observables.contract_state_observable client network prefixed (config_or_latest config))

  unfoldable pub query_contract_state :
      Text → Option BlockOffset → Result (Error rt) (Option rt.ContractState)
  query_contract_state address config = do
    prefixed ← wrap network address
    Queries.query_contract_state client network prefixed config

  unfoldable pub query_deploy_contract_state : Text → Result (Error rt) (Option rt.ContractState)
  query_deploy_contract_state address = do
    prefixed ← wrap network address
    Queries.query_deploy_contract_state client network prefixed

  unfoldable pub watch_for_contract_state :
      Text → Result (Error rt) (Awaited (Error rt) rt.ContractState)
  watch_for_contract_state address = do
    prefixed ← wrap network address
    ok (Queries.watch_for_contract_state client network prefixed)

module _ {rt : Runtime} (d : Deserializers rt) (client : Client rt) (network : NetworkId) where
  unfoldable pub query_zswap_and_contract_state :
      Text → Option BlockOffset → Result (Error rt) (Option (rt.ZswapChainState × rt.ContractState))
  query_zswap_and_contract_state address config = do
    prefixed ← wrap network address
    Queries.query_zswap_and_contract_state d client network prefixed config

  unfoldable pub watch_for_deploy_tx_data :
      Text → Result (Error rt) (Awaited (Error rt) (IndexedTxData rt))
  watch_for_deploy_tx_data address = do
    prefixed ← wrap network address
    ok (Queries.watch_for_deploy_tx_data d client network prefixed)

  unfoldable pub watch_for_tx_data : Text → Awaited (Error rt) (IndexedTxData rt)
  watch_for_tx_data tx_id = Queries.watch_for_tx_data d client network tx_id
