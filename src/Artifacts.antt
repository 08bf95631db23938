-- ===== src/Artifacts.antt =====
-- Where the zero-knowledge artifacts and the proofs come from:
-- packages/fetch-zk-config-provider/src/fetch-zk-config-provider.ts,
-- packages/node-zk-config-provider/src/node-zk-config-provider.ts and
-- packages/http-client-proof-provider/src/http-client-proof-provider.ts. `fetch`, URLs, paths, files and
-- the Borsh writer are arguments.
pub mod Laws
use midnight_js.Prelude.{
  ℕ, Bool, not, ◌||◌, Option, none, some, List, [], ◌∷◌, ◌++◌, Text, codes, text_eq, Result, ok,
  err, if◌then◌else◌,
}
use mathlib.Core.Option
use midnight_js.Prelude.Exec.{Exec, pure, throw, lift, throw_when, ◌>>=◌, ◌>>◌}
use midnight_js.NetworkId.{NetworkId, NetworkIdError, TargetNetworkId, to_ledger_network_id}
use midnight_js.Contracts.Runtime.{Runtime}
use midnight_js.Contracts.World.{ZkConfig, map_err}

-- `T` is what the arguments throw.
pub data ProviderError (T : Type 0) : Type 0 where
  invalid_protocol : Text → ProviderError T
  failed_response : Text → ProviderError T
  network_id_error : NetworkIdError → ProviderError T
  thrown : T → ProviderError T

-- A response of `fetch`; its body is read by a further call, which may reject.
pub record FetchResponse (T S : Type 0) : Type 0 where
  pub is_ok : Bool
  pub status_text : Text
  pub array_buffer : Exec (ProviderError T) S (List ℕ)

-- `protocol` is that of the parsed URL.
unfoldable pub check_protocol : {T : Type 0} → Text → Result (ProviderError T) (Unit {0})
check_protocol protocol =
    if not (text_eq protocol (codes "http:") || text_eq protocol (codes "https:"))
    then err (invalid_protocol protocol)
    else ok tt

-- `${this.baseURL}/${url}/${circuitId}${ext}`
unfoldable pub request_url : Text → Text → Text → Text → Text
request_url base url circuit_id ext =
    base ++ (codes "/" ++ (url ++ (codes "/" ++ (circuit_id ++ ext))))

module _ {T S : Type 0} (fetch : Text → Exec (ProviderError T) S (FetchResponse T S))
    (base : Text) where
  unfoldable pub send_request : Text → Text → Text → Exec (ProviderError T) S (List ℕ)
  unfolding request_url
  send_request url circuit_id ext = do
    response ← fetch (request_url base url circuit_id ext)
    throw_when (not response.is_ok) (failed_response response.status_text)
    response.array_buffer

  unfoldable pub fetch_prover_key : Text → Exec (ProviderError T) S (List ℕ)
  fetch_prover_key circuit_id = send_request (codes "keys") circuit_id (codes ".prover")

  unfoldable pub fetch_verifier_key : Text → Exec (ProviderError T) S (List ℕ)
  fetch_verifier_key circuit_id = send_request (codes "keys") circuit_id (codes ".verifier")

  unfoldable pub fetch_zkir : Text → Exec (ProviderError T) S (List ℕ)
  fetch_zkir circuit_id = send_request (codes "zkir") circuit_id (codes ".bzkir")

module _ {T S : Type 0} (read : Text → Exec (ProviderError T) S (List ℕ))
    (join : Text → Text → Text → Text) (directory : Text) where
  unfoldable pub read_file : Text → Text → Text → Exec (ProviderError T) S (List ℕ)
  read_file sub_dir circuit_id ext = read (join directory sub_dir (circuit_id ++ ext))

  unfoldable pub read_prover_key : Text → Exec (ProviderError T) S (List ℕ)
  read_prover_key circuit_id = read_file (codes "keys") circuit_id (codes ".prover")

  unfoldable pub read_verifier_key : Text → Exec (ProviderError T) S (List ℕ)
  read_verifier_key circuit_id = read_file (codes "keys") circuit_id (codes ".verifier")

  unfoldable pub read_zkir : Text → Exec (ProviderError T) S (List ℕ)
  read_zkir circuit_id = read_file (codes "zkir") circuit_id (codes ".bzkir")

-- What the Borsh writer adds for each of its calls.
pub record BinaryWriter : Type 0 where
  pub u32 : ℕ → List ℕ
  pub string : Text → List ℕ
  pub fixed : List ℕ → List ℕ

unfoldable pub serialize_zk_config : BinaryWriter → Option ZkConfig → List ℕ
serialize_zk_config writer none = writer.u32 0
serialize_zk_config writer (some config) =
    writer.u32 1
    ++ (writer.string config.circuit_id
        ++ (writer.fixed config.prover_key
            ++ (writer.fixed config.verifier_key ++ writer.fixed config.zkir)))

-- The serialisation of transactions by the ledger.
pub record TransactionCodec (rt : Runtime) : Type 0 where
  pub serialize : rt.UnprovenTransaction → TargetNetworkId → Result rt.ExtError (List ℕ)
  pub deserialize : List ℕ → TargetNetworkId → Result rt.ExtError rt.UnbalancedTransaction

module _ {rt : Runtime} {S : Type 0} (codec : TransactionCodec rt) (writer : BinaryWriter)
    (network : NetworkId) where
  abbrev ledger_network : Exec (ProviderError rt.ExtError) S TargetNetworkId
  ledger_network = lift (map_err network_id_error (to_ledger_network_id network))

  -- The request's body: the transaction, and then the configuration.
  unfoldable pub serialize_payload :
      rt.UnprovenTransaction → Option ZkConfig → Exec (ProviderError rt.ExtError) S (List ℕ)
  unfolding serialize_zk_config
  serialize_payload tx config = do
    id ← ledger_network
    bytes ← lift (map_err thrown (codec.serialize tx id))
    pure (bytes ++ serialize_zk_config writer config)

  unfoldable pub deserialize_payload :
      List ℕ → Exec (ProviderError rt.ExtError) S rt.UnbalancedTransaction
  deserialize_payload bytes = do
    id ← ledger_network
    lift (map_err thrown (codec.deserialize bytes id))

  -- `post` sends a body with a timeout, in milliseconds, and retries as it is configured.
  unfoldable pub prove_tx :
      (post : List ℕ → ℕ → Exec (ProviderError rt.ExtError) S (FetchResponse rt.ExtError S))
      → rt.UnprovenTransaction
      → Option ZkConfig
      → Option ℕ
      → Exec (ProviderError rt.ExtError) S rt.UnbalancedTransaction
  unfolding serialize_payload deserialize_payload
  prove_tx post tx config timeout = do
    body ← serialize_payload tx config
    response ← post body (Option.get_or timeout 300000)
    throw_when (not response.is_ok) (failed_response response.status_text)
    bytes ← response.array_buffer
    deserialize_payload bytes
