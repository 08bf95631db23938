-- ===== src/Contracts/World.antt =====
-- The state that packages/contracts/src works on, its errors (errors.ts), and the private state
-- provider as its interface promises it (packages/types/src/private-state-provider.ts).
pub mod Frames
pub mod Writes
use midnight_js.Prelude.{
  ℕ, Bool, true, false, Option, none, some, List, [], ◌∷◌, Text, Result, ok, err, update,
  if◌then◌else◌,
}
use midnight_js.Prelude.Exec.{Exec, pure, gets, modify, lift, ◌>>=◌, ◌>>◌}
use midnight_js.Hex.{HexError, assert_is_contract_address, is_hex, to_hex}
use midnight_js.NetworkId.{
  NetworkId, NetworkIdError, TargetNetworkId, to_ledger_network_id, to_runtime_network_id,
  to_zswap_network_id,
}
use midnight_js.Contracts.Runtime.{Runtime, Op, CoinInfo}

-- packages/types/src/midnight-types.ts
pub data TxStatus : Type 0 where
  fail_entirely fail_fallible succeed_entirely : TxStatus

-- `status === SucceedEntirely`
unfoldable pub is_success : TxStatus → Bool
is_success succeed_entirely = true
is_success fail_entirely = false
is_success fail_fallible = false

pub record FinalizedTxData (rt : Runtime) : Type 0 where
  pub tx : rt.LedgerTransaction
  pub status : TxStatus
  pub tx_id : Text
  pub tx_hash : Text
  pub block_hash : Text
  pub block_height : ℕ

-- The subclasses of TxFailedError.
pub data FailedTx : Type 0 where
  deploy_tx call_tx replace_maintenance_authority_tx remove_verifier_key_tx : FailedTx
  insert_verifier_key_tx : FailedTx

pub data Error (rt : Runtime) : Type 0 where
  hex_error : HexError → Error rt
  network_id_error : NetworkIdError → Error rt
  -- what a provider, a library or a circuit threw
  external : rt.ExtError → Error rt
  -- errors.ts
  tx_failed : FailedTx → FinalizedTxData rt → Option Text → Error rt
  contract_type_error : rt.ContractState → List Text → Error rt
  incomplete_call_tx_private_state_config : Error rt
  incomplete_find_contract_private_state_config : Error rt
  -- the assertions, by their messages
  circuit_undefined : Text → Error rt
  operation_undefined : Text → Error rt
  circuit_already_defined : Text → Error rt
  no_public_state : Text → Error rt
  no_private_state : Text → Error rt
  no_contract_deployed : Text → Error rt
  no_contract_state : Text → Error rt
  no_signing_key : Text → Error rt
  no_chain_state : Error rt
  unexpected_coin_key : Text → Error rt
  unsupported_coin : Error rt
  partition_count : ℕ → Error rt

-- What the program keeps on this side: the network identifier and the two private stores.
pub record Local (rt : Runtime) : Type 0 where
  pub network_id : NetworkId
  pub private_states : Text → Option rt.PrivateState
  pub signing_keys : Text → Option Text

pub record World (rt : Runtime) : Type 0 where
  pub local : Local rt
  pub ext : rt.Ext

abbrev pub local_of : {rt : Runtime} → World rt → Local rt
local_of w = w.local

abbrev pub M : Runtime → Type 0 → Type 0
M rt A = Exec (Error rt) (World rt) A

abbrev pub map_err : {E F A : Type 0} → (E → F) → Result E A → Result F A
map_err f (ok a) = ok a
map_err f (err e) = err (f e)

-- packages/types/src/midnight-types.ts
pub record ZkConfig : Type 0 where
  pub circuit_id : Text
  pub prover_key : List ℕ
  pub verifier_key : List ℕ
  pub zkir : List ℕ

-- MidnightProviders (packages/types/src/providers.ts): the calls of each provider.
-- `private_state_io` is the access to the private store's medium, which may reject. A write that it
-- rejects may have been stored all the same, since the store's interface promises nothing of it and
-- the level provider closes the database after the write: `stored_although_rejected` says when.
pub record Providers (rt : Runtime) : Type 0 where
  pub has_private_state_provider : Bool
  pub private_state_io : Op rt.outside (Unit {0})
  pub stored_although_rejected : rt.Ext → Bool
  pub get_prover_key : Text → Op rt.outside (List ℕ)
  pub get_verifier_key : Text → Op rt.outside (List ℕ)
  pub get_zkir : Text → Op rt.outside (List ℕ)
  pub prove_tx : rt.UnprovenTransaction → Option ZkConfig → Op rt.outside rt.UnbalancedTransaction
  pub coin_public_key : Text
  pub encryption_public_key : Text
  pub balance_tx : rt.UnbalancedTransaction → List CoinInfo → Op rt.outside rt.BalancedTransaction
  pub submit_tx : rt.BalancedTransaction → Op rt.outside Text
  pub query_contract_state : Text → Op rt.outside (Option rt.ContractState)
  pub query_deploy_contract_state : Text → Op rt.outside (Option rt.ContractState)
  pub query_zswap_and_contract_state :
      Text → Op rt.outside (Option (rt.ZswapChainState × rt.ContractState))
  pub watch_for_deploy_tx_data : Text → Op rt.outside (FinalizedTxData rt)
  pub watch_for_tx_data : Text → Op rt.outside (FinalizedTxData rt)

module _ (rt : Runtime) where
  -- A call that leaves the program.
  unfoldable pub outside_call : {A : Type 0} → Op rt.outside A → M rt A
  outside_call op w = let (r, ext') = op w.ext in (map_err external r, record w { ext = ext' })

  -- A call of a library function that may throw.
  abbrev pub library_call : {A : Type 0} → Result rt.ExtError A → M rt A
  library_call r = lift (map_err external r)

  abbrev pub check_address : Text → M rt (Unit {0})
  check_address address = lift (map_err hex_error (assert_is_contract_address address))

  -- `getZswapNetworkId()` and its two siblings
  unfoldable pub get_zswap_network_id : M rt TargetNetworkId
  get_zswap_network_id w = (map_err network_id_error (to_zswap_network_id w.local.network_id), w)

  unfoldable pub get_ledger_network_id : M rt TargetNetworkId
  get_ledger_network_id w = (map_err network_id_error (to_ledger_network_id w.local.network_id), w)

  unfoldable pub get_runtime_network_id : M rt TargetNetworkId
  get_runtime_network_id w =
      (map_err network_id_error (to_runtime_network_id w.local.network_id), w)

  unfoldable pub set_network_id : NetworkId → M rt (Unit {0})
  set_network_id id = modify (λ w. record w { local = record w.local { network_id = id } })

  -- packages/utils/src/hex-utils.ts: a hex key is returned as it is, any other is decoded.
  parse_key_to_hex :
      (TargetNetworkId → Text → Result rt.ExtError (List ℕ)) → Text → TargetNetworkId → M rt Text
  parse_key_to_hex decode key id = do
    hex ← lift (map_err hex_error (is_hex key none))
    if hex then pure key else do bytes ← library_call (decode id key); pure (to_hex bytes)

  unfoldable pub parse_coin_public_key_to_hex : Text → TargetNetworkId → M rt Text
  unfolding parse_key_to_hex
  parse_coin_public_key_to_hex = parse_key_to_hex rt.decode_coin_public_key

  unfoldable pub parse_enc_public_key_to_hex : Text → TargetNetworkId → M rt Text
  unfolding parse_key_to_hex
  parse_enc_public_key_to_hex = parse_key_to_hex rt.decode_enc_public_key

module _ (rt : Runtime) (p : Providers rt) where
  unfoldable pub get_private_state : Text → M rt (Option rt.PrivateState)
  get_private_state id = do
    outside_call rt p.private_state_io
    gets (λ w. w.local.private_states id)

  -- What a write leaves: one that resolves is stored, of one that rejects the medium says whether.
  abbrev pub after_write :
      {A : Type 0} → Result rt.ExtError A → Bool → Local rt → Local rt → Local rt
  after_write (ok a) stored l l' = l'
  after_write (err e) stored l l' = if stored then l' else l

  unfoldable pub write_store : (Local rt → Local rt) → M rt (Unit {0})
  write_store change w =
      let (r, ext') = p.private_state_io w.ext in
      (
        map_err external r,
        record w {
          local = after_write r (p.stored_although_rejected w.ext) w.local (change w.local);
          ext = ext';
        },
      )

  unfoldable pub set_private_state : Text → rt.PrivateState → M rt (Unit {0})
  unfolding write_store
  set_private_state id state =
      write_store (λ l. record l { private_states = update l.private_states id state })

  unfoldable pub get_signing_key : Text → M rt (Option Text)
  get_signing_key address = do
    outside_call rt p.private_state_io
    gets (λ w. w.local.signing_keys address)

  unfoldable pub set_signing_key : Text → Text → M rt (Unit {0})
  unfolding write_store
  set_signing_key address key =
      write_store (λ l. record l { signing_keys = update l.signing_keys address key })

  -- packages/types/src/zk-config-provider.ts
  unfoldable pub get_verifier_keys : List Text → M rt (List (Text × List ℕ))
  get_verifier_keys [] = pure []
  get_verifier_keys (id ∷ ids) = do
    key ← outside_call rt (p.get_verifier_key id)
    rest ← get_verifier_keys ids
    pure ((id, key) ∷ rest)

  unfoldable pub get_zk_config : Text → M rt ZkConfig
  get_zk_config id = do
    prover_key ← outside_call rt (p.get_prover_key id)
    verifier_key ← outside_call rt (p.get_verifier_key id)
    zkir ← outside_call rt (p.get_zkir id)
    pure (record {
      circuit_id = id;
      prover_key = prover_key;
      verifier_key = verifier_key;
      zkir = zkir;
    })
