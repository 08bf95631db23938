-- ===== src/Contracts/DeployTx.antt =====
-- packages/contracts/src/unproven-deploy-tx.ts and submit-deploy-tx.ts: deploying a contract.
pub mod Frames
pub mod Atomicity
use midnight_js.Prelude.{not, Option, none, some, List, [], ◌∷◌, ℕ, Text, keys}
use midnight_js.Prelude.Exec.{pure, throw_when, ◌>>=◌, ◌>>◌}
use midnight_js.Contracts.Runtime.{Runtime, CoinInfo, ZswapLocalState, Contract}
use midnight_js.Contracts.World.{
  M, Providers, FinalizedTxData, is_success, deploy_tx, tx_failed, get_zswap_network_id,
  parse_coin_public_key_to_hex, set_private_state, set_signing_key, get_verifier_keys,
}
use midnight_js.Contracts.Zswap.{zswap_state_to_new_coins}
use midnight_js.Contracts.LedgerTx.{create_unproven_ledger_deploy_tx}
use midnight_js.Contracts.Call.{ContractConstructorOptions, call_contract_constructor}
use midnight_js.Contracts.Submit.{submit_tx}

pub record DeployTxOptions (rt : Runtime) : Type 0 where
  pub contract : Contract rt
  pub args : Option rt.Args
  pub signing_key : Text
  pub initial_private_state : Option rt.PrivateState
  pub private_state_id : Option Text

pub record UnsubmittedDeployTxData (rt : Runtime) : Type 0 where
  pub contract_address : Text
  pub initial_contract_state : rt.ContractState
  pub signing_key : Text
  pub initial_private_state : rt.PrivateState
  pub initial_zswap_state : ZswapLocalState
  pub unproven_tx : rt.UnprovenTransaction
  pub new_coins : List CoinInfo

pub record FinalizedDeployTxData (rt : Runtime) : Type 0 where
  pub unsubmitted : UnsubmittedDeployTxData rt
  pub finalized : FinalizedTxData rt

-- `Object.keys(contract.impureCircuits)`: packages/types/src/contract.ts
unfoldable pub get_impure_circuit_ids : {rt : Runtime} → Contract rt → List Text
get_impure_circuit_ids contract = keys contract.impure_circuits

module _ (rt : Runtime) where
  abbrev create_contract_constructor_options :
      DeployTxOptions rt → Text → ContractConstructorOptions rt
  create_contract_constructor_options options coin_public_key = record {
    contract = options.contract;
    args = options.args;
    coin_public_key = coin_public_key;
    initial_private_state = options.initial_private_state;
  }

  unfoldable pub create_unproven_deploy_tx_from_verifier_keys :
      List (Text × List ℕ) → Text → DeployTxOptions rt → Text → M rt (UnsubmittedDeployTxData rt)
  create_unproven_deploy_tx_from_verifier_keys verifier_keys coin_public_key options
        encryption_public_key =
      do
        constructed ←
            call_contract_constructor rt
              (create_contract_constructor_options options coin_public_key)
        deploy ←
            create_unproven_ledger_deploy_tx rt verifier_keys options.signing_key
              constructed.next_contract_state constructed.next_zswap_local_state
              encryption_public_key
        pure (record {
          contract_address = deploy.0;
          initial_contract_state = deploy.1;
          signing_key = options.signing_key;
          initial_private_state = constructed.next_private_state;
          initial_zswap_state = constructed.next_zswap_local_state;
          unproven_tx = deploy.2;
          new_coins = zswap_state_to_new_coins coin_public_key constructed.next_zswap_local_state;
        })

module _ (rt : Runtime) (p : Providers rt) where
  unfoldable pub create_unproven_deploy_tx : DeployTxOptions rt → M rt (UnsubmittedDeployTxData rt)
  create_unproven_deploy_tx options = do
    verifier_keys ← get_verifier_keys rt p (get_impure_circuit_ids options.contract)
    id ← get_zswap_network_id rt
    coin_key ← parse_coin_public_key_to_hex rt p.coin_public_key id
    create_unproven_deploy_tx_from_verifier_keys rt verifier_keys coin_key options
        p.encryption_public_key

  -- the write of the initial private state, if there is an identifier
  unfoldable pub store_initial_state : Option Text → rt.PrivateState → M rt (Unit {0})
  store_initial_state none state = pure tt
  store_initial_state (some id) state = set_private_state rt p id state

  unfoldable pub submit_deploy_tx : DeployTxOptions rt → M rt (FinalizedDeployTxData rt)
  unfolding store_initial_state
  submit_deploy_tx options = do
    unsubmitted ← create_unproven_deploy_tx options
    finalized ← submit_tx rt p (record {
      unproven_tx = unsubmitted.unproven_tx;
      new_coins = unsubmitted.new_coins;
      circuit_id = none;
    })
    throw_when (not (is_success finalized.status)) (tx_failed deploy_tx finalized none)
    store_initial_state options.private_state_id unsubmitted.initial_private_state
    set_signing_key rt p unsubmitted.contract_address unsubmitted.signing_key
    pure (record { unsubmitted = unsubmitted; finalized = finalized })
