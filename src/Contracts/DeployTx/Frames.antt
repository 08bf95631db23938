-- ===== src/Contracts/DeployTx/Frames.antt =====
-- Creating an unproven deploy transaction: what is left of the private states and signing keys.
use midnight_js.Prelude.{ℕ, List, Text}
use midnight_js.Prelude.Exec.Frames.{frame_rules}
use midnight_js.Contracts.Runtime.{Runtime}
use midnight_js.Contracts.World.{Providers}
use midnight_js.Contracts.World.Frames.{KeepsLocal, local_rules}
use midnight_js.Contracts.LedgerTx.Frames.{create_unproven_ledger_deploy_tx-KeepsLocal}
use midnight_js.Contracts.Call.Frames.{call_contract_constructor-KeepsLocal}
use midnight_js.Contracts.DeployTx.{
  DeployTxOptions, create_unproven_deploy_tx, create_unproven_deploy_tx_from_verifier_keys,
}

module _ (rt : Runtime) where
  from_verifier_keys-KeepsLocal :
      (keys : List (Text × List ℕ)) (coin_key : Text) (options : DeployTxOptions rt)
      (encryption_key : Text)
      → KeepsLocal {rt = rt}
          (create_unproven_deploy_tx_from_verifier_keys rt keys coin_key options encryption_key)
  unfolding create_unproven_deploy_tx_from_verifier_keys
  from_verifier_keys-KeepsLocal keys coin_key options encryption_key =
      search
        (
          frame_rules, call_contract_constructor-KeepsLocal,
          create_unproven_ledger_deploy_tx-KeepsLocal,
        )
        depth 8

module _ (rt : Runtime) (p : Providers rt) where
  pub create_unproven_deploy_tx-KeepsLocal :
      (options : DeployTxOptions rt) → KeepsLocal {rt = rt} (create_unproven_deploy_tx rt p options)
  unfolding create_unproven_deploy_tx
  create_unproven_deploy_tx-KeepsLocal options =
      search (local_rules, from_verifier_keys-KeepsLocal) depth 8
