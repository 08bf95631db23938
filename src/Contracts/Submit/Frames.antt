-- ===== src/Contracts/Submit/Frames.antt =====
-- Submitting a transaction: what is left of the private states and signing keys.
use midnight_js.Prelude.{Option, none, some, [], ◌∷◌, Text}
use midnight_js.Prelude.Exec.Frames.{frame_rules}
use midnight_js.Contracts.Runtime.{Runtime}
use midnight_js.Contracts.World.{Providers}
use midnight_js.Contracts.World.Frames.{KeepsLocal, local_rules}
use midnight_js.Contracts.Submit.{SubmitTxOptions, prove_config, submit_tx}

module _ (rt : Runtime) (p : Providers rt) where
  prove_config-KeepsLocal : (id : Option Text) → KeepsLocal {rt = rt} (prove_config rt p id)
  unfolding prove_config
  prove_config-KeepsLocal none = search frame_rules
  prove_config-KeepsLocal (some []) = search frame_rules
  prove_config-KeepsLocal (some (c ∷ id)) = search local_rules

  pub submit_tx-KeepsLocal :
      (options : SubmitTxOptions rt) → KeepsLocal {rt = rt} (submit_tx rt p options)
  unfolding submit_tx
  submit_tx-KeepsLocal options = search (local_rules, prove_config-KeepsLocal) depth 8
