-- ===== src/Contracts/Maintenance.antt =====
-- packages/contracts/src/submit-insert-vk-tx.ts, submit-remove-vk-tx.ts and
-- submit-replace-authority-tx.ts: maintenance of a deployed contract.
pub mod Atomicity
use midnight_js.Prelude.{not, true, Bool, false, Option, none, some, List, [], ◌∷◌, ℕ, Text}
use midnight_js.Prelude.Exec.{pure, throw_when, assert_defined, assert_undefined, ◌>>=◌, ◌>>◌}
use midnight_js.Contracts.Runtime.{Runtime}
use midnight_js.Contracts.World.{
  M, Providers, Error, FinalizedTxData, FailedTx, insert_verifier_key_tx, remove_verifier_key_tx,
  replace_maintenance_authority_tx, is_success, tx_failed, circuit_already_defined,
  circuit_undefined, no_contract_state, no_signing_key, outside_call, check_address,
  get_signing_key, set_signing_key,
}
use midnight_js.Contracts.LedgerTx.{
  create_unproven_insert_verifier_key_tx, create_unproven_remove_verifier_key_tx,
  create_unproven_replace_authority_tx,
}
use midnight_js.Contracts.Submit.{submit_tx}

-- `if (signingKey)` on a string
abbrev pub truthy_text : Text → Bool
truthy_text [] = false
truthy_text (c ∷ s) = true

module _ (rt : Runtime) (p : Providers rt) where
  query_state : Text → M rt rt.ContractState
  query_state address = do
    found ← outside_call rt (p.query_contract_state address)
    assert_defined (λ _. true) (no_contract_state address) found

  stored_key : Text → M rt Text
  stored_key address = do
    found ← get_signing_key rt p address
    assert_defined truthy_text (no_signing_key address) found

  -- The last steps of the three functions: submit, and throw on any status but success.
  pub submit_maintenance_tx : FailedTx → rt.UnprovenTransaction → M rt (FinalizedTxData rt)
  submit_maintenance_tx kind tx = do
    result ← submit_tx rt p (record { unproven_tx = tx; new_coins = []; circuit_id = none })
    throw_when (not (is_success result.status)) (tx_failed kind result none)
    pure result

  unfoldable pub submit_insert_verifier_key_tx : Text → Text → List ℕ → M rt (FinalizedTxData rt)
  unfolding query_state stored_key submit_maintenance_tx
  submit_insert_verifier_key_tx address circuit_id new_key = do
    check_address rt address
    state ← query_state address
    assert_undefined (λ _. true) (circuit_already_defined circuit_id)
        (rt.operation state circuit_id)
    signing_key ← stored_key address
    tx ← create_unproven_insert_verifier_key_tx rt address circuit_id new_key state signing_key
    submit_maintenance_tx insert_verifier_key_tx tx

  unfoldable pub submit_remove_verifier_key_tx : Text → Text → M rt (FinalizedTxData rt)
  unfolding query_state stored_key submit_maintenance_tx
  submit_remove_verifier_key_tx address circuit_id = do
    check_address rt address
    state ← query_state address
    assert_defined (λ _. true) (circuit_undefined circuit_id) (rt.operation state circuit_id)
    signing_key ← stored_key address
    tx ← create_unproven_remove_verifier_key_tx rt address circuit_id state signing_key
    submit_maintenance_tx remove_verifier_key_tx tx

  unfoldable pub submit_replace_authority_tx : Text → Text → M rt (FinalizedTxData rt)
  unfolding query_state stored_key submit_maintenance_tx
  submit_replace_authority_tx address new_authority = do
    check_address rt address
    state ← query_state address
    current ← stored_key address
    tx ← create_unproven_replace_authority_tx rt address new_authority state current
    result ← submit_maintenance_tx replace_maintenance_authority_tx tx
    set_signing_key rt p address new_authority
    pure result
