-- ===== src/Contracts/Maintenance/Atomicity.antt =====
-- What maintenance transactions leave in the private stores.
use midnight_js.Prelude.{ℕ, ◌≡◌, refl, ◌⊎◌, inl, inr, true, not, List, Text, ok, err, arith}
use midnight_js.Prelude.Exec.Frames.{Frames-lift}
use midnight_js.Prelude.Exec.Triples.{
  Triple, Triple-bind, Triple-frame, Triple-returned, Triple-assume, Triple-both,
  Triple-weaken_rejects, Triple-pure, Triple-throw_when, Triple-resolves, Triple-rejects,
}
use midnight_js.Contracts.Runtime.{Runtime}
use midnight_js.Contracts.World.{
  Local, World, M, Providers, Error, FailedTx, FinalizedTxData, replace_maintenance_authority_tx,
  succeed_entirely, is_success,
}
use midnight_js.Contracts.World.Frames.{KeepsLocal, local_rules}
use midnight_js.Contracts.World.Writes.{HasLocal, with_signing_key, set_signing_key_triple}
use midnight_js.Contracts.LedgerTx.Frames.{
  create_unproven_insert_verifier_key_tx-KeepsLocal,
  create_unproven_remove_verifier_key_tx-KeepsLocal,
  create_unproven_replace_authority_tx-KeepsLocal,
}
use midnight_js.Contracts.LedgerTx.{create_unproven_replace_authority_tx}
use midnight_js.Contracts.Submit.Frames.{submit_tx-KeepsLocal}
use midnight_js.Contracts.CallTx.Atomicity.{Returned, is_success_iff}
use midnight_js.Contracts.Maintenance.{
  query_state, stored_key, submit_maintenance_tx, submit_insert_verifier_key_tx,
  submit_remove_verifier_key_tx, submit_replace_authority_tx,
}

module _ (rt : Runtime) (p : Providers rt) where
  query_state-KeepsLocal : (address : Text) → KeepsLocal {rt = rt} (query_state rt p address)
  unfolding query_state
  query_state-KeepsLocal address = search local_rules

  stored_key-KeepsLocal : (address : Text) → KeepsLocal {rt = rt} (stored_key rt p address)
  unfolding stored_key
  stored_key-KeepsLocal address = search local_rules

  submit_maintenance_tx-KeepsLocal :
      (kind : FailedTx) (tx : rt.UnprovenTransaction)
      → KeepsLocal {rt = rt} (submit_maintenance_tx rt p kind tx)
  unfolding submit_maintenance_tx
  submit_maintenance_tx-KeepsLocal kind tx = search (local_rules, submit_tx-KeepsLocal)

  ruleset maintenance_rules = (
    local_rules, query_state-KeepsLocal, stored_key-KeepsLocal, submit_maintenance_tx-KeepsLocal,
    create_unproven_insert_verifier_key_tx-KeepsLocal,
    create_unproven_remove_verifier_key_tx-KeepsLocal,
  )

  insert-KeepsLocal :
      (address id : Text) (key : List ℕ)
      → KeepsLocal {rt = rt} (submit_insert_verifier_key_tx rt p address id key)
  unfolding submit_insert_verifier_key_tx
  insert-KeepsLocal address id key = search maintenance_rules depth 10

  remove-KeepsLocal :
      (address id : Text) → KeepsLocal {rt = rt} (submit_remove_verifier_key_tx rt p address id)
  unfolding submit_remove_verifier_key_tx
  remove-KeepsLocal address id = search maintenance_rules depth 10

  submit_maintenance_tx_triple :
      (l : Local rt) (kind : FailedTx) (tx : rt.UnprovenTransaction)
      → Triple
          (HasLocal l)
          (submit_maintenance_tx rt p kind tx)
          (λ d w. (is_success d.status ≡ true) × HasLocal l w)
          (λ _. HasLocal l)
  unfolding submit_maintenance_tx
  submit_maintenance_tx_triple l kind tx =
      Triple-bind _ _ (Triple-frame l _ (submit_tx-KeepsLocal rt p _)) λ d.
        Triple-bind {R = λ _ w. (is_success d.status ≡ true) × HasLocal l w} _ _
          (Triple-throw_when (not (is_success d.status)) _ (λ e w h. (ground arith, h))
            (λ e w h. h))
          λ _. Triple-pure _ λ w h. h

  -- The private store's write was reached: the transaction that replaces the authority was submitted
  -- and succeeded entirely, and the new key is stored.
  pub record StoredKey (l : Local rt) (address new_key : Text) (w : World rt) : Type 0 where
    pub state : rt.ContractState
    pub current : Text
    pub tx : rt.UnprovenTransaction
    pub finalized : FinalizedTxData rt
    pub created :
        Returned rt (create_unproven_replace_authority_tx rt address new_key state current) tx
    pub submission :
        Returned rt (submit_maintenance_tx rt p replace_maintenance_authority_tx tx) finalized
    pub success : finalized.status ≡ succeed_entirely
    pub stored : HasLocal (with_signing_key l address new_key) w

  submit_maintenance_tx-Returned :
      (l : Local rt) (kind : FailedTx) (tx : rt.UnprovenTransaction)
      → Triple
          (HasLocal l)
          (submit_maintenance_tx rt p kind tx)
          (λ d w.
            (Returned rt (submit_maintenance_tx rt p kind tx) d × (is_success d.status ≡ true))
            × HasLocal l w)
          (λ _. HasLocal l)
  submit_maintenance_tx-Returned l kind tx =
      Triple-both _ (Triple-returned l _ (submit_maintenance_tx-KeepsLocal kind tx))
        (submit_maintenance_tx_triple l kind tx) (λ d w h k. ((h.0, k.0), k.1))

  module _ (l : Local rt) (address new_key : Text) where
    abbrev Rejected : Error rt → World rt → Type 0
    Rejected e w = HasLocal l w ⊎ StoredKey l address new_key w

    -- A step that does not reach the write.
    quiet :
        {A : Type 0} {P : World rt → Type 0} {Q : A → World rt → Type 0} {m : M rt A}
        → Triple P m Q (λ _. HasLocal l)
        → Triple P m Q Rejected
    quiet {m} h = Triple-weaken_rejects m h λ e w k. inl k

    replace_triple :
        Triple
          (HasLocal l)
          (submit_replace_authority_tx rt p address new_key)
          (λ d w. (d.status ≡ succeed_entirely) × HasLocal (with_signing_key l address new_key) w)
          Rejected
    unfolding submit_replace_authority_tx
    replace_triple = Triple-bind _ _ (quiet (Triple-frame l _ (Frames-lift _))) λ _.
        Triple-bind _ _ (quiet (Triple-frame l _ (query_state-KeepsLocal address))) λ state.
          Triple-bind _ _ (quiet (Triple-frame l _ (stored_key-KeepsLocal address))) λ current.
            Triple-bind _ _
              (quiet (
                Triple-returned l _ (
                  create_unproven_replace_authority_tx-KeepsLocal rt address new_key state
                    current)))
              λ tx. Triple-assume _ λ created.
                Triple-bind _ _ (quiet (submit_maintenance_tx-Returned l _ tx)) λ d.
                  Triple-assume _ λ (submission, success).
                    Triple-bind _ _
                      (Triple-weaken_rejects _ (set_signing_key_triple rt p l address new_key)
                        λ e w. elim [
                          | inl h ↦ inl h
                          | inr h ↦ inr (record {
                            state = state;
                            current = current;
                            tx = tx;
                            finalized = d;
                            created = created;
                            submission = submission;
                            success = is_success_iff d.status success;
                            stored = h;
                          })
                        ])
                      λ _. Triple-pure _ λ w h. (is_success_iff d.status success, h)

  -- Inserting and removing a verifier key changes no private state and no signing key, whether the
  -- transaction succeeds or not.
  pub key_updates_touch_no_store :
      (address id : Text) (key : List ℕ) (w : World rt)
      → ((submit_insert_verifier_key_tx rt p address id key w).1.local ≡ w.local)
        × ((submit_remove_verifier_key_tx rt p address id w).1.local ≡ w.local)
  key_updates_touch_no_store address id key w =
      ((insert-KeepsLocal address id key).at w, (remove-KeepsLocal address id).at w)

  -- A replacement of the authority that resolves has a transaction that succeeded entirely, and has
  -- stored the new key as the contract's signing key and changed nothing else.
  pub submit_replace_authority_tx_success :
      (address new_key : Text) (w w' : World rt) (d : FinalizedTxData rt)
      → submit_replace_authority_tx rt p address new_key w ≡ (ok d, w')
      → (d.status ≡ succeed_entirely) × (w'.local ≡ with_signing_key w.local address new_key)
  submit_replace_authority_tx_success address new_key w w' d e =
      Triple-resolves (replace_triple w.local address new_key) refl e

  -- One that rejects has changed nothing in the private stores, so the old key stays; or the
  -- transaction that it created was submitted and succeeded entirely, and the new key is stored.
  pub submit_replace_authority_tx_failure :
      (address new_key : Text) (w w' : World rt) (e : Error rt)
      → submit_replace_authority_tx rt p address new_key w ≡ (err e, w')
      → (w'.local ≡ w.local) ⊎ StoredKey w.local address new_key w'
  submit_replace_authority_tx_failure address new_key w w' e q =
      Triple-rejects (replace_triple w.local address new_key) refl q
