-- ===== src/Contracts/DeployTx/Atomicity.antt =====
-- What a deployment leaves in the private stores, when it resolves and when it rejects.
use midnight_js.Prelude.{◌≡◌, refl, ◌⊎◌, inl, inr, not, Option, none, some, Text, ok, err, arith}
use midnight_js.Prelude.Exec.Triples.{
  Triple, Triple-bind, Triple-returned, Triple-assume, Triple-pure, Triple-weaken_rejects,
  Triple-throw_when, Triple-resolves, Triple-rejects,
}
use midnight_js.Contracts.Runtime.{Runtime}
use midnight_js.Contracts.World.{
  Local, World, M, Providers, Error, FinalizedTxData, succeed_entirely, is_success,
}
use midnight_js.Contracts.World.Writes.{
  HasLocal, with_private_state, with_signing_key, set_private_state_triple, set_signing_key_triple,
}
use midnight_js.Contracts.Submit.{submit_tx}
use midnight_js.Contracts.Submit.Frames.{submit_tx-KeepsLocal}
use midnight_js.Contracts.CallTx.Atomicity.{Returned, is_success_iff}
use midnight_js.Contracts.DeployTx.{
  DeployTxOptions, UnsubmittedDeployTxData, FinalizedDeployTxData, create_unproven_deploy_tx,
  store_initial_state, submit_deploy_tx,
}
use midnight_js.Contracts.DeployTx.Frames.{create_unproven_deploy_tx-KeepsLocal}

abbrev pub with_initial_state : {rt : Runtime} → Local rt → Option Text → rt.PrivateState → Local rt
with_initial_state l none state = l
with_initial_state l (some id) state = with_private_state l id state

module _ (rt : Runtime) (p : Providers rt) where
  -- The private store's writes were reached: the created transaction was submitted and succeeded
  -- entirely, and the constructor's private state is stored, with the signing key or without it.
  pub record StoredDeploy (l : Local rt) (options : DeployTxOptions rt) (w : World rt)
      : Type 0 where
    pub unsubmitted : UnsubmittedDeployTxData rt
    pub finalized : FinalizedTxData rt
    pub created : Returned rt (create_unproven_deploy_tx rt p options) unsubmitted
    pub submission :
        Returned rt
          (submit_tx rt p (record {
            unproven_tx = unsubmitted.unproven_tx;
            new_coins = unsubmitted.new_coins;
            circuit_id = none;
          }))
          finalized
    pub success : finalized.status ≡ succeed_entirely
    pub stored :
        HasLocal (with_initial_state l options.private_state_id unsubmitted.initial_private_state) w
        ⊎ HasLocal
            (with_signing_key
              (with_initial_state l options.private_state_id unsubmitted.initial_private_state)
              unsubmitted.contract_address
              unsubmitted.signing_key)
            w

module _ (rt : Runtime) (p : Providers rt) (l : Local rt) where
  store_initial_state_triple :
      (id : Option Text) (state : rt.PrivateState)
      → Triple
          (HasLocal l)
          (store_initial_state rt p id state)
          (λ _. HasLocal (with_initial_state l id state))
          (λ _ w. HasLocal l w ⊎ HasLocal (with_initial_state l id state) w)
  unfolding store_initial_state
  store_initial_state_triple none state = Triple-pure _ λ w h. h
  store_initial_state_triple (some id) state = set_private_state_triple rt p l id state

  module _ (options : DeployTxOptions rt) where
    abbrev Rejected : Error rt → World rt → Type 0
    Rejected e w = HasLocal l w ⊎ StoredDeploy rt p l options w

    -- A step that does not reach the writes.
    quiet :
        {A : Type 0} {P : World rt → Type 0} {Q : A → World rt → Type 0} {m : M rt A}
        → Triple P m Q (λ _. HasLocal l)
        → Triple P m Q Rejected
    quiet {m} h = Triple-weaken_rejects m h λ e w k. inl k

    submit_deploy_tx_triple :
        Triple
          (HasLocal l)
          (submit_deploy_tx rt p options)
          (λ d w.
            (d.finalized.status ≡ succeed_entirely)
            × HasLocal
                (with_signing_key
                  (with_initial_state l options.private_state_id
                    d.unsubmitted.initial_private_state)
                  d.unsubmitted.contract_address
                  d.unsubmitted.signing_key)
                w)
          Rejected
    unfolding submit_deploy_tx
    submit_deploy_tx_triple =
        Triple-bind _ _
          (quiet (Triple-returned l _ (create_unproven_deploy_tx-KeepsLocal rt p options)))
          λ u. Triple-assume _ λ created.
            Triple-bind _ _ (quiet (Triple-returned l _ (submit_tx-KeepsLocal rt p _))) λ f.
              Triple-assume _ λ submission.
                Triple-bind {R = λ _ w. (f.status ≡ succeed_entirely) × HasLocal l w} _ _
                  (Triple-throw_when (not (is_success f.status)) _
                    (λ e w h. (is_success_iff f.status (ground arith), h)) (λ e w h. inl h))
                  λ _. Triple-assume _ λ success.
                    let reached : (w : World rt) → _ → StoredDeploy rt p l options w = λ w h.
                      record {
                        unsubmitted = u;
                        finalized = f;
                        created = created;
                        submission = submission;
                        success = success;
                        stored = h;
                      } in
                    Triple-bind _ _
                      (Triple-weaken_rejects _
                        (store_initial_state_triple options.private_state_id
                          u.initial_private_state)
                        λ e w. elim [ inl h ↦ inl h | inr h ↦ inr (reached w (inl h)) ])
                      λ _.
                        Triple-bind _ _
                          (Triple-weaken_rejects _
                            (set_signing_key_triple rt p
                              (with_initial_state l options.private_state_id
                                u.initial_private_state)
                              u.contract_address u.signing_key)
                            λ e w h. inr (reached w h))
                          λ _. Triple-pure _ λ w h. (success, h)

module _ (rt : Runtime) (p : Providers rt) (options : DeployTxOptions rt) (w w' : World rt) where
  -- A deployment that resolves has a transaction that succeeded entirely; it has stored the
  -- constructor's private state under the given identifier, if there is one, and the signing key
  -- under the new contract's address, and nothing else.
  pub submit_deploy_tx_success :
      (d : FinalizedDeployTxData rt)
      → submit_deploy_tx rt p options w ≡ (ok d, w')
      → (d.finalized.status ≡ succeed_entirely)
        × (w'.local
            ≡ with_signing_key
                (with_initial_state w.local options.private_state_id
                  d.unsubmitted.initial_private_state)
                d.unsubmitted.contract_address
                d.unsubmitted.signing_key)
  submit_deploy_tx_success d e =
      Triple-resolves (submit_deploy_tx_triple rt p w.local options) refl e

  -- A deployment that rejects has changed nothing in the private stores; or the transaction that it
  -- created was submitted and succeeded entirely, and the constructor's private state is stored under the given
  -- identifier, if there is one, with the signing key under the new contract's address or without.
  pub submit_deploy_tx_failure :
      (e : Error rt)
      → submit_deploy_tx rt p options w ≡ (err e, w')
      → (w'.local ≡ w.local) ⊎ StoredDeploy rt p w.local options w'
  submit_deploy_tx_failure e q =
      Triple-rejects (submit_deploy_tx_triple rt p w.local options) refl q
