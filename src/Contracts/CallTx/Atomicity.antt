-- ===== src/Contracts/CallTx/Atomicity.antt =====
-- What a circuit call leaves in the private stores, when it resolves and when it rejects.
use midnight_js.Prelude.{
  ◌≡◌, refl, ◌⊎◌, inl, inr, Bool, true, false, not, Option, none, some, Text, ok, err,
  if◌then◌else◌, arith,
}
use midnight_js.Prelude.Exec.{pure}
use midnight_js.Prelude.Exec.Frames.{Frames-lift, Frames-throw_when}
use midnight_js.Prelude.Exec.Triples.{
  Triple, Triple-bind, Triple-frame, Triple-returned, Triple-assume, Triple-weaken_rejects,
  Triple-pure, Triple-throw_when, Triple-resolves, Triple-rejects,
}
use midnight_js.Contracts.Runtime.{Runtime}
use midnight_js.Contracts.World.{
  Local, World, M, Providers, Error, TxStatus, FinalizedTxData, succeed_entirely, fail_entirely,
  fail_fallible, is_success, set_private_state,
}
use midnight_js.Contracts.World.Writes.{HasLocal, with_private_state, set_private_state_triple}
use midnight_js.Contracts.Submit.{submit_tx}
use midnight_js.Contracts.Submit.Frames.{submit_tx-KeepsLocal}
use midnight_js.Contracts.UnprovenCallTx.{
  CallTxOptions, UnsubmittedCallTxData, create_unproven_call_tx,
}
use midnight_js.Contracts.UnprovenCallTx.Frames.{
  assert_circuit-KeepsLocal, create_unproven_call_tx-KeepsLocal,
}
use midnight_js.Contracts.CallTx.{FinalizedCallTxData, store_private_state, submit_call_tx}

pub is_success_iff : (s : TxStatus) → is_success s ≡ true → s ≡ succeed_entirely
unfolding is_success
is_success_iff succeed_entirely h = refl
is_success_iff fail_entirely h = cc
is_success_iff fail_fallible h = cc

module _ {rt : Runtime} where
  -- The local state after a successful call: a write under the identifier, if there is one.
  abbrev pub after_call : Providers rt → Local rt → Option Text → rt.PrivateState → Local rt
  after_call p l none state = l
  after_call p l (some id) state =
      if p.has_private_state_provider then with_private_state l id state else l

  abbrev pub next_state_of : FinalizedCallTxData rt → rt.PrivateState
  next_state_of d = d.unsubmitted.call_result.private_part.next_private_state

-- A run of the action has returned this.
abbrev pub Returned : (rt : Runtime) {A : Type 0} → M rt A → A → Type 0
Returned rt m a = (w : World rt) × (w' : World rt) × (m w ≡ (ok a, w'))

module _ (rt : Runtime) (p : Providers rt) where
  -- The private store's write was reached: the created transaction was submitted and succeeded
  -- entirely, and the next private state of its circuit run is stored.
  pub record StoredCall (l : Local rt) (options : CallTxOptions rt) (w : World rt) : Type 0 where
    pub unsubmitted : UnsubmittedCallTxData rt
    pub finalized : FinalizedTxData rt
    pub created : Returned rt (create_unproven_call_tx rt p options) unsubmitted
    pub submission :
        Returned rt
          (submit_tx rt p (record {
            unproven_tx = unsubmitted.unproven_tx;
            new_coins = unsubmitted.new_coins;
            circuit_id = some options.circuit_id;
          }))
          finalized
    pub success : finalized.status ≡ succeed_entirely
    pub stored :
        w.local
        ≡ after_call p l options.private_state_id
            unsubmitted.call_result.private_part.next_private_state

module _ (rt : Runtime) (p : Providers rt) (l : Local rt) where
  write_when_triple :
      (b : Bool) (id : Text) (state : rt.PrivateState)
      → Triple
          (HasLocal l)
          (if b then set_private_state rt p id state else pure tt)
          (λ _. HasLocal (if b then with_private_state l id state else l))
          (λ _ w. HasLocal l w ⊎ HasLocal (if b then with_private_state l id state else l) w)
  write_when_triple true id state = set_private_state_triple rt p l id state
  write_when_triple false id state = Triple-pure _ λ w h. h

  store_private_state_triple :
      (id : Option Text) (state : rt.PrivateState)
      → Triple
          (HasLocal l)
          (store_private_state rt p id state)
          (λ _. HasLocal (after_call p l id state))
          (λ _ w. HasLocal l w ⊎ HasLocal (after_call p l id state) w)
  unfolding store_private_state
  store_private_state_triple none state = Triple-pure _ λ w h. h
  store_private_state_triple (some id) state =
      write_when_triple p.has_private_state_provider id state

  module _ (options : CallTxOptions rt) where
    abbrev Rejected : Error rt → World rt → Type 0
    Rejected e w = HasLocal l w ⊎ StoredCall rt p l options w

    -- A step that does not reach the write.
    quiet :
        {A : Type 0} {P : World rt → Type 0} {Q : A → World rt → Type 0} {m : M rt A}
        → Triple P m Q (λ _. HasLocal l)
        → Triple P m Q Rejected
    quiet {m} h = Triple-weaken_rejects m h λ e w k. inl k

    submit_call_tx_triple :
        Triple
          (HasLocal l)
          (submit_call_tx rt p options)
          (λ d w.
            (d.finalized.status ≡ succeed_entirely)
            × HasLocal (after_call p l options.private_state_id (next_state_of d)) w)
          Rejected
    unfolding submit_call_tx
    submit_call_tx_triple = Triple-bind _ _ (quiet (Triple-frame l _ (Frames-lift _))) λ _.
        Triple-bind _ _
          (quiet
            (Triple-frame l _ (assert_circuit-KeepsLocal rt options.contract options.circuit_id)))
          λ _. Triple-bind _ _ (quiet (Triple-frame l _ (Frames-throw_when _ _))) λ _.
            Triple-bind _ _
              (quiet (Triple-returned l _ (create_unproven_call_tx-KeepsLocal rt p options)))
              λ u. Triple-assume _ λ created.
                Triple-bind _ _ (quiet (Triple-returned l _ (submit_tx-KeepsLocal rt p _))) λ f.
                  Triple-assume _ λ submission.
                    Triple-bind {R = λ _ w. (f.status ≡ succeed_entirely) × HasLocal l w} _ _
                      (Triple-throw_when (not (is_success f.status)) _
                        (λ e w h. (is_success_iff f.status (ground arith), h)) (λ e w h. inl h))
                      λ _. Triple-assume _ λ success.
                        Triple-bind _ _
                          (Triple-weaken_rejects _
                            (store_private_state_triple options.private_state_id _)
                            λ e w. elim [
                              | inl h ↦ inl h
                              | inr h ↦ inr (record {
                                unsubmitted = u;
                                finalized = f;
                                created = created;
                                submission = submission;
                                success = success;
                                stored = h;
                              })
                            ])
                          λ _. Triple-pure _ λ w h. (success, h)

module _ (rt : Runtime) (p : Providers rt) (options : CallTxOptions rt) (w w' : World rt) where
  -- A call that resolves has a transaction that succeeded entirely, and has stored the next private
  -- state of the circuit run under the given identifier, if there is one, and nothing else.
  pub submit_call_tx_success :
      (d : FinalizedCallTxData rt)
      → submit_call_tx rt p options w ≡ (ok d, w')
      → (d.finalized.status ≡ succeed_entirely)
        × (w'.local ≡ after_call p w.local options.private_state_id (next_state_of d))
  submit_call_tx_success d e = Triple-resolves (submit_call_tx_triple rt p w.local options) refl e

  -- A call that rejects has changed no private state, no signing key and no network identifier; or
  -- the transaction that it created was submitted and succeeded entirely, and the store holds the
  -- next private state of the circuit run under the given identifier, if there is one.
  pub submit_call_tx_failure :
      (e : Error rt)
      → submit_call_tx rt p options w ≡ (err e, w')
      → (w'.local ≡ w.local) ⊎ StoredCall rt p w.local options w'
  submit_call_tx_failure e q = Triple-rejects (submit_call_tx_triple rt p w.local options) refl q
