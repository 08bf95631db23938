-- ===== src/Contracts/Find/Outcome.antt =====
-- What finding a contract leaves in the private stores when it resolves and when it rejects.
use midnight_js.Prelude.{
  ◌≡◌, ◌⊎◌, inl, inr, refl, ap, sym, ◌∙◌, false, Option, none, some, List, [], ◌∷◌, Text, ok,
  text_eq, ℕ,
}
use midnight_js.Prelude.Exec.{◌>>=◌}
use midnight_js.Prelude.Exec.Frames.{Frames-assert_defined}
use midnight_js.Prelude.Exec.Triples.{
  Triple, Triple-bind, Triple-frame, Triple-pure, Triple-weaken, Triple-weaken_rejects,
  Triple-resolves,
}
use midnight_js.Contracts.Runtime.{Runtime}
use midnight_js.Contracts.World.{Local, World, M, Providers}
use midnight_js.Contracts.World.Frames.{
  KeepsLocal, local_rules, outside_call-KeepsLocal, get_verifier_keys-KeepsLocal,
}
use midnight_js.Contracts.World.Writes.{HasLocal, HasStates}
use midnight_js.Contracts.Find.{
  FindDeployedContractOptions, FoundContractData, verify_contract_state, throw_mismatched,
  mismatched_circuit_ids, set_or_get_initial_private_state, find_deployed_contract,
}
use midnight_js.Contracts.Find.Stores.{
  HoldsKey, Reported, states_after, StateDone, Triple-start, set_or_get_initial_signing_key_triple,
  set_or_get_initial_private_state_triple,
}

-- The local state once the contract is found: the reported signing key is held, no other key has
-- changed, and the private states and the reported one are by what the caller gave.
pub record Found {rt : Runtime} (l : Local rt) (address : Text) (id : Option Text)
    (given : Option rt.PrivateState) (key : Text) (state : rt.PrivateState) (l' : Local rt)
    : Type 0 where
  pub held : l'.signing_keys address ≡ some key
  pub other_keys :
      (other : Text) → text_eq address other ≡ false → l'.signing_keys other ≡ l.signing_keys other
  pub states : l'.private_states ≡ states_after l id given
  pub reported : Reported l id given state

module _ (rt : Runtime) (p : Providers rt) where
  throw_mismatched-KeepsLocal :
      (state : rt.ContractState) (ids : List Text)
      → KeepsLocal {rt = rt} (throw_mismatched rt state ids)
  unfolding throw_mismatched
  throw_mismatched-KeepsLocal state [] = search local_rules
  throw_mismatched-KeepsLocal state (id ∷ ids) = search local_rules

  verify_contract_state-KeepsLocal :
      (keys : List (Text × List ℕ)) (state : rt.ContractState)
      → KeepsLocal {rt = rt} (verify_contract_state rt keys state)
  unfolding verify_contract_state
  verify_contract_state-KeepsLocal keys state =
      throw_mismatched-KeepsLocal state (mismatched_circuit_ids rt keys state)

-- What is read of the private states is the same once a signing key has changed.
states_after-same :
    {rt : Runtime} (l l₁ : Local rt) (id : Option Text) (given : Option rt.PrivateState)
    → l₁.private_states ≡ l.private_states
    → states_after l₁ id given ≡ states_after l id given
states_after-same l l₁ (some id) (some state) e = rw e
states_after-same l l₁ (some id) none e = e
states_after-same l l₁ none (some state) e = e
states_after-same l l₁ none none e = e

Reported-same :
    {rt : Runtime} (l l₁ : Local rt) (id : Option Text) (given : Option rt.PrivateState)
    (state : rt.PrivateState)
    → l₁.private_states ≡ l.private_states
    → Reported l₁ id given state
    → Reported l id given state
Reported-same l l₁ (some id) (some given) state e r = r
Reported-same l l₁ (some id) none state e r = ap (λ f. f id) (sym e) ∙ r
Reported-same l l₁ none (some given) state e r = r
Reported-same l l₁ none none state e r = r

-- The private states are those of `l`, or the given one is stored under the given identifier.
abbrev pub MayHaveStored :
    {rt : Runtime} → Local rt → Option Text → Option rt.PrivateState → World rt → Type 0
MayHaveStored l id given w = HasStates l w ⊎ (w.local.private_states ≡ states_after l id given)

module _ (rt : Runtime) (p : Providers rt) (l : Local rt) (address : Text) (id : Option Text)
    (given : Option rt.PrivateState) where
  Found-of :
      (key : Text) (state : rt.PrivateState) (l₁ l₂ : Local rt)
      → HoldsKey l address key l₁
      → StateDone l₁ id given state l₂
      → Found l address id given key state l₂
  Found-of key state l₁ l₂ h d = record {
    held = ap (λ f. f address) d.keys ∙ h.held;
    other_keys = λ other n. ap (λ f. f other) d.keys ∙ h.others other n;
    states = d.states ∙ states_after-same l l₁ id given h.states;
    reported = Reported-same l l₁ id given state h.states d.reported;
  }

  state_triple :
      (key : Text)
      → Triple
          (λ w. HoldsKey l address key w.local)
          (set_or_get_initial_private_state rt p id given)
          (λ state w. Found l address id given key state w.local)
          (λ _. MayHaveStored l id given)
  state_triple key = Triple-start rt _ λ l₁ h.
      Triple-weaken_rejects _
        (Triple-weaken _ (λ w e. e) (set_or_get_initial_private_state_triple rt p l₁ id given)
          λ state w d. Found-of key state l₁ w.local h d)
        λ e w. elim [
          | inl q ↦ inl (ap (λ k. k.private_states) q ∙ h.states)
          | inr q ↦ inr (q ∙ states_after-same l l₁ id given h.states)
        ]

module _ (rt : Runtime) (p : Providers rt) (l : Local rt) where
  -- A step that leaves the local state alone, before what rejects with `X`.
  keeps_triple :
      {A B : Type 0} {Q : B → World rt → Type 0} {X : World rt → Type 0} (m : M rt A)
      (f : A → M rt B)
      → ((w : World rt) → HasLocal l w → X w)
      → KeepsLocal {rt = rt} m
      → ((a : A) → Triple (HasLocal l) (f a) Q (λ _. X))
      → Triple (HasLocal l) (m >>= f) Q (λ _. X)
  keeps_triple m f x k h = Triple-bind _ _ (Triple-weaken_rejects _ (Triple-frame l _ k) λ e. x) h

  same :
      (id : Option Text) (given : Option rt.PrivateState) (w : World rt)
      → HasLocal l w
      → MayHaveStored l id given w
  same id given w q = inl (ap (λ k. k.private_states) q)

  find_triple :
      (options : FindDeployedContractOptions rt)
      → Triple
          (HasLocal l)
          (find_deployed_contract rt p options)
          (λ found w.
            Found l options.contract_address options.private_state_id options.initial_private_state
              found.signing_key found.initial_private_state w.local)
          (λ _. MayHaveStored l options.private_state_id options.initial_private_state)
  unfolding find_deployed_contract
  find_triple options = keeps_triple _ _ (same _ _) (search local_rules) λ _.
      keeps_triple _ _ (same _ _) (outside_call-KeepsLocal rt _) λ finalized.
        keeps_triple _ _ (same _ _) (outside_call-KeepsLocal rt _) λ deployed.
          keeps_triple _ _ (same _ _) (Frames-assert_defined _ _ _) λ initial_state.
            keeps_triple _ _ (same _ _) (outside_call-KeepsLocal rt _) λ queried.
              keeps_triple _ _ (same _ _) (Frames-assert_defined _ _ _) λ current_state.
                keeps_triple _ _ (same _ _) (get_verifier_keys-KeepsLocal rt p _) λ keys.
                  keeps_triple _ _ (same _ _)
                    (verify_contract_state-KeepsLocal rt p keys current_state)
                    λ _.
                      Triple-bind _ _
                        (Triple-weaken_rejects _
                          (set_or_get_initial_signing_key_triple rt p l _ options.signing_key)
                          λ e w. inl)
                        λ key.
                          Triple-bind _ _ (state_triple rt p l _ _ _ key)
                            λ state. Triple-pure _ λ w h. h

module _ (rt : Runtime) (p : Providers rt) (options : FindDeployedContractOptions rt) where
  -- A find that resolves reports the signing key that the store now holds for the contract, and has
  -- changed no other contract's key. A private state given with an identifier is stored under it
  -- and reported; with an identifier alone, the stored state is reported and none is written;
  -- with neither, no state is read or written. A state without an identifier never resolves.
  pub find_deployed_contract_success :
      (w w' : World rt) (found : FoundContractData rt)
      → find_deployed_contract rt p options w ≡ (ok found, w')
      → Found w.local options.contract_address options.private_state_id
          options.initial_private_state found.signing_key found.initial_private_state w'.local
  find_deployed_contract_success w w' found e =
      Triple-resolves (find_triple rt p w.local options) refl e
