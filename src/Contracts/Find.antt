-- ===== src/Contracts/Find.antt =====
-- packages/contracts/src/find-deployed-contract.ts: finding a contract on the chain.
pub mod KeyCheck
pub mod Stores
pub mod Outcome
use midnight_js.Prelude.{
  ℕ, not, ◌&&◌, true, Bool, false, Option, none, some, List, [], ◌∷◌, if◌then◌else◌, Text, text_eq,
  length, ◌==◌,
}
use midnight_js.Prelude.Exec.{pure, throw, assert_defined, ◌>>=◌, ◌>>◌}
use midnight_js.Hex.{to_hex}
use midnight_js.Contracts.Runtime.{Runtime, Contract}
use midnight_js.Contracts.World.{
  M, Providers, FinalizedTxData, contract_type_error, no_contract_deployed, no_private_state,
  incomplete_find_contract_private_state_config, outside_call, check_address, get_private_state,
  set_private_state, get_signing_key, set_signing_key, get_verifier_keys,
}
use midnight_js.Contracts.DeployTx.{get_impure_circuit_ids}
use midnight_js.Contracts.Maintenance.{truthy_text}

pub record FindDeployedContractOptions (rt : Runtime) : Type 0 where
  pub contract : Contract rt
  pub contract_address : Text
  pub signing_key : Option Text
  pub private_state_id : Option Text
  pub initial_private_state : Option rt.PrivateState

-- `deployTxData` of a found contract.
pub record FoundContractData (rt : Runtime) : Type 0 where
  pub signing_key : Text
  pub initial_private_state : rt.PrivateState
  pub finalized : FinalizedTxData rt
  pub contract_address : Text
  pub initial_contract_state : rt.ContractState

unfoldable pub verifier_keys_equal : List ℕ → List ℕ → Bool
verifier_keys_equal a b = length a == length b && text_eq (to_hex a) (to_hex b)

module _ (rt : Runtime) where
  -- whether a local key is the deployed one
  key_matches : Option rt.Operation → List ℕ → Bool
  key_matches none key = false
  key_matches (some operation) key = verifier_keys_equal key (rt.verifier_key operation)

  -- the `reduce` of `verifyContractState`
  unfoldable pub mismatched_circuit_ids : List (Text × List ℕ) → rt.ContractState → List Text
  unfolding key_matches
  mismatched_circuit_ids [] state = []
  mismatched_circuit_ids ((id, key) ∷ keys) state =
      let rest = mismatched_circuit_ids keys state in
      if key_matches (rt.operation state id) key then rest else id ∷ rest

module _ (rt : Runtime) where
  throw_mismatched : rt.ContractState → List Text → M rt (Unit {0})
  throw_mismatched state [] = pure tt
  throw_mismatched state (id ∷ ids) = throw (contract_type_error state (id ∷ ids))

  unfoldable pub verify_contract_state : List (Text × List ℕ) → rt.ContractState → M rt (Unit {0})
  unfolding throw_mismatched
  verify_contract_state keys state = throw_mismatched state (mismatched_circuit_ids rt keys state)

module _ (rt : Runtime) (p : Providers rt) where
  -- an existing signing key is kept, a missing one is sampled and stored
  keep_or_sample : Text → Option Text → M rt Text
  keep_or_sample address (some (c ∷ key)) = pure (c ∷ key)
  keep_or_sample address _ = do
    fresh ← outside_call rt rt.sample_signing_key
    set_signing_key rt p address fresh
    pure fresh

  unfoldable pub set_or_get_initial_signing_key : Text → Option Text → M rt Text
  unfolding keep_or_sample
  set_or_get_initial_signing_key address (some (c ∷ key)) = do
    set_signing_key rt p address (c ∷ key)
    pure (c ∷ key)
  set_or_get_initial_signing_key address _ = do
    existing ← get_signing_key rt p address
    keep_or_sample address existing

  unfoldable pub set_or_get_initial_private_state :
      Option Text → Option rt.PrivateState → M rt rt.PrivateState
  set_or_get_initial_private_state (some id) (some state) = do
    set_private_state rt p id state
    pure state
  set_or_get_initial_private_state (some id) none = do
    found ← get_private_state rt p id
    assert_defined rt.truthy_state (no_private_state id) found
  set_or_get_initial_private_state none (some state) =
      throw incomplete_find_contract_private_state_config
  set_or_get_initial_private_state none none = pure rt.undefined_state

  unfoldable pub find_deployed_contract :
      FindDeployedContractOptions rt → M rt (FoundContractData rt)
  find_deployed_contract options = do
    let address = options.contract_address
    check_address rt address
    finalized ← outside_call rt (p.watch_for_deploy_tx_data address)
    deployed ← outside_call rt (p.query_deploy_contract_state address)
    initial_state ← assert_defined (λ _. true) (no_contract_deployed address) deployed
    queried ← outside_call rt (p.query_contract_state address)
    current_state ← assert_defined (λ _. true) (no_contract_deployed address) queried
    verifier_keys ← get_verifier_keys rt p (get_impure_circuit_ids options.contract)
    verify_contract_state rt verifier_keys current_state
    signing_key ← set_or_get_initial_signing_key address options.signing_key
    private_state ←
        set_or_get_initial_private_state options.private_state_id options.initial_private_state
    pure (record {
      signing_key = signing_key;
      initial_private_state = private_state;
      finalized = finalized;
      contract_address = address;
      initial_contract_state = initial_state;
    })
