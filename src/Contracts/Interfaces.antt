-- ===== src/Contracts/Interfaces.antt =====
-- packages/contracts/src/tx-interfaces.ts, and the two functions that end in its interfaces:
-- deploy-contract.ts, and find-deployed-contract.ts beyond Find.
pub mod Laws
use midnight_js.Prelude.{Option, none, some, List, [], ◌∷◌, ℕ, Text, Entries, map_set}
use midnight_js.Prelude.Exec.{pure, ◌>>=◌, ◌>>◌}
use midnight_js.Contracts.Runtime.{Runtime, Contract}
use midnight_js.Contracts.World.{M, Providers, FinalizedTxData, outside_call, check_address}
use midnight_js.Contracts.UnprovenCallTx.{CallTxOptions}
use midnight_js.Contracts.CallTx.{FinalizedCallTxData, submit_call_tx}
use midnight_js.Contracts.DeployTx.{
  DeployTxOptions, FinalizedDeployTxData, get_impure_circuit_ids, submit_deploy_tx,
}
use midnight_js.Contracts.Maintenance.{
  submit_insert_verifier_key_tx, submit_remove_verifier_key_tx, submit_replace_authority_tx,
}
use midnight_js.Contracts.Find.{
  FindDeployedContractOptions, FoundContractData, find_deployed_contract,
}

-- `privateStateId ? {…, privateStateId} : …`: the empty identifier is left out too.
abbrev pub keep_nonempty : Option Text → Option Text
keep_nonempty none = none
keep_nonempty (some []) = none
keep_nonempty (some (c ∷ id)) = some (c ∷ id)

unfoldable pub create_call_tx_options :
    {rt : Runtime} → Contract rt → Text → Text → Option Text → Option rt.Args → CallTxOptions rt
create_call_tx_options contract circuit_id address private_state_id args = record {
  contract = contract;
  circuit_id = circuit_id;
  contract_address = address;
  args = args;
  private_state_id = keep_nonempty private_state_id;
}

-- One function for each circuit, of its arguments.
abbrev pub CircuitCallTxInterface : Runtime → Type 0
CircuitCallTxInterface rt = Entries (Option rt.Args → M rt (FinalizedCallTxData rt))

pub record CircuitMaintenanceTxInterface (rt : Runtime) : Type 0 where
  pub remove_verifier_key : M rt (FinalizedTxData rt)
  pub insert_verifier_key : List ℕ → M rt (FinalizedTxData rt)

pub record ContractMaintenanceTxInterface (rt : Runtime) : Type 0 where
  pub replace_authority : Text → M rt (FinalizedTxData rt)

-- A found contract, and a deployed one.
pub record ContractHandle (rt : Runtime) (Data : Type 0) : Type 0 where
  pub deploy_tx_data : Data
  pub call_tx : CircuitCallTxInterface rt
  pub circuit_maintenance_tx : Entries (CircuitMaintenanceTxInterface rt)
  pub contract_maintenance_tx : ContractMaintenanceTxInterface rt

-- `{...acc, [id]: f(id)}` for each identifier
unfoldable pub object_of : {V : Type 0} → (Text → V) → List Text → Entries V → Entries V
object_of f [] acc = acc
object_of f (id ∷ ids) acc = object_of f ids (map_set id (f id) acc)

module _ (rt : Runtime) (p : Providers rt) where
  unfoldable pub create_circuit_call_tx_interface :
      Contract rt → Text → Option Text → M rt (CircuitCallTxInterface rt)
  create_circuit_call_tx_interface contract address private_state_id = do
    check_address rt address
    pure (
        object_of
          (λ id args.
            submit_call_tx rt p (create_call_tx_options contract id address private_state_id args))
          (get_impure_circuit_ids contract) [])

  unfoldable pub create_circuit_maintenance_tx_interface :
      Text → Text → M rt (CircuitMaintenanceTxInterface rt)
  create_circuit_maintenance_tx_interface circuit_id address = do
    check_address rt address
    pure (record {
      remove_verifier_key = submit_remove_verifier_key_tx rt p address circuit_id;
      insert_verifier_key = submit_insert_verifier_key_tx rt p address circuit_id;
    })

  -- the `reduce` of the next function
  maintenance_interfaces :
      List Text
      → Text
      → Entries (CircuitMaintenanceTxInterface rt)
      → M rt (Entries (CircuitMaintenanceTxInterface rt))
  maintenance_interfaces [] address acc = pure acc
  maintenance_interfaces (id ∷ ids) address acc = do
    interface ← create_circuit_maintenance_tx_interface id address
    maintenance_interfaces ids address (map_set id interface acc)

  unfoldable pub create_circuit_maintenance_tx_interfaces :
      Contract rt → Text → M rt (Entries (CircuitMaintenanceTxInterface rt))
  unfolding maintenance_interfaces
  create_circuit_maintenance_tx_interfaces contract address = do
    check_address rt address
    maintenance_interfaces (get_impure_circuit_ids contract) address []

  unfoldable pub create_contract_maintenance_tx_interface :
      Text → M rt (ContractMaintenanceTxInterface rt)
  create_contract_maintenance_tx_interface address = do
    check_address rt address
    pure (record { replace_authority = submit_replace_authority_tx rt p address })

  -- The three interfaces of the result that both functions below return.
  unfoldable pub with_interfaces :
      {Data : Type 0} → Contract rt → Text → Option Text → Data → M rt (ContractHandle rt Data)
  with_interfaces contract address private_state_id found = do
    call_tx ← create_circuit_call_tx_interface contract address private_state_id
    circuit_maintenance ← create_circuit_maintenance_tx_interfaces contract address
    contract_maintenance ← create_contract_maintenance_tx_interface address
    pure (record {
      deploy_tx_data = found;
      call_tx = call_tx;
      circuit_maintenance_tx = circuit_maintenance;
      contract_maintenance_tx = contract_maintenance;
    })

  -- `findDeployedContract` with the interfaces of its result
  unfoldable pub find_deployed_contract_handle :
      FindDeployedContractOptions rt → M rt (ContractHandle rt (FoundContractData rt))
  find_deployed_contract_handle options = do
    found ← find_deployed_contract rt p options
    with_interfaces options.contract options.contract_address options.private_state_id found

pub record DeployContractOptions (rt : Runtime) : Type 0 where
  pub contract : Contract rt
  pub args : Option rt.Args
  pub signing_key : Option Text
  pub initial_private_state : Option rt.PrivateState
  pub private_state_id : Option Text

module _ (rt : Runtime) where
  -- `signingKey ?? sampleSigningKey()`: the empty key is kept.
  given_or_sampled : Option Text → M rt Text
  given_or_sampled (some key) = pure key
  given_or_sampled none = outside_call rt rt.sample_signing_key

  unfoldable pub create_deploy_tx_options : DeployContractOptions rt → M rt (DeployTxOptions rt)
  unfolding given_or_sampled
  create_deploy_tx_options options = do
    signing_key ← given_or_sampled options.signing_key
    pure (record {
      contract = options.contract;
      args = options.args;
      signing_key = signing_key;
      initial_private_state = options.initial_private_state;
      private_state_id = options.private_state_id;
    })

module _ (rt : Runtime) (p : Providers rt) where
  unfoldable pub deploy_contract :
      DeployContractOptions rt → M rt (ContractHandle rt (FinalizedDeployTxData rt))
  deploy_contract options = do
    deploy_options ← create_deploy_tx_options rt options
    deployed ← submit_deploy_tx rt p deploy_options
    with_interfaces rt p options.contract deployed.unsubmitted.contract_address
        options.private_state_id deployed
