-- ===== src/Contracts/Interfaces/Laws.antt =====
-- The interfaces of a found or deployed contract: when they are made, and what they offer.
use midnight_js.Prelude.{
  ◌≡◌, refl, ap, sym, ◌∙◌, Option, none, some, List, [], ◌∷◌, Text, ok, err, arith, text_eq,
  text_eq_iff, if◌then◌else◌, any, Entries, map_get, map_set, map_get-map_set, Result,
}
use midnight_js.Prelude.Exec.{◌>>=◌}
use midnight_js.Prelude.Exec.Triples.{
  Triple, Triple-bind, Triple-lift, Triple-fact, Triple-any, Triple-weaken, Triple-resolves,
}
use midnight_js.Hex.{assert_is_contract_address}
use midnight_js.Contracts.Runtime.{Runtime, Contract}
use midnight_js.Contracts.World.{World, Providers, Error, M, map_err}
use midnight_js.Contracts.CallTx.{FinalizedCallTxData, submit_call_tx}
use midnight_js.Contracts.DeployTx.{DeployTxOptions, get_impure_circuit_ids}
use midnight_js.Contracts.Maintenance.{
  submit_insert_verifier_key_tx, submit_remove_verifier_key_tx, submit_replace_authority_tx,
}
use midnight_js.Contracts.Find.{
  FindDeployedContractOptions, FoundContractData, find_deployed_contract,
}
use midnight_js.Contracts.Interfaces.{
  create_call_tx_options, CircuitCallTxInterface, CircuitMaintenanceTxInterface, ContractHandle,
  object_of, create_circuit_call_tx_interface, create_circuit_maintenance_tx_interface,
  maintenance_interfaces, create_circuit_maintenance_tx_interfaces,
  create_contract_maintenance_tx_interface, with_interfaces, find_deployed_contract_handle,
  DeployContractOptions,
}

map_err-ok : {E F A : Type 0} {a : A} (f : E → F) (r : Result E A) → map_err f r ≡ ok a → r ≡ ok a
map_err-ok f (ok b) h = cc
map_err-ok f (err e) h = cc

-- An object built from identifiers has exactly these as its properties.
map_get-object_of :
    {V : Type 0} (f : Text → V) (id : Text) (ids : List Text) (acc : Entries V)
    → map_get id (object_of f ids acc)
      ≡ (if any (text_eq id) ids then some (f id) else map_get id acc)
unfolding object_of
map_get-object_of f id [] acc = refl
map_get-object_of f id (j ∷ ids) acc = ground (
  arith,
  map_get-object_of f id ids (map_set j (f j) acc),
  map_get-map_set j id (f j) acc,
  text_eq_iff id j,
  text_eq_iff j id,
)

module _ (rt : Runtime) (p : Providers rt) (address : Text) where
  abbrev maintenance_of : Text → CircuitMaintenanceTxInterface rt
  maintenance_of id = record {
    remove_verifier_key = submit_remove_verifier_key_tx rt p address id;
    insert_verifier_key = submit_insert_verifier_key_tx rt p address id;
  }

  abbrev call_of : Contract rt → Option Text → Text → Option rt.Args → M rt (FinalizedCallTxData rt)
  call_of contract private_state_id id args =
      submit_call_tx rt p (create_call_tx_options contract id address private_state_id args)

  -- The handle of a contract at a well-formed address.
  abbrev pub handle_of : {Data : Type 0} → Contract rt → Option Text → Data → ContractHandle rt Data
  handle_of contract private_state_id found = record {
    deploy_tx_data = found;
    call_tx = object_of (call_of contract private_state_id) (get_impure_circuit_ids contract) [];
    circuit_maintenance_tx = object_of maintenance_of (get_impure_circuit_ids contract) [];
    contract_maintenance_tx = record {
      replace_authority = submit_replace_authority_tx rt p address;
    };
  }

  module _ (valid : assert_is_contract_address address ≡ ok tt) where
    maintenance_interfaces-valid :
        (ids : List Text) (acc : Entries (CircuitMaintenanceTxInterface rt)) (w : World rt)
        → maintenance_interfaces rt p ids address acc w ≡ (ok (object_of maintenance_of ids acc), w)
    unfolding maintenance_interfaces create_circuit_maintenance_tx_interface object_of ◌>>=◌
    maintenance_interfaces-valid [] acc w = refl
    maintenance_interfaces-valid (id ∷ ids) acc w =
        rw valid (maintenance_interfaces-valid ids (map_set id (maintenance_of id) acc) w)

    with_interfaces-valid :
        {Data : Type 0} (contract : Contract rt) (id : Option Text) (found : Data) (w : World rt)
        → with_interfaces rt p contract address id found w ≡ (ok (handle_of contract id found), w)
    unfolding with_interfaces create_circuit_call_tx_interface
        create_circuit_maintenance_tx_interfaces create_contract_maintenance_tx_interface ◌>>=◌
    with_interfaces-valid contract id found w =
        rw (valid, maintenance_interfaces-valid (get_impure_circuit_ids contract) [] w)

module _ (rt : Runtime) (p : Providers rt) where
  -- The call interface of a contract has a function under each name of one of its circuits and under
  -- no other, and that function submits a call of this circuit at the contract's address.
  pub call_interface_circuits :
      (contract : Contract rt) (address : Text) (id : Option Text) (w w' : World rt)
      (interface : CircuitCallTxInterface rt) (name : Text)
      → create_circuit_call_tx_interface rt p contract address id w ≡ (ok interface, w')
      → map_get name interface ≡ (
          if any (text_eq name) (get_impure_circuit_ids contract)
          then some
              (λ args. submit_call_tx rt p (create_call_tx_options contract name address id args))
          else none)
  unfolding create_circuit_call_tx_interface ◌>>=◌ map_get
  call_interface_circuits contract address id w w' interface name e =
      let same : object_of (call_of rt p address contract id) (get_impure_circuit_ids contract) []
          ≡ interface =
        ground arith in
      ap (λ o. map_get name o) (sym same)
      ∙ map_get-object_of (call_of rt p address contract id) name (get_impure_circuit_ids contract)
          []

  -- A find that resolves has checked the address.
  find_triple :
      (options : FindDeployedContractOptions rt)
      → Triple
          (λ _. Unit {0})
          (find_deployed_contract rt p options)
          (λ _ _. assert_is_contract_address options.contract_address ≡ ok tt)
          (λ _ _. Unit {0})
  unfolding find_deployed_contract
  find_triple options =
      Triple-bind {R = λ _ _. assert_is_contract_address options.contract_address ≡ ok tt} _ _
        (Triple-lift _ (λ a w q u. map_err-ok _ _ q) (λ e w q u. tt))
        λ _. Triple-weaken _ (λ w v. (v, tt)) (Triple-fact _ (Triple-any _)) λ a w h. h.0

  -- Finding a contract resolves where its checks and its use of the stores do, with the interfaces of
  -- the contract added to what they report; it rejects where they reject, with their error. Making the
  -- interfaces adds no failure and changes nothing.
  pub find_adds_interfaces :
      (options : FindDeployedContractOptions rt) (w w' : World rt)
      (found : Result (Error rt) (FoundContractData rt))
      → find_deployed_contract rt p options w ≡ (found, w')
      → find_deployed_contract_handle rt p options w ≡ (
        elim found [
          | ok data_found ↦ ok (
              handle_of rt p options.contract_address options.contract options.private_state_id
                data_found)
          | err e ↦ err e
        ],
        w',
      )
  unfolding find_deployed_contract_handle ◌>>=◌
  find_adds_interfaces options w w' (err e) q = rw q refl
  find_adds_interfaces options w w' (ok found) q =
      let valid = Triple-resolves (find_triple options) tt q in
      rw q (
        with_interfaces-valid rt p options.contract_address valid options.contract
          options.private_state_id found w')

  -- The deployment's options with this signing key.
  abbrev pub deploy_options_of : DeployContractOptions rt → Text → DeployTxOptions rt
  deploy_options_of options key = record {
    contract = options.contract;
    args = options.args;
    signing_key = key;
    initial_private_state = options.initial_private_state;
    private_state_id = options.private_state_id;
  }
