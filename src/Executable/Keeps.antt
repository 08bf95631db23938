-- ===== src/Executable/Keeps.antt =====
-- What each operation of an executable contract leaves of its cached instance.
use midnight_js.Prelude.{◌≡◌, Option, none, some, List, [], ◌∷◌, Text, Result, ok, err, map_get}
use midnight_js.Prelude.Exec.{pure, throw, lift, continue, ◌>>=◌}
use midnight_js.Platform.Hex.{BrandError}
use midnight_js.Platform.Keys.{signing_key}
use midnight_js.Executable.Parameters.{
  Toolkit, Op, Instance, CompiledContract, CircuitInput, CircuitOutput,
}
use midnight_js.Executable.{
  Failure, Machine, KeyConfig, ContractContext, E, call_out, create_contract, key_or_sample,
  sampled, signed_by, create_maintenance_authority, create_signed_maintenance_update,
}
use midnight_js.Executable.Operations.{
  CircuitContext, map_brand, run_constructor, add_key, add_verifier_keys, initialize, found_circuit,
  starting_zswap_state, single_pair, partition_transcript, circuit,
  replace_contract_maintenance_authority, remove_contract_operation,
  add_or_replace_contract_operation,
}

-- Once the class has been instantiated, or has thrown, the outcome `r` stays the executable's.
pub record Keeps {kit : Toolkit} {A : Type 0} (r : Result kit.Thrown (Instance kit)) (m : E kit A)
    : Type 0 where
  pub at : (w : Machine kit) → w.contract ≡ some r → (m w).1.contract ≡ some r

module _ {kit : Toolkit} {A : Type 0} {r : Result kit.Thrown (Instance kit)} where
  Keeps-pure : (a : A) → Keeps {kit = kit} r (pure a)
  unfolding pure
  Keeps-pure a = record { at = λ w h. h }

  Keeps-throw : (e : Failure kit) → Keeps {A = A} r (throw e)
  unfolding throw
  Keeps-throw e = record { at = λ w h. h }

  Keeps-lift : (a : Result (Failure kit) A) → Keeps {kit = kit} r (lift a)
  unfolding lift
  Keeps-lift a = record { at = λ w h. h }

  Keeps-call_out : (f : kit.Thrown → Failure kit) (op : Op kit A) → Keeps r (call_out f op)
  unfolding call_out
  Keeps-call_out f op = record { at = λ w h. h }

module _ {kit : Toolkit} {A B : Type 0} {r : Result kit.Thrown (Instance kit)} where
  Keeps-continue :
      (a : Result (Failure kit) A) (f : A → E kit B)
      → ((x : A) → Keeps r (f x))
      → Keeps r (continue a f)
  Keeps-continue (ok x) f h = record { at = (h x).at }
  Keeps-continue (err e) f h = record { at = λ w k. k }

  Keeps-bind :
      (m : E kit A) (f : A → E kit B) → Keeps r m → ((x : A) → Keeps r (f x)) → Keeps r (m >>= f)
  unfolding ◌>>=◌
  Keeps-bind m f hm hf = record { at = λ w h. (Keeps-continue (m w).0 f hf).at (m w).1 (hm.at w h) }

ruleset keep_rules = (Keeps-pure, Keeps-throw, Keeps-lift, Keeps-call_out, Keeps-bind)

module _ {kit : Toolkit} {r : Result kit.Thrown (Instance kit)} where
  create_contract-Keeps : (compiled : CompiledContract kit) → Keeps r (create_contract compiled)
  unfolding create_contract
  create_contract-Keeps compiled = record { at = λ w h. rw h }

  sampled-Keeps : (a : Result BrandError Text) → Keeps {kit = kit} r (sampled a)
  unfolding sampled
  sampled-Keeps (ok key) = search keep_rules
  sampled-Keeps (err e) = search keep_rules

  key_or_sample-Keeps : (key : Option Text) → Keeps {kit = kit} r (key_or_sample key)
  unfolding key_or_sample
  key_or_sample-Keeps none =
      Keeps-bind _ _ (search keep_rules) (λ key. sampled-Keeps (signing_key key))
  key_or_sample-Keeps (some key) = search keep_rules

  create_maintenance_authority-Keeps :
      (key : Option Text) (state : Option kit.ContractState)
      → Keeps r (create_maintenance_authority {kit = kit} key state)
  unfolding create_maintenance_authority
  create_maintenance_authority-Keeps key state =
      Keeps-bind _ _ (key_or_sample-Keeps key) (λ k. search keep_rules depth 8)

  signed_by-Keeps :
      (create_update : Result kit.Thrown kit.SingleUpdate) (context : ContractContext kit)
      (key : Option Text)
      → Keeps r (signed_by create_update context key)
  unfolding signed_by
  signed_by-Keeps create_update context none = search keep_rules
  signed_by-Keeps create_update context (some key) = search keep_rules

  create_signed_maintenance_update-Keeps :
      (create_update : Result kit.Thrown kit.SingleUpdate) (config : KeyConfig)
      (context : ContractContext kit)
      → Keeps r (create_signed_maintenance_update create_update config context)
  unfolding create_signed_maintenance_update
  create_signed_maintenance_update-Keeps create_update config context =
      signed_by-Keeps create_update context config.configured_signing_key

  map_brand-Keeps :
      {A : Type 0} (f : BrandError → Failure kit) (a : Result BrandError A)
      → Keeps r (map_brand f a)
  unfolding map_brand
  map_brand-Keeps f (ok a) = search keep_rules
  map_brand-Keeps f (err e) = search keep_rules

  run_constructor-Keeps :
      (contract : Instance kit) (config : KeyConfig) (initial : kit.PrivateState) (args : kit.Args)
      → Keeps r (run_constructor contract config initial args)
  unfolding run_constructor
  run_constructor-Keeps contract config initial args = search (keep_rules, map_brand-Keeps) depth 10

  add_key-Keeps :
      (id : Text) (key : kit.VerifierKey) (state : kit.ContractState) (o : Option kit.Operation)
      → Keeps r (add_key {kit = kit} id key state o)
  unfolding add_key
  add_key-Keeps id key state none = search keep_rules
  add_key-Keeps id key state (some operation) = search keep_rules

  add_verifier_keys-Keeps :
      (keys : List (Text × kit.VerifierKey)) (state : kit.ContractState)
      → Keeps r (add_verifier_keys {kit = kit} keys state)
  unfolding add_verifier_keys
  add_verifier_keys-Keeps [] state = search keep_rules
  add_verifier_keys-Keeps ((id, key) ∷ keys) state =
      Keeps-bind _ _ (add_key-Keeps id key state (kit.operation state id))
        (λ next. add_verifier_keys-Keeps keys next)

  pub initialize-Keeps :
      (compiled : CompiledContract kit) (config : KeyConfig) (initial : kit.PrivateState)
      (args : kit.Args)
      → Keeps r (initialize compiled config initial args)
  unfolding initialize
  initialize-Keeps compiled config initial args = Keeps-bind _ _ (search keep_rules) λ reader.
      Keeps-bind _ _ (create_contract-Keeps compiled) λ contract.
        Keeps-bind _ _ (run_constructor-Keeps contract config initial args) λ made.
          Keeps-bind _ _ (search keep_rules) λ keys.
            Keeps-bind _ _ (add_verifier_keys-Keeps keys made.0.current_contract_state) λ state.
              Keeps-bind _ _ (create_maintenance_authority-Keeps config.configured_signing_key none)
                λ authority. search keep_rules

  found_circuit-Keeps :
      (id : Text) (o : Option (CircuitInput kit → kit.Args → Op kit (CircuitOutput kit)))
      → Keeps r (found_circuit id o)
  unfolding found_circuit
  found_circuit-Keeps id none = search keep_rules
  found_circuit-Keeps id (some run) = search keep_rules

  starting_zswap_state-Keeps :
      (id : Text) (config : KeyConfig) (o : Option kit.ZswapLocalState)
      → Keeps r (starting_zswap_state {kit = kit} id config o)
  unfolding starting_zswap_state
  starting_zswap_state-Keeps id config none = search (keep_rules, map_brand-Keeps)
  starting_zswap_state-Keeps id config (some state) = search keep_rules

  single_pair-Keeps :
      (id : Text) (pairs : List (Option kit.Transcript × Option kit.Transcript))
      → Keeps r (single_pair {kit = kit} id pairs)
  unfolding single_pair
  single_pair-Keeps id [] = search keep_rules
  single_pair-Keeps id (pair ∷ []) = search keep_rules
  single_pair-Keeps id (pair ∷ q ∷ pairs) = search keep_rules

  partition_transcript-Keeps :
      (id : Text) (initial final : kit.QueryContext) (transcript : kit.PublicTranscript)
      → Keeps r (partition_transcript {kit = kit} id initial final transcript)
  unfolding partition_transcript
  partition_transcript-Keeps id initial final transcript =
      search (keep_rules, single_pair-Keeps) depth 8

  pub circuit-Keeps :
      (compiled : CompiledContract kit) (config : KeyConfig) (id : Text)
      (context : CircuitContext kit) (args : kit.Args)
      → Keeps r (circuit compiled config id context args)
  unfolding circuit
  circuit-Keeps compiled config id context args =
      Keeps-bind _ _ (create_contract-Keeps compiled) λ contract.
        Keeps-bind _ _ (found_circuit-Keeps id (map_get id contract.impure_circuits)) λ run.
          Keeps-bind _ _ (search keep_rules) λ initial.
            Keeps-bind _ _ (starting_zswap_state-Keeps id config context.zswap_local_state) λ zswap.
              Keeps-bind _ _ (search keep_rules) λ done.
                Keeps-bind _ _
                  (partition_transcript-Keeps id initial done.context.transaction_context
                    done.public_transcript)
                  λ pair. search keep_rules

  pub replace-Keeps :
      (config : KeyConfig) (key : Option Text) (context : ContractContext kit)
      → Keeps r (replace_contract_maintenance_authority config key context)
  unfolding replace_contract_maintenance_authority
  replace-Keeps config key context =
      Keeps-bind _ _ (create_maintenance_authority-Keeps key (some context.contract_state))
        λ authority. Keeps-bind _ _ (search keep_rules) λ ledger_authority.
          Keeps-bind _ _ (create_signed_maintenance_update-Keeps _ config context)
            λ update. search keep_rules

  pub remove-Keeps :
      (config : KeyConfig) (id : Text) (context : ContractContext kit)
      → Keeps r (remove_contract_operation config id context)
  unfolding remove_contract_operation
  remove-Keeps config id context =
      search (keep_rules, create_signed_maintenance_update-Keeps) depth 8

  pub add-Keeps :
      (config : KeyConfig) (id : Text) (key : kit.VerifierKey) (context : ContractContext kit)
      → Keeps r (add_or_replace_contract_operation config id key context)
  unfolding add_or_replace_contract_operation
  add-Keeps config id key context =
      search (keep_rules, create_signed_maintenance_update-Keeps) depth 8
