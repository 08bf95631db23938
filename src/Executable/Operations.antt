-- ===== src/Executable/Operations.antt =====
-- The operations of an executable contract in
-- compact-js/compact-js/src/effect/ContractExecutable.ts.
use midnight_js.Prelude.{
  ℕ, Option, none, some, List, [], ◌∷◌, length, if◌then◌else◌, Text, Result, ok, err, map, map_get,
}
use midnight_js.Prelude.Exec.{pure, throw, ◌>>=◌}
use midnight_js.Platform.Hex.{BrandError}
use midnight_js.Platform.Keys.{as_hex}
use midnight_js.Executable.Parameters.{
  Toolkit, Op, Instance, CompiledContract, CircuitInput, CircuitOutput, ConstructorOutput,
}
use midnight_js.Executable.{
  thrown, brand, circuit_not_found, partition_count, Failure, initialization_failed,
  constructor_context_failed, circuit_undefined, verifier_key_refused, circuit_failed, read_failed,
  KeyConfig, ContractContext, E, call_out, library, dies, create_contract,
  create_maintenance_authority, create_signed_maintenance_update,
}

pub record DeployResult (kit : Toolkit) : Type 0 where
  pub contract_state : kit.ContractState
  pub signing_key : Text
  pub private_state : kit.PrivateState
  pub zswap_local_state : kit.ZswapLocalState

pub record CallResult (kit : Toolkit) : Type 0 where
  pub contract_state : kit.StateValue
  pub public_transcript : kit.PublicTranscript
  pub partitioned_transcript : Option kit.Transcript × Option kit.Transcript
  pub result : kit.ReturnValue
  pub input : kit.AlignedValue
  pub output : kit.AlignedValue
  pub private_transcript_outputs : List kit.AlignedValue
  pub private_state : kit.PrivateState
  pub zswap_local_state : kit.ZswapLocalState

pub record MaintenanceResult (kit : Toolkit) : Type 0 where
  pub maintenance_update : kit.MaintenanceUpdate
  pub signing_key : Text

pub record CircuitContext (kit : Toolkit) : Type 0 where
  pub at : ContractContext kit
  pub private_state : kit.PrivateState
  pub zswap_local_state : Option kit.ZswapLocalState

-- `comIndices` reduced by `insertCommitment`.
unfoldable pub insert_commitments :
    (kit : Toolkit) → List (Text × ℕ) → kit.LedgerQueryContext → kit.LedgerQueryContext
insert_commitments kit [] context = context
insert_commitments kit (entry ∷ entries) context =
    insert_commitments kit entries (kit.insert_commitment context entry)

module _ {kit : Toolkit} where
  unfoldable pub map_brand :
      {A : Type 0} → (BrandError → Failure kit) → Result BrandError A → E kit A
  map_brand f (ok a) = pure a
  map_brand f (err e) = throw (f e)

  -- What is caught around the constructor.
  unfoldable pub constructor_threw : kit.Thrown → Failure kit
  constructor_threw e =
      if kit.is_compact_error e
      then initialization_failed (thrown e)
      else constructor_context_failed (thrown e)

  unfoldable pub run_constructor :
      Instance kit
      → KeyConfig
      → kit.PrivateState
      → kit.Args
      → E kit (ConstructorOutput kit × kit.ZswapLocalState)
  unfolding constructor_threw
  run_constructor contract config initial args = do
    key ← map_brand (λ e. constructor_context_failed (brand e)) (as_hex config.coin_public_key)
    context ← library constructor_threw (kit.constructor_context initial key)
    made ← call_out constructor_threw (contract.initial_state context args)
    zswap ← library constructor_threw (kit.decode_zswap_state made.current_zswap_state)
    pure (made, zswap)

  unfoldable pub add_key :
      Text → kit.VerifierKey → kit.ContractState → Option kit.Operation → E kit kit.ContractState
  add_key id key state none = throw (circuit_undefined id state)
  add_key id key state (some operation) =
      library (λ e. verifier_key_refused id state (thrown e))
        (kit.set_verifier_key state id operation key)

  unfoldable pub add_verifier_keys :
      List (Text × kit.VerifierKey) → kit.ContractState → E kit kit.ContractState
  add_verifier_keys [] state = pure state
  add_verifier_keys ((id, key) ∷ keys) state = do
    next ← add_key id key state (kit.operation state id)
    add_verifier_keys keys next

  abbrev pub circuit_ids : Instance kit → List Text
  circuit_ids contract = map (λ entry. entry.0) contract.impure_circuits

  unfoldable pub initialize :
      CompiledContract kit → KeyConfig → kit.PrivateState → kit.Args → E kit (DeployResult kit)
  unfolding run_constructor add_verifier_keys
  initialize compiled config initial args = do
    reader ← call_out (dies kit) kit.create_reader
    contract ← create_contract compiled
    made ← run_constructor contract config initial args
    keys ←
        call_out (λ e. read_failed (thrown e))
          (kit.read_verifier_keys reader (circuit_ids contract))
    state ← add_verifier_keys keys made.0.current_contract_state
    authority ← create_maintenance_authority config.configured_signing_key none
    pure (record {
      contract_state = kit.set_authority state authority.0;
      signing_key = authority.1;
      private_state = made.0.current_private_state;
      zswap_local_state = made.1;
    })

  unfoldable pub found_circuit :
      Text
      → Option (CircuitInput kit → kit.Args → Op kit (CircuitOutput kit))
      → E kit (CircuitInput kit → kit.Args → Op kit (CircuitOutput kit))
  found_circuit id none = throw (circuit_failed id (circuit_not_found id))
  found_circuit id (some circuit) = pure circuit

  -- The local zswap state that a circuit starts with.
  unfoldable pub starting_zswap_state :
      Text → KeyConfig → Option kit.ZswapLocalState → E kit kit.EncodedZswapState
  starting_zswap_state id config (some state) =
      library (λ e. circuit_failed id (thrown e)) (kit.encode_zswap_state state)
  starting_zswap_state id config none = do
    key ← map_brand (λ e. circuit_failed id (brand e)) (as_hex config.coin_public_key)
    library (λ e. circuit_failed id (thrown e)) (kit.empty_zswap_state key)

  unfoldable pub single_pair :
      Text
      → List (Option kit.Transcript × Option kit.Transcript)
      → E kit (Option kit.Transcript × Option kit.Transcript)
  single_pair id [] = throw (circuit_failed id (partition_count 0))
  single_pair id (pair ∷ []) = pure pair
  single_pair id (pair ∷ other ∷ pairs) =
      throw (circuit_failed id (partition_count (length (pair ∷ other ∷ pairs))))

  -- A wrong count is an error of the circuit; an exception dies.
  unfoldable pub partition_transcript :
      Text
      → kit.QueryContext
      → kit.QueryContext
      → kit.PublicTranscript
      → E kit (Option kit.Transcript × Option kit.Transcript)
  unfolding insert_commitments
  partition_transcript id tx_context final_context transcript = do
    context ← library (dies kit) (kit.as_ledger_query_context tx_context)
    pairs ← library (dies kit) (
        kit.partition_transcripts
          ((insert_commitments kit (kit.com_indices final_context) context, transcript) ∷ []))
    single_pair id pairs

  unfoldable pub circuit :
      CompiledContract kit
      → KeyConfig
      → Text
      → CircuitContext kit
      → kit.Args
      → E kit (CallResult kit)
  unfolding starting_zswap_state partition_transcript
  circuit compiled config id context args = do
    contract ← create_contract compiled
    run ← found_circuit id (map_get id contract.impure_circuits)
    initial ←
        library (λ e. circuit_failed id (thrown e))
          (kit.initial_query_context context.at.contract_state context.at.address)
    zswap ← starting_zswap_state id config context.zswap_local_state
    done ←
        call_out (λ e. circuit_failed id (thrown e))
          (run
            (record {
              current_private_state = context.private_state;
              current_zswap_state = zswap;
              transaction_context = initial;
            })
            args)
    partitioned ←
        partition_transcript id initial done.context.transaction_context done.public_transcript
    zswap_after ← library (dies kit) (kit.decode_zswap_state done.context.current_zswap_state)
    pure (record {
      contract_state = kit.query_state done.context.transaction_context;
      public_transcript = done.public_transcript;
      partitioned_transcript = partitioned;
      result = done.result;
      input = done.input;
      output = done.output;
      private_transcript_outputs = done.private_transcript_outputs;
      private_state = done.context.current_private_state;
      zswap_local_state = zswap_after;
    })

  -- The result has the new key in place of the one that has signed.
  unfoldable pub replace_contract_maintenance_authority :
      KeyConfig → Option Text → ContractContext kit → E kit (MaintenanceResult kit)
  replace_contract_maintenance_authority config new_signing_key context = do
    authority ← create_maintenance_authority new_signing_key (some context.contract_state)
    ledger_authority ← library (dies kit) (kit.to_ledger_authority authority.0)
    update ←
        create_signed_maintenance_update (kit.replace_authority ledger_authority) config context
    pure (record { maintenance_update = update.0; signing_key = authority.1 })

  unfoldable pub remove_contract_operation :
      KeyConfig → Text → ContractContext kit → E kit (MaintenanceResult kit)
  remove_contract_operation config id context = do
    update ← create_signed_maintenance_update (kit.verifier_key_remove id) config context
    pure (record { maintenance_update = update.0; signing_key = update.1 })

  unfoldable pub add_or_replace_contract_operation :
      KeyConfig → Text → kit.VerifierKey → ContractContext kit → E kit (MaintenanceResult kit)
  add_or_replace_contract_operation config id key context = do
    update ← create_signed_maintenance_update (kit.verifier_key_insert id key) config context
    pure (record { maintenance_update = update.0; signing_key = update.1 })
