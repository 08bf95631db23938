-- ===== src/Commands/Handlers.antt =====
-- The handlers of the commands in compact-js/compact-js-command/src/effect/internal: circuitCommand.ts
-- and deployCommand.ts.
pub mod Writes
pub mod Contents
pub mod Outputs
pub mod Deploys
use midnight_js.Prelude.{
  ℕ, zero, suc, ◌+◌, ◌-◌, ◌*◌, ◌/◌, ◌%◌, ◌≤◌, ◌<◌, ◌≡◌, refl, sym, ap, subst, ◌∙◌, ◌≢◌, ◌↔◌, ◌⊎◌,
  inl, inr, Bool, true, false, not, ◌&&◌, ◌||◌, Option, none, some, List, [], ◌∷◌, ◌++◌, map, arith,
  ltb, leb, ◌==◌, if◌then◌else◌, ==_iff, Bool-cases, Option-cases, length, get_elem?, is_empty, any,
  all, length-append, All, Text, codes, text_eq, text_eq_iff, text_eq_refl, Result, ok, err,
  throw_if, Result-cases, Returns, returns, throws, ◌⟫◌, weaken, of_ok, if-Returns, anything,
  Entries, map_get, map_set, map_delete, keys, map_get-map_set, map_get-map_delete, update,
}
use midnight_js.Prelude.Exec.{Exec, pure, throw, ◌>>=◌, ◌>>◌}
use midnight_js.Executable.{KeyConfig, ContractContext}
use midnight_js.Executable.Parameters.{Toolkit, CompiledContract}
use midnight_js.Executable.Operations.{
  DeployResult, CallResult, MaintenanceResult, CircuitContext, initialize, circuit,
  replace_contract_maintenance_authority, remove_contract_operation,
  add_or_replace_contract_operation,
}
use midnight_js.Reflection.Parser.{ArgumentParser, parse_circuit_args, parse_initialization_args}
use midnight_js.Commands.Files.{
  Bytes, CommandKit, CallPrototype, Stop, not_implemented, died_of, died_of_undefined, World, Cmd,
  read_bytes, read_text, write_bytes, write_text, dies_of, as_ledger_contract_state,
  as_ledger_contract_state_from_bytes, as_contract_state, by_schema, execute, call_outside, ttl,
  log, create_argument_parser, parsed_arguments,
}

-- The module of the configuration: its contract, its keys, and where its assets are.
pub record ContractModule (ck : CommandKit) : Type 0 where
  pub compiled : CompiledContract ck.kit
  pub config : KeyConfig
  pub create_initial_private_state : Result ck.kit.Thrown ck.kit.PrivateState
  pub base_folder : Text
  pub assets_path : Text

-- The message of the ContractRuntimeError that a handler fails with.
pub data Label : Type 0 where
  failed_to_invoke_circuit failed_to_initialize_contract failed_to_apply_maintenance : Label

pub data CommandFailure (ck : CommandKit) : Type 0 where
  command_failed : Label → Stop ck → CommandFailure ck
  command_died : Stop ck → CommandFailure ck

pub record CircuitInputs : Type 0 where
  pub address : Text
  pub circuit_id : Text
  pub args : List Text
  pub input_file_path : Text
  pub input_private_state_file_path : Text
  pub input_zswap_local_state_file_path : Option Text
  pub output_file_path : Text
  pub output_private_state_file_path : Text
  pub output_zswap_local_state_file_path : Text
  pub output_result_file_path : Text

pub record DeployInputs : Type 0 where
  pub args : List Text
  pub output_file_path : Text
  pub output_private_state_file_path : Text
  pub output_zswap_local_state_file_path : Text

module _ {ck : CommandKit} where
  abbrev mapped : {A : Type 0} → Label → Result (Stop ck) A → Result (CommandFailure ck) A
  mapped label (ok a) = ok a
  mapped label (err (died_of cause)) = err (command_died (died_of cause))
  mapped label (err died_of_undefined) = err (command_died died_of_undefined)
  mapped label (err e) = err (command_failed label e)

  -- `Effect.mapError`, which does not see a death.
  unfoldable pub map_error : {A : Type 0} → Label → Cmd ck A → Exec (CommandFailure ck) (World ck) A
  map_error label m w = let (r, w') = m w in (mapped label r, w')

  -- `privateState ?? createInitialPrivateState()`
  unfoldable pub private_state_or_initial :
      ContractModule ck → Option ck.kit.PrivateState → Cmd ck ck.kit.PrivateState
  private_state_or_initial m (some state) = pure state
  private_state_or_initial m none = dies_of m.create_initial_private_state

  unfoldable pub read_zswap_local_state : Option Text → Cmd ck (Option ck.kit.ZswapLocalState)
  read_zswap_local_state none = pure none
  read_zswap_local_state (some path) = do
    text ← read_text path
    json ← dies_of (ck.parse_json text)
    encoded ← by_schema (ck.decode_zswap_object json)
    state ← dies_of (ck.kit.decode_zswap_state encoded)
    pure (some state)

  -- The circuit is run in the state of the input files.
  unfoldable pub run_circuit :
      ContractModule ck → CircuitInputs → Cmd ck (CallResult ck.kit × ck.LedgerState)
  unfolding private_state_or_initial read_zswap_local_state
  run_circuit m inputs = do
    parser ← create_argument_parser m.base_folder m.assets_path
    bytes ← read_bytes inputs.input_file_path
    ledger ← as_ledger_contract_state_from_bytes bytes
    private_text ← read_text inputs.input_private_state_file_path
    private_json ← dies_of (ck.parse_json private_text)
    state ← as_contract_state ledger
    private_state ← private_state_or_initial m (ck.private_state_of_json private_json)
    zswap ← read_zswap_local_state inputs.input_zswap_local_state_file_path
    args ← parsed_arguments (parse_circuit_args ck.host parser inputs.circuit_id inputs.args)
    result ← execute (
        circuit m.compiled m.config inputs.circuit_id
          (record {
            at = record { address = inputs.address; contract_state = state };
            private_state = private_state;
            zswap_local_state = zswap;
          })
          args)
    pure (result, ledger)

  unfoldable pub call_intent : CircuitInputs → CallResult ck.kit → ck.LedgerState → Cmd ck ck.Intent
  call_intent inputs result ledger = do
    until ← ttl
    intent ← dies_of (ck.new_intent until)
    randomness ← call_outside ck.randomness
    dies_of (
        ck.add_call intent (record {
          address = inputs.address;
          entry_point = inputs.circuit_id;
          operation = ck.ledger_operation ledger inputs.circuit_id;
          transcripts = result.partitioned_transcript;
          private_transcript_outputs = result.private_transcript_outputs;
          input = result.input;
          output = result.output;
          randomness = randomness;
        }))

  unfoldable pub write_private_state : Text → ck.kit.PrivateState → Cmd ck (Unit {0})
  write_private_state path state = do
    text ← dies_of (ck.stringify_json (ck.json_of_private_state state))
    write_text path text

  unfoldable pub write_zswap_state : Text → ck.kit.ZswapLocalState → Cmd ck (Unit {0})
  write_zswap_state path state = do
    encoded ← dies_of (ck.kit.encode_zswap_state state)
    json ← by_schema (ck.encode_zswap_object encoded)
    text ← dies_of (ck.stringify_json json)
    write_text path text

  unfoldable pub write_result : Text → ck.kit.ReturnValue → Cmd ck (Unit {0})
  write_result path value = do
    text ← dies_of (ck.stringify_json (ck.json_of_result value))
    write_text path text

  unfoldable pub write_intent : Text → ck.Intent → Cmd ck (Unit {0})
  write_intent path intent = do bytes ← dies_of (ck.serialize intent); write_bytes path bytes

  -- What is written once the circuit has run.
  unfoldable pub write_circuit_outputs :
      CircuitInputs → CallResult ck.kit → ck.Intent → Cmd ck (Unit {0})
  unfolding write_result write_private_state write_zswap_state write_intent
  write_circuit_outputs inputs result intent = do
    write_result inputs.output_result_file_path result.result
    write_intent inputs.output_file_path intent
    write_private_state inputs.output_private_state_file_path result.private_state
    write_zswap_state inputs.output_zswap_local_state_file_path result.zswap_local_state

  unfoldable pub invoke_circuit : ContractModule ck → CircuitInputs → Cmd ck (Unit {0})
  unfolding run_circuit call_intent write_circuit_outputs
  invoke_circuit m inputs = do
    run ← run_circuit m inputs
    shown ← dies_of (ck.stringify_indented (ck.json_of_result run.0.result))
    log shown
    intent ← call_intent inputs run.0 run.1
    write_circuit_outputs inputs run.0 intent

  unfoldable pub circuit_handler :
      ContractModule ck → CircuitInputs → Exec (CommandFailure ck) (World ck) (Unit {0})
  unfolding map_error invoke_circuit
  circuit_handler m inputs = map_error failed_to_invoke_circuit (invoke_circuit m inputs)

  -- The contract is initialised from the arguments.
  unfoldable pub run_constructor_command :
      ContractModule ck → DeployInputs → Cmd ck (DeployResult ck.kit)
  run_constructor_command m inputs = do
    parser ← create_argument_parser m.base_folder m.assets_path
    initial ← dies_of m.create_initial_private_state
    args ← parsed_arguments (parse_initialization_args ck.host parser inputs.args)
    execute (initialize m.compiled m.config initial args)

  unfoldable pub deploy_intent : DeployResult ck.kit → Cmd ck ck.Intent
  deploy_intent result = do
    until ← ttl
    intent ← dies_of (ck.new_intent until)
    ledger ← as_ledger_contract_state result.contract_state
    dies_of (ck.add_deploy intent ledger)

  -- What is written once the contract is initialised.
  unfoldable pub write_deploy_outputs :
      DeployInputs → DeployResult ck.kit → ck.Intent → Cmd ck (Unit {0})
  unfolding write_private_state write_zswap_state write_intent
  write_deploy_outputs inputs result intent = do
    write_intent inputs.output_file_path intent
    write_private_state inputs.output_private_state_file_path result.private_state
    write_zswap_state inputs.output_zswap_local_state_file_path result.zswap_local_state

  unfoldable pub initialize_contract : ContractModule ck → DeployInputs → Cmd ck (Unit {0})
  unfolding run_constructor_command deploy_intent write_deploy_outputs
  initialize_contract m inputs = do
    result ← run_constructor_command m inputs
    intent ← deploy_intent result
    write_deploy_outputs inputs result intent

  unfoldable pub deploy_handler :
      ContractModule ck → DeployInputs → Exec (CommandFailure ck) (World ck) (Unit {0})
  unfolding map_error initialize_contract
  deploy_handler m inputs = map_error failed_to_initialize_contract (initialize_contract m inputs)
