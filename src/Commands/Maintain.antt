-- ===== src/Commands/Maintain.antt =====
-- maintainCircuitCommand.ts, maintainContractCommand.ts and maintainCommand.ts of
-- compact-js/compact-js-command/src/effect/internal.
pub mod Updates
use midnight_js.Prelude.{
  ℕ, zero, suc, ◌+◌, ◌-◌, ◌*◌, ◌/◌, ◌%◌, ◌≤◌, ◌<◌, ◌≡◌, refl, sym, ap, subst, ◌∙◌, ◌≢◌, ◌↔◌, ◌⊎◌,
  inl, inr, Bool, true, false, not, ◌&&◌, ◌||◌, Option, none, some, List, [], ◌∷◌, ◌++◌, map, arith,
  ltb, leb, ◌==◌, if◌then◌else◌, ==_iff, Bool-cases, Option-cases, length, get_elem?, is_empty, any,
  all, length-append, All, Text, codes, text_eq, text_eq_iff, text_eq_refl, Result, ok, err,
  throw_if, Result-cases, Returns, returns, throws, ◌⟫◌, weaken, of_ok, if-Returns, anything,
  Entries, map_get, map_set, map_delete, keys, map_get-map_set, map_get-map_delete, update,
}
use midnight_js.Prelude.Exec.{Exec, pure, throw, ◌>>=◌, ◌>>◌}
use midnight_js.Executable.{KeyConfig, ContractContext}
use midnight_js.Executable.Parameters.{Toolkit, CompiledContract}
use midnight_js.Executable.Operations.{
  DeployResult, CallResult, MaintenanceResult, CircuitContext, initialize, circuit,
  replace_contract_maintenance_authority, remove_contract_operation,
  add_or_replace_contract_operation,
}
use midnight_js.Reflection.Parser.{ArgumentParser, parse_circuit_args, parse_initialization_args}
use midnight_js.Commands.Files.{
  Bytes, CommandKit, CallPrototype, Stop, not_implemented, died_of, died_of_undefined, World, Cmd,
  read_bytes, read_text, write_bytes, write_text, dies_of, as_ledger_contract_state,
  as_ledger_contract_state_from_bytes, as_contract_state, by_schema, execute, call_outside, ttl,
  log, create_argument_parser, parsed_arguments,
}
use midnight_js.Commands.Handlers.{
  ContractModule, CommandFailure, failed_to_apply_maintenance, map_error, write_intent,
}

pub record MaintainInputs : Type 0 where
  pub address : Text
  pub input_file_path : Text
  pub output_file_path : Text

module _ {ck : CommandKit} where
  unfoldable pub read_context : MaintainInputs → Cmd ck (ContractContext ck.kit)
  read_context inputs = do
    bytes ← read_bytes inputs.input_file_path
    ledger ← as_ledger_contract_state_from_bytes bytes
    state ← as_contract_state ledger
    pure (record { address = inputs.address; contract_state = state })

  unfoldable pub write_update : MaintainInputs → MaintenanceResult ck.kit → Cmd ck (Unit {0})
  unfolding write_intent
  write_update inputs result = do
    until ← ttl
    intent ← dies_of (ck.new_intent until)
    next ← dies_of (ck.add_maintenance_update intent result.maintenance_update)
    write_intent inputs.output_file_path next

  unfoldable pub replace_authority : ContractModule ck → MaintainInputs → Text → Cmd ck (Unit {0})
  unfolding read_context write_update
  replace_authority m inputs new_signing_key = do
    context ← read_context inputs
    result ←
        execute (replace_contract_maintenance_authority m.config (some new_signing_key) context)
    write_update inputs result

  unfoldable pub maintain_contract_handler :
      ContractModule ck → MaintainInputs → Text → Exec (CommandFailure ck) (World ck) (Unit {0})
  unfolding map_error replace_authority
  maintain_contract_handler m inputs new_signing_key =
      map_error failed_to_apply_maintenance (replace_authority m inputs new_signing_key)

  -- With a path the circuit gets the verifier key that is read; without it is removed.
  unfoldable pub change_circuit :
      ContractModule ck
      → Text
      → Option Text
      → ContractContext ck.kit
      → Cmd ck (MaintenanceResult ck.kit)
  change_circuit m circuit_id (some path) context = do
    bytes ← read_bytes path
    execute (add_or_replace_contract_operation m.config circuit_id (ck.verifier_key bytes) context)
  change_circuit m circuit_id none context =
      execute (remove_contract_operation m.config circuit_id context)

  unfoldable pub maintain_circuit :
      ContractModule ck → MaintainInputs → Text → Option Text → Cmd ck (Unit {0})
  unfolding read_context change_circuit write_update
  maintain_circuit m inputs circuit_id verifier_key_path = do
    context ← read_context inputs
    result ← change_circuit m circuit_id verifier_key_path context
    write_update inputs result

  unfoldable pub maintain_circuit_handler :
      ContractModule ck
      → MaintainInputs
      → Text
      → Option Text
      → Exec (CommandFailure ck) (World ck) (Unit {0})
  unfolding map_error maintain_circuit
  maintain_circuit_handler m inputs circuit_id verifier_key_path =
      map_error failed_to_apply_maintenance (maintain_circuit m inputs circuit_id verifier_key_path)

  -- The root command, which is not implemented.
  unfoldable pub maintain_handler : Cmd ck (Unit {0})
  maintain_handler = throw not_implemented
