-- ===== src/Commands/Maintain/Updates.antt =====
-- The files that maintainCircuitCommand.ts and maintainContractCommand.ts of compact-js-command write.
use midnight_js.Prelude.{ℕ, ◌≡◌, refl, ap, ◌∙◌, Option, none, some, List, ◌∷◌, Text, ok}
use midnight_js.Prelude.Exec.{◌>>=◌}
use midnight_js.Prelude.Exec.Triples.{
  Post, Triple, Triple-bind, Triple-frame, Triple-weaken, Triple-fact, Triple-assume, Triple-pure,
}
use midnight_js.Executable.{ContractContext, Machine, E}
use midnight_js.Executable.Operations.{
  MaintenanceResult, replace_contract_maintenance_authority, remove_contract_operation,
  add_or_replace_contract_operation,
}
use midnight_js.Commands.Files.{Bytes, CommandKit, World, Cmd, read_bytes}
use midnight_js.Commands.Handlers.{ContractModule, failed_to_apply_maintenance}
use midnight_js.Commands.Maintain.{
  MaintainInputs, read_context, write_update, replace_authority, maintain_contract_handler,
}
use midnight_js.Commands.Handlers.Writes.{
  writes, command_rules, Post-mapped, Frames-as_ledger, Frames-read_bytes, Frames-as_contract_state,
  Triple-dies_of, Still,
}
use midnight_js.Commands.Handlers.Contents.{write_intent-WritesOne, execute_returns}

module _ (ck : CommandKit) (inputs : MaintainInputs) where
  -- A new intent with the update, which is the only write that is completed.
  abbrev pub WritesUpdate :
      MaintenanceResult ck.kit → List (Text × Bytes) → List (Text × Bytes) → Type 0
  WritesUpdate result now before =
      (until : ℕ) × (empty : ck.Intent) × (intent : ck.Intent) × (bytes : Bytes) × (ck.new_intent
          until
        ≡ ok empty)
      × (ck.add_maintenance_update empty result.maintenance_update ≡ ok intent)
      × (ck.serialize intent ≡ ok bytes)
      × (now ≡ (inputs.output_file_path, bytes) ∷ before)

  write_update-WritesUpdate :
      (before : List (Text × Bytes)) (result : MaintenanceResult ck.kit)
      → Triple
          (λ w. writes w ≡ before)
          (write_update {ck = ck} inputs result)
          (λ _ w. WritesUpdate result (writes w) before)
          (Still before)
  unfolding write_update
  write_update-WritesUpdate before result =
      Triple-bind _ _ (Triple-frame before _ (search command_rules)) λ until.
        Triple-bind _ _ (Triple-dies_of before _) λ empty. Triple-assume _ λ made.
          Triple-bind _ _ (Triple-dies_of before _) λ intent.
            Triple-weaken _ (λ _ h. h)
              (Triple-fact _ (write_intent-WritesOne ck before inputs.output_file_path intent))
              λ _ w (added, (entry, (bytes, e, same), h)).
                (until, empty, intent, bytes, made, added, e, h ∙ ap (λ x. x ∷ before) same)

  -- The state that is changed is read, and stands at the address of the inputs.
  read_context_lem :
      (before : List (Text × Bytes))
      → Triple
          (λ w. writes w ≡ before)
          (read_context {ck = ck} inputs)
          (λ context w. (context.address ≡ inputs.address) × (writes w ≡ before))
          (Still before)
  unfolding read_context
  read_context_lem before = Triple-bind _ _ (Triple-frame before _ (Frames-read_bytes _)) λ b.
      Triple-bind _ _ (Triple-frame before _ (Frames-as_ledger b)) λ ledger.
        Triple-bind _ _ (Triple-frame before _ (Frames-as_contract_state ledger))
          λ state. Triple-pure _ λ w h. (refl, h)

  -- This operation on a contract has returned the result.
  abbrev pub Applied :
      (ContractContext ck.kit → E ck.kit (MaintenanceResult ck.kit))
      → ContractContext ck.kit
      → MaintenanceResult ck.kit
      → Type 0
  Applied op context result =
      (u : Machine ck.kit) × (v : Machine ck.kit) × (op context u ≡ (ok result, v))

  -- The change was made to the contract at the address, and an intent with its update is written.
  abbrev pub MaintainWrites :
      (ContractContext ck.kit → MaintenanceResult ck.kit → Type 0)
      → List (Text × Bytes)
      → List (Text × Bytes)
      → Type 0
  MaintainWrites Changed now before =
      (context : ContractContext ck.kit) × (result : MaintenanceResult ck.kit) × (context.address
        ≡ inputs.address)
      × Changed context result
      × WritesUpdate result now before

  -- A change that writes nothing, between the reading of the state and the writing of the intent.
  maintained :
      (before : List (Text × Bytes))
      (change : ContractContext ck.kit → Cmd ck (MaintenanceResult ck.kit))
      (Changed : ContractContext ck.kit → MaintenanceResult ck.kit → Type 0)
      → ((context : ContractContext ck.kit)
          → Triple
              (λ w. writes w ≡ before)
              (change context)
              (λ result w. Changed context result × (writes w ≡ before))
              (Still before))
      → Triple
          (λ w. writes w ≡ before)
          (read_context inputs >>= λ context. change context >>= write_update inputs)
          (λ _ w. MaintainWrites Changed (writes w) before)
          (Still before)
  maintained before change Changed made = Triple-bind _ _ (read_context_lem before) λ context.
      Triple-assume _ λ here. Triple-bind _ _ (made context) λ result.
        Triple-weaken _ (λ _ h. h) (Triple-fact _ (write_update-WritesUpdate before result))
          λ _ w (changed, h). (context, result, here, changed, h)

  module _ (m : ContractModule ck) (circuit_id : Text) where
    -- With a path, the circuit's operation was added or replaced, with the verifier key that was
    -- read there; without one, it was removed.
    abbrev pub CircuitChanged :
        Option Text → ContractContext ck.kit → MaintenanceResult ck.kit → Type 0
    CircuitChanged none context result =
        Applied (remove_contract_operation m.config circuit_id) context result
    CircuitChanged (some path) context result =
        (bytes : Bytes) × ((u : World ck) × (v : World ck) × (read_bytes path u ≡ (ok bytes, v)))
        × Applied (add_or_replace_contract_operation m.config circuit_id (ck.verifier_key bytes))
            context result

  -- The same of the command that replaces the authority.
  pub maintain_contract_handler-MaintainWrites :
      (m : ContractModule ck) (new_signing_key : Text) (w : World ck)
      → Post
          (λ _ v.
            MaintainWrites
              (Applied (replace_contract_maintenance_authority m.config (some new_signing_key)))
              (writes v)
              w.writes)
          (λ _ v. writes v ≡ w.writes)
          (maintain_contract_handler m inputs new_signing_key w).0
          (maintain_contract_handler m inputs new_signing_key w).1
  unfolding maintain_contract_handler replace_authority
  maintain_contract_handler-MaintainWrites m new_signing_key w =
      Post-mapped
        (λ _ v.
          MaintainWrites
            (Applied (replace_contract_maintenance_authority m.config (some new_signing_key)))
            (writes v) w.writes)
        (λ v. writes v ≡ w.writes) failed_to_apply_maintenance
        (replace_authority m inputs new_signing_key w).0
        (replace_authority m inputs new_signing_key w).1
        ((maintained w.writes _
            (Applied (replace_contract_maintenance_authority m.config (some new_signing_key)))
            (λ context. execute_returns ck w.writes _)).at
          w refl)
