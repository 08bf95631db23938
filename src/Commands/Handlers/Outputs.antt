-- ===== src/Commands/Handlers/Outputs.antt =====
-- The files that circuitCommand.ts of compact-js-command writes.
use midnight_js.Prelude.{
  ℕ, ◌≡◌, refl, ◌⊎◌, inl, inr, Option, none, some, List, [], ◌∷◌, Text, Result, ok, err,
}
use midnight_js.Prelude.Exec.Frames.{Frames}
use midnight_js.Prelude.Exec.Triples.{
  Post, Triple, Triple-bind, Triple-pure, Triple-frame, Triple-weaken, Triple-weaken_rejects,
  Triple-fact, Triple-assume,
}
use midnight_js.Executable.{Machine}
use midnight_js.Executable.Operations.{CallResult, CircuitContext, circuit}
use midnight_js.Commands.Files.{Bytes, CommandKit, Stop, World, Cmd}
use midnight_js.Commands.Handlers.{
  ContractModule, CircuitInputs, private_state_or_initial, read_zswap_local_state, run_circuit,
  call_intent, write_circuit_outputs, invoke_circuit,
}
use midnight_js.Commands.Handlers.Writes.{
  writes, command_rules, Frames-as_ledger, Triple-as_contract_state, Triple-dies_of, Written,
  WrittenSome, WritesAll, last_write, next_write, Still,
}
use midnight_js.Commands.Handlers.Contents.{
  IsResult, IsIntent, IsPrivateState, IsZswapState, write_result-WritesOne, write_intent-WritesOne,
  write_private_state-WritesOne, write_zswap_state-WritesOne, execute_returns,
}

module _ (ck : CommandKit) where
  Frames-private_state :
      (m : ContractModule ck) (o : Option ck.kit.PrivateState)
      → Frames writes (private_state_or_initial m o)
  unfolding private_state_or_initial
  Frames-private_state m (some state) = search command_rules
  Frames-private_state m none = search command_rules

  Frames-zswap : (o : Option Text) → Frames (writes {ck = ck}) (read_zswap_local_state o)
  unfolding read_zswap_local_state
  Frames-zswap none = search command_rules
  Frames-zswap (some path) = search command_rules depth 8

  module _ (m : ContractModule ck) (inputs : CircuitInputs) where
    -- The circuit was run, at the address of the inputs and on the contract state that this ledger
    -- state stands for, with this result.
    abbrev pub Ran : CallResult ck.kit → ck.LedgerState → Type 0
    Ran result ledger =
        (context : CircuitContext ck.kit) × (args : ck.kit.Args) × (before : Machine ck.kit)
        × (after : Machine ck.kit) × (context.at.address ≡ inputs.address)
        × (ck.state_of_ledger ledger ≡ ok context.at.contract_state)
        × (circuit m.compiled m.config inputs.circuit_id context args before ≡ (ok result, after))

    -- The intent is a new one with the call added: of the circuit of the inputs at their address,
    -- with the ledger's operation and the run's transcripts, input and output.
    abbrev pub HoldsCall : CallResult ck.kit → ck.LedgerState → ck.Intent → Type 0
    HoldsCall result ledger intent =
        (until : ℕ) × (fresh : ck.Intent) × (randomness : Text) × (ck.new_intent until ≡ ok fresh)
        × (ck.add_call fresh (record {
          address = inputs.address;
          entry_point = inputs.circuit_id;
          operation = ck.ledger_operation ledger inputs.circuit_id;
          transcripts = result.partitioned_transcript;
          private_transcript_outputs = result.private_transcript_outputs;
          input = result.input;
          output = result.output;
          randomness = randomness;
        })
            ≡ ok intent)

    abbrev ResultEntry : CallResult ck.kit → Text × Bytes → Type 0
    ResultEntry result = IsResult ck inputs.output_result_file_path result.result

    abbrev IntentEntry : ck.Intent → Text × Bytes → Type 0
    IntentEntry intent = IsIntent ck inputs.output_file_path intent

    abbrev PrivateEntry : CallResult ck.kit → Text × Bytes → Type 0
    PrivateEntry result =
        IsPrivateState ck inputs.output_private_state_file_path result.private_state

    abbrev ZswapEntry : CallResult ck.kit → Text × Bytes → Type 0
    ZswapEntry result =
        IsZswapState ck inputs.output_zswap_local_state_file_path result.zswap_local_state

    -- What the command writes, in order.
    abbrev pub circuit_outputs : CallResult ck.kit → ck.Intent → List (Text × Bytes → Type 0)
    circuit_outputs result intent =
        ResultEntry result ∷ IntentEntry intent ∷ PrivateEntry result ∷ ZswapEntry result ∷ []

    -- The writes of a run that has got to them.
    abbrev pub CircuitWrites :
        (List (Text × Bytes → Type 0) → List (Text × Bytes) → List (Text × Bytes) → Type 0)
        → List (Text × Bytes)
        → List (Text × Bytes)
        → Type 0
    CircuitWrites W now before =
        (result : CallResult ck.kit) × (ledger : ck.LedgerState) × (intent : ck.Intent) × Ran result
          ledger
        × HoldsCall result ledger intent
        × W (circuit_outputs result intent) now before

    write_outputs-WritesAll :
        (before : List (Text × Bytes)) (result : CallResult ck.kit) (intent : ck.Intent)
        → WritesAll
            (circuit_outputs result intent)
            before
            (write_circuit_outputs {ck = ck} inputs result intent)
    unfolding write_circuit_outputs
    write_outputs-WritesAll before result intent =
        next_write (ResultEntry result)
          (IntentEntry intent ∷ PrivateEntry result ∷ ZswapEntry result ∷ []) before _ _
          (write_result-WritesOne ck before inputs.output_result_file_path result.result)
          λ one.
            next_write (IntentEntry intent) (PrivateEntry result ∷ ZswapEntry result ∷ [])
              (one ∷ before) _ _
              (write_intent-WritesOne ck (one ∷ before) inputs.output_file_path intent)
              λ two.
                next_write (PrivateEntry result) (ZswapEntry result ∷ []) (two ∷ one ∷ before) _ _
                  (write_private_state-WritesOne ck (two ∷ one ∷ before)
                    inputs.output_private_state_file_path result.private_state)
                  λ three. last_write (ZswapEntry result) (three ∷ two ∷ one ∷ before) _ (
                    write_zswap_state-WritesOne ck (three ∷ two ∷ one ∷ before)
                      inputs.output_zswap_local_state_file_path result.zswap_local_state)

    run_circuit-Ran :
        (before : List (Text × Bytes))
        → Triple
            (λ w. writes w ≡ before)
            (run_circuit m inputs)
            (λ run w. Ran run.0 run.1 × (writes w ≡ before))
            (Still before)
    unfolding run_circuit
    run_circuit-Ran before =
        Triple-bind _ _ (Triple-frame before _ (search command_rules)) λ parser.
          Triple-bind _ _ (Triple-frame before _ (search command_rules)) λ bytes.
            Triple-bind _ _ (Triple-frame before _ (Frames-as_ledger bytes)) λ ledger.
              Triple-bind _ _ (Triple-frame before _ (search command_rules)) λ private_text.
                Triple-bind _ _ (Triple-frame before _ (search command_rules)) λ private_json.
                  Triple-bind _ _ (Triple-as_contract_state before ledger) λ state.
                    Triple-assume _ λ same.
                      Triple-bind _ _ (Triple-frame before _ (Frames-private_state m _))
                        λ private_state.
                          Triple-bind _ _ (Triple-frame before _ (Frames-zswap _)) λ zswap.
                            Triple-bind _ _ (Triple-frame before _ (search command_rules)) λ args.
                              Triple-bind _ _ (execute_returns ck before _) λ result.
                                Triple-pure _
                                  λ w ((x, y, e), h). ((_, args, x, y, refl, same, e), h)

    combined :
        (before : List (Text × Bytes)) (result : CallResult ck.kit) (ledger : ck.LedgerState)
        (intent : ck.Intent)
        → Ran result ledger
        → HoldsCall result ledger intent
        → (r : Result (Stop ck) (Unit {0})) (w : World ck)
        → Post
            (λ _ v. Written (circuit_outputs result intent) (writes v) before)
            (λ _ v. WrittenSome (circuit_outputs result intent) (writes v) before)
            r
            w
        → Post
            (λ _ v. CircuitWrites Written (writes v) before)
            (λ _ v. (writes v ≡ before) ⊎ CircuitWrites WrittenSome (writes v) before)
            r
            w
    combined before result ledger intent ran held (ok tt) w h =
        (result, ledger, intent, ran, held, h)
    combined before result ledger intent ran held (err e) w h =
        inr (result, ledger, intent, ran, held, h)

    call_intent-HoldsCall :
        (before : List (Text × Bytes)) (result : CallResult ck.kit) (ledger : ck.LedgerState)
        → Triple
            (λ w. writes w ≡ before)
            (call_intent {ck = ck} inputs result ledger)
            (λ intent w. HoldsCall result ledger intent × (writes w ≡ before))
            (Still before)
    unfolding call_intent
    call_intent-HoldsCall before result ledger =
        Triple-bind _ _ (Triple-frame before _ (search command_rules)) λ until.
          Triple-bind _ _ (Triple-dies_of before _) λ fresh. Triple-assume _ λ made.
            Triple-bind _ _ (Triple-frame before _ (search command_rules)) λ randomness.
              Triple-weaken _ (λ _ h. h) (Triple-dies_of before _)
                λ intent w (added, h). ((until, fresh, randomness, made, added), h)

    abbrev pub Rejected : List (Text × Bytes) → {E : Type 0} → E → World ck → Type 0
    Rejected before _ w = (writes w ≡ before) ⊎ CircuitWrites WrittenSome (writes w) before

    pub invoke_circuit-CircuitWrites :
        (before : List (Text × Bytes))
        → Triple
            (λ w. writes w ≡ before)
            (invoke_circuit m inputs)
            (λ _ w. CircuitWrites Written (writes w) before)
            (Rejected before)
    unfolding invoke_circuit
    invoke_circuit-CircuitWrites before = Triple-bind _ _ (quiet (run_circuit-Ran before)) λ run.
        Triple-bind _ _ (quiet (Triple-fact _ (Triple-frame before _ (search command_rules))))
          λ shown.
            Triple-bind _ _ (quiet (Triple-fact _ (Triple-frame before _ (search command_rules))))
              λ _.
                Triple-bind _ _ (quiet (Triple-fact _ (call_intent-HoldsCall before run.0 run.1)))
                  λ intent. record {
                    at = λ w (ran, (held, h)).
                        combined before run.0 run.1 intent ran held
                          (write_circuit_outputs inputs run.0 intent w).0 _
                          ((write_outputs-WritesAll before run.0 intent).at w h);
                  }
      where
        quiet :
            {A : Type 0} {P : World ck → Type 0} {Q : A → World ck → Type 0} {n : Cmd ck A}
            → Triple P n Q (Still before)
            → Triple P n Q (Rejected before)
        quiet {n} h = Triple-weaken_rejects n h (λ _ w e. inl e)
