-- ===== src/Commands/Handlers/Deploys.antt =====
-- The files that deployCommand.ts and the maintenance commands of compact-js-command write.
use midnight_js.Prelude.{ℕ, ◌≡◌, refl, ◌⊎◌, inl, inr, List, [], ◌∷◌, Text, Result, ok, err}
use midnight_js.Prelude.Exec.Triples.{
  Post, Triple, Triple-bind, Triple-frame, Triple-weaken, Triple-weaken_rejects, Triple-fact,
  Triple-assume,
}
use midnight_js.Executable.{Machine}
use midnight_js.Executable.Operations.{DeployResult, initialize}
use midnight_js.Commands.Files.{Bytes, CommandKit, Stop, World, Cmd}
use midnight_js.Commands.Handlers.{
  ContractModule, DeployInputs, run_constructor_command, deploy_intent, write_deploy_outputs,
  initialize_contract, deploy_handler, failed_to_initialize_contract,
}
use midnight_js.Commands.Handlers.Writes.{
  writes, command_rules, Post-mapped, Triple-as_ledger, Written, WrittenSome, Triple-dies_of,
  WritesAll, last_write, next_write, Still,
}
use midnight_js.Commands.Handlers.Contents.{
  IsIntent, IsPrivateState, IsZswapState, write_intent-WritesOne, write_private_state-WritesOne,
  write_zswap_state-WritesOne, execute_returns,
}

module _ (ck : CommandKit) (m : ContractModule ck) where
  module _ (inputs : DeployInputs) where
    -- The contract's constructor was run with this result.
    abbrev pub Initialized : DeployResult ck.kit → Type 0
    Initialized result =
        (initial : ck.kit.PrivateState) × (args : ck.kit.Args) × (before : Machine ck.kit)
        × (after : Machine ck.kit) × (m.create_initial_private_state ≡ ok initial)
        × (initialize m.compiled m.config initial args before ≡ (ok result, after))

    -- The intent is a new one with the deployment of the constructor's contract state added.
    abbrev pub HoldsDeploy : DeployResult ck.kit → ck.Intent → Type 0
    HoldsDeploy result intent =
        (until : ℕ) × (fresh : ck.Intent) × (ledger : ck.LedgerState) × (ck.new_intent until
          ≡ ok fresh)
        × (ck.ledger_of_state result.contract_state ≡ ok ledger)
        × (ck.add_deploy fresh ledger ≡ ok intent)

    abbrev DeployIntent : ck.Intent → Text × Bytes → Type 0
    DeployIntent intent = IsIntent ck inputs.output_file_path intent

    abbrev PrivateEntry : DeployResult ck.kit → Text × Bytes → Type 0
    PrivateEntry result =
        IsPrivateState ck inputs.output_private_state_file_path result.private_state

    abbrev ZswapEntry : DeployResult ck.kit → Text × Bytes → Type 0
    ZswapEntry result =
        IsZswapState ck inputs.output_zswap_local_state_file_path result.zswap_local_state

    -- What the command writes, in order.
    abbrev pub deploy_outputs : DeployResult ck.kit → ck.Intent → List (Text × Bytes → Type 0)
    deploy_outputs result intent =
        DeployIntent intent ∷ PrivateEntry result ∷ ZswapEntry result ∷ []

    -- The writes of a run that has got to them.
    abbrev pub DeployWrites :
        (List (Text × Bytes → Type 0) → List (Text × Bytes) → List (Text × Bytes) → Type 0)
        → List (Text × Bytes)
        → List (Text × Bytes)
        → Type 0
    DeployWrites W now before =
        (result : DeployResult ck.kit) × (intent : ck.Intent) × Initialized result
        × HoldsDeploy result intent
        × W (deploy_outputs result intent) now before

    abbrev Rejected : List (Text × Bytes) → {E : Type 0} → E → World ck → Type 0
    Rejected before _ w = (writes w ≡ before) ⊎ DeployWrites WrittenSome (writes w) before

    write_deploy-WritesAll :
        (before : List (Text × Bytes)) (result : DeployResult ck.kit) (intent : ck.Intent)
        → WritesAll
            (deploy_outputs result intent)
            before
            (write_deploy_outputs {ck = ck} inputs result intent)
    unfolding write_deploy_outputs
    write_deploy-WritesAll before result intent =
        next_write (DeployIntent intent) (PrivateEntry result ∷ ZswapEntry result ∷ []) before _ _
          (write_intent-WritesOne ck before inputs.output_file_path intent)
          λ one.
            next_write (PrivateEntry result) (ZswapEntry result ∷ []) (one ∷ before) _ _
              (write_private_state-WritesOne ck (one ∷ before) inputs.output_private_state_file_path
                result.private_state)
              λ two. last_write (ZswapEntry result) (two ∷ one ∷ before) _ (
                write_zswap_state-WritesOne ck (two ∷ one ∷ before)
                  inputs.output_zswap_local_state_file_path result.zswap_local_state)

    run_constructor-Initialized :
        (before : List (Text × Bytes))
        → Triple
            (λ w. writes w ≡ before)
            (run_constructor_command m inputs)
            (λ result w. Initialized result × (writes w ≡ before))
            (Still before)
    unfolding run_constructor_command
    run_constructor-Initialized before =
        Triple-bind _ _ (Triple-frame before _ (search command_rules)) λ parser.
          Triple-bind _ _ (Triple-dies_of before _) λ initial.
            Triple-bind _ _ (Triple-fact _ (Triple-frame before _ (search command_rules))) λ args.
              Triple-weaken _ (λ _ h. h) (Triple-fact _ (execute_returns ck before _))
                λ result w (made, ((x, y, e), h)). ((initial, args, x, y, made, e), h)

    deploy_intent-HoldsDeploy :
        (before : List (Text × Bytes)) (result : DeployResult ck.kit)
        → Triple
            (λ w. writes w ≡ before)
            (deploy_intent {ck = ck} result)
            (λ intent w. HoldsDeploy result intent × (writes w ≡ before))
            (Still before)
    unfolding deploy_intent
    deploy_intent-HoldsDeploy before result =
        Triple-bind _ _ (Triple-frame before _ (search command_rules)) λ until.
          Triple-bind _ _ (Triple-dies_of before _) λ fresh. Triple-assume _ λ made.
            Triple-bind _ _ (Triple-as_ledger before result.contract_state) λ ledger.
              Triple-assume _ λ same.
                Triple-weaken _ (λ _ h. h) (Triple-dies_of before _)
                  λ intent w (added, h). ((until, fresh, ledger, made, same, added), h)

    combined :
        (before : List (Text × Bytes)) (result : DeployResult ck.kit) (intent : ck.Intent)
        → Initialized result
        → HoldsDeploy result intent
        → (r : Result (Stop ck) (Unit {0})) (w : World ck)
        → Post
            (λ _ v. Written (deploy_outputs result intent) (writes v) before)
            (λ _ v. WrittenSome (deploy_outputs result intent) (writes v) before)
            r
            w
        → Post (λ _ v. DeployWrites Written (writes v) before) (Rejected before) r w
    combined before result intent made held (ok tt) w h = (result, intent, made, held, h)
    combined before result intent made held (err e) w h = inr (result, intent, made, held, h)

    initialize_contract-DeployWrites :
        (before : List (Text × Bytes))
        → Triple
            (λ w. writes w ≡ before)
            (initialize_contract m inputs)
            (λ _ w. DeployWrites Written (writes w) before)
            (Rejected before)
    unfolding initialize_contract
    initialize_contract-DeployWrites before =
        Triple-bind _ _ (quiet (run_constructor-Initialized before)) λ result.
          Triple-bind _ _ (quiet (Triple-fact _ (deploy_intent-HoldsDeploy before result)))
            λ intent. record {
              at = λ w (made, (held, h)).
                  combined before result intent made held
                    (write_deploy_outputs inputs result intent w).0 _
                    ((write_deploy-WritesAll before result intent).at w h);
            }
      where
        quiet :
            {A : Type 0} {P : World ck → Type 0} {Q : A → World ck → Type 0} {n : Cmd ck A}
            → Triple P n Q (Still before)
            → Triple P n Q (Rejected before)
        quiet {n} h = Triple-weaken_rejects n h (λ _ w e. inl e)

    -- The command of a deployment that resolves has initialised the contract and completed three
    -- writes in this order: the intent, a new one with the deployment of the constructor's contract
    -- state; the private state; the local zswap state. One that fails has completed no write, or has
    -- initialised the contract and completed the first of these writes.
    pub deploy_handler-DeployWrites :
        (w : World ck)
        → Post
            (λ _ v. DeployWrites Written (writes v) w.writes)
            (λ _ v. (writes v ≡ w.writes) ⊎ DeployWrites WrittenSome (writes v) w.writes)
            (deploy_handler m inputs w).0
            (deploy_handler m inputs w).1
    unfolding deploy_handler
    deploy_handler-DeployWrites w =
        Post-mapped _ _ failed_to_initialize_contract (initialize_contract m inputs w).0
          (initialize_contract m inputs w).1 ((initialize_contract-DeployWrites w.writes).at w refl)
