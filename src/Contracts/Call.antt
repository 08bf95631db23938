-- ===== src/Contracts/Call.antt =====
-- packages/contracts/src/call.ts and call-constructor.ts: running a circuit and a constructor.
pub mod Frames
use midnight_js.Prelude.{
  ℕ, ◌/◌, true, Option, none, some, List, [], ◌∷◌, Text, Result, ok, err, map_get, length,
}
use midnight_js.Prelude.Exec.{pure, throw, assert_defined, ◌>>=◌}
use midnight_js.Contracts.Runtime.{
  circuit_of, Runtime, ZswapLocalState, Contract, CircuitContext, CircuitResults, ProofData,
  ConstructorResult,
}
use midnight_js.Contracts.World.{
  M, circuit_undefined, partition_count, outside_call, library_call, get_zswap_network_id,
  parse_coin_public_key_to_hex,
}
use midnight_js.Contracts.LedgerTx.{to_ledger_query_context}

pub record CallOptions (rt : Runtime) : Type 0 where
  pub contract : Contract rt
  pub circuit_id : Text
  pub contract_address : Text
  pub args : Option rt.Args
  pub coin_public_key : Text
  pub initial_contract_state : rt.ContractState
  pub initial_zswap_chain_state : rt.ZswapChainState
  pub initial_private_state : Option rt.PrivateState

pub record CallResultPrivate (rt : Runtime) : Type 0 where
  pub input : rt.AlignedValue
  pub output : rt.AlignedValue
  pub private_transcript_outputs : List rt.AlignedValue
  pub result : rt.ReturnValue
  pub next_private_state : rt.PrivateState
  pub next_zswap_local_state : ZswapLocalState

pub record CallResultPublic (rt : Runtime) : Type 0 where
  pub next_contract_state : rt.StateValue
  pub public_transcript : rt.PublicTranscript
  pub partitioned_transcript : Option rt.Transcript × Option rt.Transcript

pub record CallResult (rt : Runtime) : Type 0 where
  pub public_part : CallResultPublic rt
  pub private_part : CallResultPrivate rt

module _ (rt : Runtime) where
  -- the `reduce` over `comIndicies`
  insert_commitments : rt.LedgerQueryContext → List (Text × ℕ) → rt.LedgerQueryContext
  insert_commitments context [] = context
  insert_commitments context (entry ∷ entries) =
      insert_commitments (rt.insert_commitment context entry) entries

  -- `'initialPrivateState' in options ? options.initialPrivateState : undefined`
  abbrev pub state_or_undefined : Option rt.PrivateState → rt.PrivateState
  state_or_undefined none = rt.undefined_state
  state_or_undefined (some state) = state

module _ (rt : Runtime) where
  -- the check on the number of partition pairs
  single_pair :
      List (Option rt.Transcript × Option rt.Transcript)
      → M rt (Option rt.Transcript × Option rt.Transcript)
  single_pair (pair ∷ []) = pure pair
  single_pair pairs = throw (partition_count (length pairs))

  unfoldable pub partition_transcript :
      rt.QueryContext
      → rt.QueryContext
      → rt.PublicTranscript
      → M rt (Option rt.Transcript × Option rt.Transcript)
  unfolding insert_commitments single_pair
  partition_transcript initial final transcript = do
    let context = insert_commitments rt (to_ledger_query_context rt initial) (rt.com_indices final)
    pairs ← library_call rt (rt.partition_transcripts ((context, transcript) ∷ []))
    single_pair pairs

  unfoldable pub call : CallOptions rt → M rt (CallResult rt)
  call options = do
    circuit ←
        assert_defined (λ _. true) (circuit_undefined options.circuit_id)
          (circuit_of options.contract options.circuit_id)
    now ← outside_call rt rt.date_now
    let initial =
        rt.with_seconds_since_epoch
          (rt.new_query_context (rt.state_data options.initial_contract_state)
            options.contract_address)
          (now / 1000)
    id ← get_zswap_network_id rt
    key ← parse_coin_public_key_to_hex rt options.coin_public_key id
    run ← outside_call rt (
        circuit
          (record {
            original_state = options.initial_contract_state;
            current_private_state = state_or_undefined rt options.initial_private_state;
            transaction_context = initial;
            current_zswap_state = rt.empty_zswap_state key;
          })
          options.args)
    partitioned ←
        partition_transcript initial run.context.transaction_context
          run.proof_data.public_transcript
    zswap_state ← library_call rt (rt.decode_zswap_state run.context.current_zswap_state)
    pure (record {
      public_part = record {
        next_contract_state = rt.query_state run.context.transaction_context;
        public_transcript = run.proof_data.public_transcript;
        partitioned_transcript = partitioned;
      };
      private_part = record {
        input = run.proof_data.input;
        output = run.proof_data.output;
        private_transcript_outputs = run.proof_data.private_transcript_outputs;
        result = run.result;
        next_private_state = run.context.current_private_state;
        next_zswap_local_state = zswap_state;
      };
    })

pub record ContractConstructorOptions (rt : Runtime) : Type 0 where
  pub contract : Contract rt
  pub args : Option rt.Args
  pub coin_public_key : Text
  pub initial_private_state : Option rt.PrivateState

pub record ContractConstructorResult (rt : Runtime) : Type 0 where
  pub next_contract_state : rt.ContractState
  pub next_private_state : rt.PrivateState
  pub next_zswap_local_state : ZswapLocalState

module _ (rt : Runtime) where
  unfoldable pub call_contract_constructor :
      ContractConstructorOptions rt → M rt (ContractConstructorResult rt)
  call_contract_constructor options = do
    id ← get_zswap_network_id rt
    key ← parse_coin_public_key_to_hex rt options.coin_public_key id
    result ← outside_call rt (
        options.contract.initial_state (state_or_undefined rt options.initial_private_state) key
          options.args)
    zswap_state ← library_call rt (rt.decode_zswap_state result.current_zswap_state)
    pure (record {
      next_contract_state = result.current_contract_state;
      next_private_state = result.current_private_state;
      next_zswap_local_state = zswap_state;
    })
