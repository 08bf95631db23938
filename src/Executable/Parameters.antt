-- ===== src/Executable/Parameters.antt =====
-- What compact-js/compact-js/src/effect/ContractExecutable.ts takes from the compact runtime, the
-- ledger, the compiled contract and the services that it is given.
use midnight_js.Prelude.{ℕ, Bool, Option, List, Text, Result}

pub record Toolkit : Type 1 where
  -- Everything outside that a call may change, and what a call may throw.
  pub Ext : Type 0
  pub Thrown : Type 0
  -- `err instanceof CompactError`
  pub is_compact_error : Thrown → Bool
  pub ContractState : Type 0
  pub PrivateState : Type 0
  pub StateValue : Type 0
  pub Operation : Type 0
  pub VerifierKey : Type 0
  pub Authority : Type 0
  pub LedgerAuthority : Type 0
  pub QueryContext : Type 0
  pub LedgerQueryContext : Type 0
  pub PublicTranscript : Type 0
  pub Transcript : Type 0
  pub AlignedValue : Type 0
  pub ZswapLocalState : Type 0
  pub EncodedZswapState : Type 0
  pub ConstructorContext : Type 0
  pub Reader : Type 0
  pub Args : Type 0
  pub ReturnValue : Type 0
  pub SingleUpdate : Type 0
  pub MaintenanceUpdate : Type 0
  -- contract states
  pub operation : ContractState → Text → Option Operation
  -- `operation.verifierKey = verifierKey; contractState.setOperation(id, operation)`
  pub set_verifier_key :
      ContractState → Text → Operation → VerifierKey → Result Thrown ContractState
  pub set_authority : ContractState → Authority → ContractState
  pub authority_counter : ContractState → ℕ
  -- `StateValue.decode(contractState.data.state.encode())`, as a query context at an address
  pub initial_query_context : ContractState → Text → Result Thrown QueryContext
  pub query_state : QueryContext → StateValue
  -- zswap
  pub decode_zswap_state : EncodedZswapState → Result Thrown ZswapLocalState
  pub encode_zswap_state : ZswapLocalState → Result Thrown EncodedZswapState
  pub empty_zswap_state : Text → Result Thrown EncodedZswapState
  pub constructor_context : PrivateState → Text → Result Thrown ConstructorContext
  -- keys and authorities
  pub sample_signing_key : Ext → Result Thrown Text × Ext
  pub signature_verifying_key : Text → Result Thrown Text
  pub new_authority : List Text → ℕ → ℕ → Result Thrown Authority
  pub to_ledger_authority : Authority → Result Thrown LedgerAuthority
  -- maintenance
  pub replace_authority : LedgerAuthority → Result Thrown SingleUpdate
  pub verifier_key_remove : Text → Result Thrown SingleUpdate
  pub verifier_key_insert : Text → VerifierKey → Result Thrown SingleUpdate
  pub new_maintenance_update : Text → List SingleUpdate → ℕ → Result Thrown MaintenanceUpdate
  -- `addSignature(index, signData(key, update.dataToSign))`
  pub sign_update : MaintenanceUpdate → ℕ → Text → Ext → Result Thrown MaintenanceUpdate × Ext
  -- transcripts
  pub com_indices : QueryContext → List (Text × ℕ)
  pub as_ledger_query_context : QueryContext → Result Thrown LedgerQueryContext
  pub insert_commitment : LedgerQueryContext → Text × ℕ → LedgerQueryContext
  pub partition_transcripts :
      List (LedgerQueryContext × PublicTranscript)
      → Result Thrown (List (Option Transcript × Option Transcript))
  -- the service ZKConfiguration
  pub create_reader : Ext → Result Thrown Reader × Ext
  pub read_verifier_keys :
      Reader → List Text → Ext → Result Thrown (List (Text × VerifierKey)) × Ext

-- A call that may throw and may change what is outside.
abbrev pub Op : Toolkit → Type 0 → Type 0
Op kit A = kit.Ext → Result kit.Thrown A × kit.Ext

-- What a circuit gets besides its arguments, and what it gives back.
pub record CircuitInput (kit : Toolkit) : Type 0 where
  pub current_private_state : kit.PrivateState
  pub current_zswap_state : kit.EncodedZswapState
  pub transaction_context : kit.QueryContext

pub record CircuitOutput (kit : Toolkit) : Type 0 where
  pub result : kit.ReturnValue
  pub context : CircuitInput kit
  pub input : kit.AlignedValue
  pub output : kit.AlignedValue
  pub public_transcript : kit.PublicTranscript
  pub private_transcript_outputs : List kit.AlignedValue

pub record ConstructorOutput (kit : Toolkit) : Type 0 where
  pub current_contract_state : kit.ContractState
  pub current_private_state : kit.PrivateState
  pub current_zswap_state : kit.EncodedZswapState

-- An instance of the compiled contract's class.
pub record Instance (kit : Toolkit) : Type 0 where
  pub impure_circuits : List (Text × (CircuitInput kit → kit.Args → Op kit (CircuitOutput kit)))
  pub initial_state : kit.ConstructorContext → kit.Args → Op kit (ConstructorOutput kit)

-- The compiled contract: its class with its witnesses, which a call instantiates.
abbrev pub CompiledContract : Toolkit → Type 0
CompiledContract kit = Op kit (Instance kit)
