-- ===== src/Contracts/Runtime.antt =====
-- What packages/contracts/src takes from the ledger, the compact runtime and the wallet's address
-- format: their types, and the functions of them that the source calls. None of it is under this
-- repository, so all of it is a parameter.
use midnight_js.Prelude.{ℕ, Bool, Option, none, some, List, map_get, Text, Result}
use midnight_js.NetworkId.{TargetNetworkId}

-- A coin, as the source reads it; `extra_keys` are own properties beside `type`, `nonce` and
-- `value`.
pub record CoinInfo : Type 0 where
  pub type : Text
  pub nonce : Text
  pub value : ℕ
  pub extra_keys : List Text

pub record QualifiedCoinInfo : Type 0 where
  pub coin : CoinInfo
  pub mt_index : ℕ

-- `is_left` selects the coin public key `left` or the contract address `right`.
pub record Recipient : Type 0 where
  pub is_left : Bool
  pub left : Text
  pub right : Text

pub record Output : Type 0 where
  pub coin_info : CoinInfo
  pub recipient : Recipient

pub record ZswapLocalState : Type 0 where
  pub coin_public_key : Text
  pub inputs : List QualifiedCoinInfo
  pub outputs : List Output

-- Everything outside the program that its calls change: chain, wallet, servers, clock, randomness.
pub record Outside : Type 1 where
  pub Ext : Type 0
  pub ExtError : Type 0

abbrev pub Op : Outside → Type 0 → Type 0
Op o A = o.Ext → Result o.ExtError A × o.Ext

pub record Runtime : Type 1 where
  pub outside : Outside
  pub open outside use {Ext, ExtError}
  -- compact-runtime
  pub ContractState : Type 0
  pub PrivateState : Type 0
  pub StateValue : Type 0
  pub QueryContext : Type 0
  pub BlockContext : Type 0
  pub Effects : Type 0
  pub AlignedValue : Type 0
  pub PublicTranscript : Type 0
  pub EncodedZswapState : Type 0
  pub Args : Type 0
  pub ReturnValue : Type 0
  -- ledger
  pub LedgerContractState : Type 0
  pub LedgerQueryContext : Type 0
  pub LedgerTransaction : Type 0
  pub Operation : Type 0
  pub MaintenanceAuthority : Type 0
  pub ContractDeploy : Type 0
  pub SingleUpdate : Type 0
  pub MaintenanceUpdate : Type 0
  pub ContractCalls : Type 0
  pub Transcript : Type 0
  pub ZswapChainState : Type 0
  pub UnprovenInput : Type 0
  pub UnprovenOutput : Type 0
  pub UnprovenTransient : Type 0
  pub UnprovenOffer : Type 0
  pub UnprovenTransaction : Type 0
  pub UnbalancedTransaction : Type 0
  pub BalancedTransaction : Type 0
  -- JavaScript values of a contract's private state: `undefined`, and `!!value`.
  pub undefined_state : PrivateState
  pub truthy_state : PrivateState → Bool
  -- contract states
  pub state_data : ContractState → StateValue
  pub operation : ContractState → Text → Option Operation
  pub verifier_key : Operation → List ℕ
  pub authority_counter : ContractState → ℕ
  pub serialize_state : ContractState → TargetNetworkId → Result ExtError (List ℕ)
  pub deserialize_state : List ℕ → TargetNetworkId → Result ExtError ContractState
  pub serialize_ledger_state : LedgerContractState → TargetNetworkId → Result ExtError (List ℕ)
  pub deserialize_ledger_state : List ℕ → TargetNetworkId → Result ExtError LedgerContractState
  pub ledger_operation : LedgerContractState → Text → Option Operation
  pub with_verifier_key : Operation → List ℕ → Operation
  pub set_operation : LedgerContractState → Text → Operation → LedgerContractState
  pub set_authority : LedgerContractState → MaintenanceAuthority → LedgerContractState
  pub signature_verifying_key : Text → Text
  pub new_authority : List Text → ℕ → ℕ → MaintenanceAuthority
  -- zswap
  pub empty_zswap_state : Text → EncodedZswapState
  pub decode_zswap_state : EncodedZswapState → Result ExtError ZswapLocalState
  pub decode_coin_public_key : TargetNetworkId → Text → Result ExtError (List ℕ)
  pub decode_enc_public_key : TargetNetworkId → Text → Result ExtError (List ℕ)
  pub stringify_coin : Text → Text → ℕ → Text
  pub parse_coin : Text → Result ExtError CoinInfo
  pub new_output : CoinInfo → ℕ → Text → Text → Op outside UnprovenOutput
  pub new_contract_output : CoinInfo → ℕ → Text → Op outside UnprovenOutput
  pub new_contract_input : QualifiedCoinInfo → ℕ → Text → ZswapChainState → Op outside UnprovenInput
  pub new_transient : QualifiedCoinInfo → ℕ → UnprovenOutput → Op outside UnprovenTransient
  pub new_offer : UnprovenOffer
  pub merge_offer : UnprovenOffer → UnprovenOffer → Result ExtError UnprovenOffer
  pub offer_from_input : UnprovenInput → Text → ℕ → Result ExtError UnprovenOffer
  pub offer_from_output : UnprovenOutput → Text → ℕ → Result ExtError UnprovenOffer
  pub offer_from_transient : UnprovenTransient → Text → ℕ → Result ExtError UnprovenOffer
  -- transactions
  pub new_contract_deploy : LedgerContractState → Op outside ContractDeploy
  pub deploy_address : ContractDeploy → Text
  pub deploy_initial_state : ContractDeploy → LedgerContractState
  pub no_calls : ContractCalls
  pub add_deploy : ContractCalls → ContractDeploy → ContractCalls
  -- `addCall` of a `ContractCallPrototype` with fresh communication randomness
  pub add_call :
      ContractCalls
      → Text
      → Text
      → Operation
      → Option Transcript
      → Option Transcript
      → List AlignedValue
      → AlignedValue
      → AlignedValue
      → Op outside ContractCalls
  pub add_maintenance_update : ContractCalls → MaintenanceUpdate → ContractCalls
  pub replace_authority_update : MaintenanceAuthority → SingleUpdate
  pub verifier_key_remove : Text → SingleUpdate
  pub verifier_key_insert : Text → List ℕ → SingleUpdate
  pub new_maintenance_update : Text → List SingleUpdate → ℕ → MaintenanceUpdate
  -- `update.addSignature(idx, signData(sk, update.dataToSign))`
  pub sign_update : MaintenanceUpdate → ℕ → Text → Op outside MaintenanceUpdate
  pub new_unproven_tx : UnprovenOffer → ContractCalls → UnprovenTransaction
  -- `sampleSigningKey()` and `Date.now()`
  pub sample_signing_key : Op outside Text
  pub date_now : Op outside ℕ
  -- circuit calls
  pub new_query_context : StateValue → Text → QueryContext
  pub with_seconds_since_epoch : QueryContext → ℕ → QueryContext
  pub query_state : QueryContext → StateValue
  pub query_address : QueryContext → Text
  pub query_block : QueryContext → BlockContext
  pub query_effects : QueryContext → Effects
  pub com_indices : QueryContext → List (Text × ℕ)
  -- `new LedgerQueryContext(LedgerStateValue.decode(state.encode()), address)`
  pub new_ledger_query_context : StateValue → Text → LedgerQueryContext
  pub set_block : LedgerQueryContext → BlockContext → LedgerQueryContext
  pub set_effects : LedgerQueryContext → Effects → LedgerQueryContext
  pub insert_commitment : LedgerQueryContext → Text × ℕ → LedgerQueryContext
  pub partition_transcripts :
      List (LedgerQueryContext × PublicTranscript)
      → Result ExtError (List (Option Transcript × Option Transcript))

-- The compiled contract that the caller brings.
pub record CircuitContext (rt : Runtime) : Type 0 where
  pub original_state : rt.ContractState
  pub current_private_state : rt.PrivateState
  pub transaction_context : rt.QueryContext
  pub current_zswap_state : rt.EncodedZswapState

pub record ProofData (rt : Runtime) : Type 0 where
  pub input : rt.AlignedValue
  pub output : rt.AlignedValue
  pub public_transcript : rt.PublicTranscript
  pub private_transcript_outputs : List rt.AlignedValue

pub record CircuitResults (rt : Runtime) : Type 0 where
  pub result : rt.ReturnValue
  pub context : CircuitContext rt
  pub proof_data : ProofData rt

pub record ConstructorResult (rt : Runtime) : Type 0 where
  pub current_contract_state : rt.ContractState
  pub current_private_state : rt.PrivateState
  pub current_zswap_state : rt.EncodedZswapState

abbrev pub Circuit : Runtime → Type 0
Circuit rt = CircuitContext rt → Option rt.Args → Op rt.outside (CircuitResults rt)

-- packages/types/src/contract.ts. A circuit runs the caller's witnesses, which may throw.
-- `inherited_circuits` is what a lookup in `impureCircuits` finds under a name that is not its own,
-- such as `constructor`.
pub record Contract (rt : Runtime) : Type 0 where
  pub impure_circuits : List (Text × Circuit rt)
  pub inherited_circuits : Text → Option (Circuit rt)
  pub initial_state : rt.PrivateState → Text → Option rt.Args → Op rt.outside (ConstructorResult rt)

abbrev own_or : {A : Type 0} → Option A → Option A → Option A
own_or (some a) inherited = some a
own_or none inherited = inherited

-- `contract.impureCircuits[circuitId]`
abbrev pub circuit_of : {rt : Runtime} → Contract rt → Text → Option (Circuit rt)
circuit_of contract id =
    own_or (map_get id contract.impure_circuits) (contract.inherited_circuits id)
