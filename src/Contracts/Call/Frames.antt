-- ===== src/Contracts/Call/Frames.antt =====
-- Running a circuit or a constructor: what is left of the private states and signing keys.
use midnight_js.Prelude.{Option, List, [], ◌∷◌}
use midnight_js.Prelude.Exec.Frames.{frame_rules}
use midnight_js.Contracts.Runtime.{Runtime}
use midnight_js.Contracts.World.Frames.{KeepsLocal, local_rules}
use midnight_js.Contracts.Call.{
  CallOptions, ContractConstructorOptions, single_pair, partition_transcript, call,
  call_contract_constructor,
}

module _ (rt : Runtime) where
  single_pair-KeepsLocal :
      (pairs : List (Option rt.Transcript × Option rt.Transcript))
      → KeepsLocal {rt = rt} (single_pair rt pairs)
  unfolding single_pair
  single_pair-KeepsLocal [] = search frame_rules
  single_pair-KeepsLocal (pair ∷ []) = search frame_rules
  single_pair-KeepsLocal (pair ∷ q ∷ pairs) = search frame_rules

  partition_transcript-KeepsLocal :
      (initial final : rt.QueryContext) (transcript : rt.PublicTranscript)
      → KeepsLocal {rt = rt} (partition_transcript rt initial final transcript)
  unfolding partition_transcript
  partition_transcript-KeepsLocal initial final transcript =
      search (local_rules, single_pair-KeepsLocal)

  pub call-KeepsLocal : (options : CallOptions rt) → KeepsLocal {rt = rt} (call rt options)
  unfolding call
  call-KeepsLocal options = search (local_rules, partition_transcript-KeepsLocal) depth 12

  pub call_contract_constructor-KeepsLocal :
      (options : ContractConstructorOptions rt)
      → KeepsLocal {rt = rt} (call_contract_constructor rt options)
  unfolding call_contract_constructor
  call_contract_constructor-KeepsLocal options = search local_rules depth 8
