-- ===== src/Examples/Executables.antt =====
-- An executable contract over a ledger that counts, at a concrete sequence of operations.
use midnight_js.Prelude.{
  ℕ, ◌+◌, ◌≡◌, refl, false, none, some, List, [], ◌∷◌, Text, codes, length, ok,
}
use midnight_js.Executable.Parameters.{Toolkit, Instance, CompiledContract}
use midnight_js.Executable.{Machine, KeyConfig}
use midnight_js.Executable.Instances.{
  OperationCall, to_initialize, to_remove, after_all, after_all_keeps,
}

abbrev pub ledger : Toolkit
ledger = record {
  Ext = ℕ;
  Thrown = Text;
  is_compact_error = λ e. false;
  ContractState = ℕ;
  PrivateState = ℕ;
  StateValue = ℕ;
  Operation = ℕ;
  VerifierKey = ℕ;
  Authority = ℕ;
  LedgerAuthority = ℕ;
  QueryContext = ℕ;
  LedgerQueryContext = ℕ;
  PublicTranscript = ℕ;
  Transcript = ℕ;
  AlignedValue = ℕ;
  ZswapLocalState = ℕ;
  EncodedZswapState = ℕ;
  ConstructorContext = ℕ;
  Reader = ℕ;
  Args = ℕ;
  ReturnValue = ℕ;
  SingleUpdate = ℕ;
  MaintenanceUpdate = ℕ;
  operation = λ state id. some state;
  set_verifier_key = λ state id operation key. ok key;
  set_authority = λ state authority. state;
  authority_counter = λ state. state;
  initial_query_context = λ state address. ok state;
  query_state = λ context. context;
  decode_zswap_state = λ state. ok state;
  encode_zswap_state = λ state. ok state;
  empty_zswap_state = λ key. ok 0;
  constructor_context = λ state key. ok state;
  sample_signing_key = λ n. (ok (codes "5a"), n + 1);
  signature_verifying_key = λ key. ok key;
  new_authority = λ keys threshold counter. ok counter;
  to_ledger_authority = λ authority. ok authority;
  replace_authority = λ authority. ok authority;
  verifier_key_remove = λ id. ok (length id);
  verifier_key_insert = λ id key. ok key;
  new_maintenance_update = λ address updates counter. ok counter;
  sign_update = λ update index key n. (ok update, n + 1);
  com_indices = λ context. [];
  as_ledger_query_context = λ context. ok context;
  insert_commitment = λ context entry. context;
  partition_transcripts = λ transcripts. ok ((some 1, none) ∷ []);
  create_reader = λ n. (ok 0, n + 1);
  read_verifier_keys = λ reader ids n. (ok [], n + 1);
}

-- An instance without circuits, that knows when it was made.
abbrev pub made_at : ℕ → Instance ledger
made_at when = record {
  impure_circuits = [];
  initial_state = λ context args n. (
    ok (record {
      current_contract_state = when;
      current_private_state = context;
      current_zswap_state = 0;
    }),
    n + 1,
  );
}

abbrev pub compiled : CompiledContract ledger
compiled n = (ok (made_at n), n + 1)

abbrev pub key_config : KeyConfig
key_config = record { coin_public_key = codes "ab"; configured_signing_key = some (codes "5a") }

abbrev calls : List (OperationCall ledger)
calls =
    to_initialize key_config 1 2
    ∷ to_remove key_config (codes "c") (record { address = codes "ad"; contract_state = 3 })
    ∷ to_initialize key_config 4 5
    ∷ []

abbrev running : Machine ledger
running = record { contract = some (ok (made_at 7)); ext = 9 }

after_all_keeps_example : (after_all compiled calls running).contract ≡ some (ok (made_at 7))
after_all_keeps_example = after_all_keeps compiled calls running (ok (made_at 7)) refl
