-- ===== src/Examples/Toy.antt =====
-- A ledger, a wallet and servers small enough to run, for the examples: everything outside counts
-- its calls, a contract's state is the verifier key of its one circuit (empty: no circuit).
use midnight_js.Prelude.{
  false, ℕ, ◌+◌, ◌==◌, not, true, Option, none, some, List, [], ◌∷◌, Text, codes, ok, length,
  text_eq, if◌then◌else◌,
}
use midnight_js.NetworkId.{NetworkId}
use midnight_js.Contracts.Runtime.{Outside, Op, Runtime, Contract}
use midnight_js.Contracts.World.{TxStatus, FinalizedTxData, Providers, World}

abbrev pub counting : Outside
counting = record { Ext = ℕ; ExtError = Text }

-- A call that answers `a`.
abbrev pub answer : {A : Type 0} → A → Op counting A
answer a n = (ok a, n + 1)

-- The address of every contract.
abbrev pub address : Text
address = codes "02000000000000000000000000000000000000000000000000000000000000000000"

abbrev pub key_of_state : List ℕ → Option (List ℕ)
key_of_state [] = none
key_of_state (b ∷ bytes) = some (b ∷ bytes)

abbrev pub toy : Runtime
toy = record {
  outside = counting;
  ContractState = List ℕ;
  PrivateState = ℕ;
  StateValue = ℕ;
  QueryContext = ℕ;
  BlockContext = ℕ;
  Effects = ℕ;
  AlignedValue = ℕ;
  PublicTranscript = ℕ;
  EncodedZswapState = Text;
  Args = ℕ;
  ReturnValue = ℕ;
  LedgerContractState = List ℕ;
  LedgerQueryContext = ℕ;
  LedgerTransaction = ℕ;
  Operation = List ℕ;
  MaintenanceAuthority = ℕ;
  ContractDeploy = List ℕ;
  SingleUpdate = ℕ;
  MaintenanceUpdate = ℕ;
  ContractCalls = ℕ;
  Transcript = ℕ;
  ZswapChainState = ℕ;
  UnprovenInput = ℕ;
  UnprovenOutput = ℕ;
  UnprovenTransient = ℕ;
  UnprovenOffer = ℕ;
  UnprovenTransaction = ℕ;
  UnbalancedTransaction = ℕ;
  BalancedTransaction = ℕ;
  undefined_state = 0;
  truthy_state = λ n. not (n == 0);
  state_data = length;
  operation = λ state id. key_of_state state;
  verifier_key = λ key. key;
  authority_counter = λ state. 0;
  serialize_state = λ state id. ok state;
  deserialize_state = λ bytes id. ok bytes;
  serialize_ledger_state = λ state id. ok state;
  deserialize_ledger_state = λ bytes id. ok bytes;
  ledger_operation = λ state id. key_of_state state;
  with_verifier_key = λ operation key. key;
  set_operation = λ state id operation. operation;
  set_authority = λ state authority. state;
  signature_verifying_key = λ key. key;
  new_authority = λ keys threshold counter. counter;
  empty_zswap_state = λ key. key;
  decode_zswap_state = λ key. ok (record { coin_public_key = key; inputs = []; outputs = [] });
  decode_coin_public_key = λ id key. ok [];
  decode_enc_public_key = λ id key. ok [];
  stringify_coin = λ type nonce value. nonce;
  parse_coin = λ text. ok (record { type = []; nonce = text; value = 1; extra_keys = [] });
  new_output = λ coin segment key encryption_key. answer 1;
  new_contract_output = λ coin segment address. answer 2;
  new_contract_input = λ coin segment address state. answer 3;
  new_transient = λ coin segment output. answer 4;
  new_offer = 0;
  merge_offer = λ a b. ok (a + b);
  offer_from_input = λ input type value. ok value;
  offer_from_output = λ output type value. ok value;
  offer_from_transient = λ transient type value. ok value;
  new_contract_deploy = λ state. answer state;
  deploy_address = λ deploy. address;
  deploy_initial_state = λ deploy. deploy;
  no_calls = 0;
  add_deploy = λ calls deploy. calls + 1;
  add_call =
      λ calls address id operation guaranteed fallible outputs input output. answer (calls + 1);
  add_maintenance_update = λ calls update. calls + 1;
  replace_authority_update = λ authority. authority;
  verifier_key_remove = λ id. 0;
  verifier_key_insert = λ id key. 0;
  new_maintenance_update = λ address updates counter. counter;
  sign_update = λ update index key. answer update;
  new_unproven_tx = λ offer calls. calls;
  sample_signing_key = answer (codes "5a");
  date_now = answer 1700000000000;
  new_query_context = λ value address. value;
  with_seconds_since_epoch = λ context seconds. context;
  query_state = λ context. context;
  query_address = λ context. codes "ad";
  query_block = λ context. 0;
  query_effects = λ context. 0;
  com_indices = λ context. [];
  new_ledger_query_context = λ value address. value;
  set_block = λ context block. context;
  set_effects = λ context effects. context;
  insert_commitment = λ context entry. context;
  partition_transcripts = λ transcripts. ok ((some 1, none) ∷ []);
}

-- Its one circuit adds one to the private state.
abbrev pub counter : Contract toy
counter = record {
  inherited_circuits = λ id. none;
  impure_circuits =
      (
        codes "increment",
        λ context args n. (
          ok (record {
            result = context.current_private_state;
            context = record context { current_private_state = context.current_private_state + 1 };
            proof_data = record {
              input = 0;
              output = 0;
              public_transcript = 0;
              private_transcript_outputs = [];
            };
          }),
          n + 1,
        ),
      )
      ∷ [];
  initial_state = λ state key args n. (
    ok (record {
      current_contract_state = 7 ∷ [];
      current_private_state = state;
      current_zswap_state = key;
    }),
    n + 1,
  );
}

abbrev pub finalized : TxStatus → FinalizedTxData toy
finalized status = record {
  tx = 1;
  status = status;
  tx_id = codes "1";
  tx_hash = codes "2";
  block_hash = codes "3";
  block_height = 4;
}

-- Providers whose chain holds a contract with the key 7 and finalises with the given status.
abbrev pub providers : TxStatus → Providers toy
providers status = record {
  has_private_state_provider = true;
  private_state_io = answer tt;
  stored_although_rejected = λ ext. false;
  get_prover_key = λ id. answer [];
  get_verifier_key = λ id. answer (7 ∷ []);
  get_zkir = λ id. answer [];
  prove_tx = λ tx config. answer tx;
  coin_public_key = codes "aa";
  encryption_public_key = codes "bb";
  balance_tx = λ tx coins. answer tx;
  submit_tx = λ tx. answer (codes "1");
  query_contract_state = λ address. answer (some (7 ∷ []));
  query_deploy_contract_state = λ address. answer (some (7 ∷ []));
  query_zswap_and_contract_state = λ address. answer (some (0, 7 ∷ []));
  watch_for_deploy_tx_data = λ address. answer (finalized status);
  watch_for_tx_data = λ id. answer (finalized status);
}

-- One private state, `p` with 5, and the signing key of the contract.
abbrev pub start : World toy
start = record {
  local = record {
    network_id = NetworkId.test_net;
    private_states = λ id. if text_eq id (codes "p") then some 5 else none;
    signing_keys = λ id. if text_eq id address then some (codes "5e") else none;
  };
  ext = 0;
}
