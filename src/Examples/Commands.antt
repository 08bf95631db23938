-- ===== src/Examples/Commands.antt =====
-- The commands of compact-js-command over a file system with three files.
use midnight_js.Prelude.{
  ℕ, ◌+◌, none, some, List, [], ◌∷◌, ◌++◌, if◌then◌else◌, length, Text, codes, text_eq, ok,
}
use midnight_js.Executable.Operations.{initialize, map_brand}
use midnight_js.Commands.Files.{
  CommandKit, World, as_ledger_contract_state, by_schema, create_argument_parser, dies_of, execute,
  parsed_arguments, ttl, write_bytes,
}
use midnight_js.Commands.Handlers.{ContractModule, CircuitInputs, DeployInputs, deploy_handler}
use midnight_js.Commands.Handlers.Writes.{Written}
use midnight_js.Commands.Handlers.Deploys.{DeployWrites, deploy_handler-DeployWrites}
use midnight_js.Commands.Maintain.{MaintainInputs}
use midnight_js.Executable.Parameters.{CompiledContract}
use midnight_js.Reflection.{types, no_types, other_kind}
use midnight_js.Reflection.Parser.{
  Method, Statement, type_alias, class_declaration, method_declaration, contract_class, find_method,
  impure_circuits, make_argument_parser, parse_initialization_args, parser_of_statements,
}
use midnight_js.Examples.Arguments.{small_host}
use midnight_js.Examples.Executables.{ledger, key_config}
use midnight_js.Prelude.Exec.{◌>>=◌}
use midnight_js.Executable.{call_out, create_contract, create_maintenance_authority}
use midnight_js.Reflection.Params.{transform, transform_from, transform_params}
use midnight_js.Platform.Keys.{as_bytes}
use midnight_js.Platform.Hex.{check_parsed, make, parse_hex, plain_hex}
use midnight_js.Hex.{split_bytes, strip_prefix}
use midnight_js.Hex.Digits.{is_hex_digit}

-- A circuit without parameters, and a constructor without.
abbrev declared : List Statement
declared =
    type_alias (codes "ImpureCircuits") (some (only_context (codes "move") ∷ []))
    ∷ class_declaration (codes "Contract")
        (method_declaration (only_context (codes "initialState")) ∷ [])
    ∷ []
  where
    only_context : Text → Method
    only_context name = record { name = name; parameters = types other_kind no_types }

-- The medium never fails; states, intents and JSON are numbers.
abbrev toy_commands : CommandKit
toy_commands = record {
  kit = ledger;
  host = small_host;
  FsError = Text;
  LedgerState = ℕ;
  LedgerOperation = ℕ;
  Intent = ℕ;
  Json = ℕ;
  access = λ n. (none, n + 1);
  no_such_file = λ path. path;
  torn = λ ext b before. before;
  message = λ e. e;
  text_of_bytes = λ b. b;
  bytes_of_text = λ s. s;
  resolve = λ base assets. base ++ assets;
  join_paths = λ paths. [];
  statements = λ s. declared;
  ledger_of_bytes = λ b. ok (length b);
  ledger_of_state = λ s. ok s;
  state_of_ledger = λ s. ok s;
  ledger_operation = λ s id. some s;
  parse_json = λ s. ok (length s);
  stringify_json = λ j. ok (j ∷ []);
  stringify_indented = λ j. ok (j ∷ []);
  private_state_of_json = λ j. some j;
  json_of_private_state = λ s. s;
  json_of_result = λ v. v;
  decode_zswap_object = λ j. ok j;
  encode_zswap_object = λ s. ok s;
  args_of = λ vs. 0;
  verifier_key = λ b. length b;
  ttl = λ n. (n, n);
  randomness = λ n. (ok (codes "r"), n + 1);
  new_intent = λ until. ok until;
  add_call = λ intent call. ok intent;
  add_deploy = λ intent state. ok state;
  add_maintenance_update = λ intent change. ok (change + intent);
  serialize = λ intent. ok (intent ∷ []);
}

abbrev counter : CompiledContract ledger
counter n = (
  ok (record {
    impure_circuits =
        (
          codes "move",
          λ input args n. (
            ok (record {
              result = 5;
              context = record input { current_private_state = input.current_private_state + 1 };
              input = 0;
              output = 0;
              public_transcript = 0;
              private_transcript_outputs = [];
            }),
            n + 1,
          ),
        )
        ∷ [];
    initial_state = λ context args n. (
      ok (record {
        current_contract_state = 8;
        current_private_state = context;
        current_zswap_state = 0;
      }),
      n + 1,
    );
  }),
  n + 1,
)

abbrev counter_module : ContractModule toy_commands
counter_module = record {
  compiled = counter;
  config = key_config;
  create_initial_private_state = ok 3;
  base_folder = codes "b";
  assets_path = codes "a";
}

-- A file with the contract's state.
abbrev with_state : World toy_commands
with_state = record {
  machine = record { contract = none; ext = 0 };
  files = λ path.
      if text_eq path (codes "in")
      then some (7 ∷ 7 ∷ [])
      else if text_eq path (codes "ps")
      then some (1 ∷ [])
      else if text_eq path []
      then some []
      else none;
  writes = [];
  console = [];
}

abbrev maintain_inputs : MaintainInputs
maintain_inputs = record {
  address = codes "ad";
  input_file_path = codes "in";
  output_file_path = codes "out";
}

abbrev circuit_inputs : CircuitInputs
circuit_inputs = record {
  address = codes "ad";
  circuit_id = codes "move";
  args = [];
  input_file_path = codes "in";
  input_private_state_file_path = codes "ps";
  input_zswap_local_state_file_path = none;
  output_file_path = codes "out";
  output_private_state_file_path = codes "out.ps";
  output_zswap_local_state_file_path = codes "out.z";
  output_result_file_path = codes "out.r";
}

abbrev deploy_inputs : DeployInputs
deploy_inputs = record {
  args = [];
  output_file_path = codes "out";
  output_private_state_file_path = codes "out.ps";
  output_zswap_local_state_file_path = codes "out.z";
}

deploy_handler-DeployWrites_example :
    DeployWrites toy_commands counter_module deploy_inputs Written
      ((codes "out.z", 0 ∷ []) ∷ (codes "out.ps", 3 ∷ []) ∷ (codes "out", 8 ∷ []) ∷ [])
      []
unfolding deploy_handler text_eq ◌>>=◌ write_bytes dies_of as_ledger_contract_state by_schema
    execute ttl create_argument_parser parsed_arguments call_out create_contract
    create_maintenance_authority map_brand initialize impure_circuits contract_class find_method
    parser_of_statements make_argument_parser parse_initialization_args transform_from
    transform_params transform as_bytes check_parsed parse_hex make plain_hex strip_prefix
    split_bytes is_hex_digit
deploy_handler-DeployWrites_example =
    deploy_handler-DeployWrites toy_commands counter_module deploy_inputs with_state
