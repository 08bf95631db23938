-- ===== src/Commands/Files.antt =====
-- What the handlers of compact-js/compact-js-command/src/effect/internal share: the files that they
-- read and write, the errors they fail with, and contractState.ts.
use midnight_js.Prelude.{
  ℕ, Option, none, some, List, ◌∷◌, if◌then◌else◌, Text, text_eq, Result, ok, err, update,
}
use midnight_js.Prelude.Exec.{Exec, pure, lift, ◌>>=◌}
use midnight_js.Executable
use midnight_js.Executable.{Machine, E, thrown, died, Cause}
use midnight_js.Executable.Parameters.{Toolkit, Op}
use midnight_js.Reflection
use midnight_js.Reflection.{Values, Host, read_of_undefined}
use midnight_js.Reflection.Parser.{
  Statement, Declarations, ParserFailure, unreadable_declaration, incomplete_declaration,
  ArgumentParser, make_argument_parser,
}

abbrev pub Bytes : Type 0
Bytes = List ℕ

-- A call that an intent is to hold.
pub record CallPrototype (kit : Toolkit) (Operation : Type 0) : Type 0 where
  pub address : Text
  pub entry_point : Text
  pub operation : Option Operation
  pub transcripts : Option kit.Transcript × Option kit.Transcript
  pub private_transcript_outputs : List kit.AlignedValue
  pub input : kit.AlignedValue
  pub output : kit.AlignedValue
  pub randomness : Text

-- The file system, the ledger, JSON and the schemas of Effect. JSON is parsed to values of its own.
pub record CommandKit : Type 1 where
  pub kit : Toolkit
  pub host : Host
  pub FsError : Type 0
  pub LedgerState : Type 0
  pub LedgerOperation : Type 0
  pub Intent : Type 0
  pub Json : Type 0
  -- an access of the file system, which may fail; a missing file is an error of its own
  pub access : kit.Ext → Option FsError × kit.Ext
  pub no_such_file : Text → FsError
  -- what a write of these bytes that failed left in its file, after what the file held before
  pub torn : kit.Ext → Bytes → Option Bytes → Option Bytes
  pub message : FsError → Text
  pub text_of_bytes : Bytes → Text
  pub bytes_of_text : Text → Bytes
  pub resolve : Text → Text → Text
  pub join_paths : List Text → Text
  pub statements : Text → List Statement
  -- `LedgerContractState.deserialize`, of bytes and of a runtime state's bytes, and the way back
  pub ledger_of_bytes : Bytes → Result kit.Thrown LedgerState
  pub ledger_of_state : kit.ContractState → Result kit.Thrown LedgerState
  pub state_of_ledger : LedgerState → Result kit.Thrown kit.ContractState
  pub ledger_operation : LedgerState → Text → Option LedgerOperation
  pub parse_json : Text → Result kit.Thrown Json
  pub stringify_json : Json → Result kit.Thrown Text
  pub stringify_indented : Json → Result kit.Thrown Text
  pub private_state_of_json : Json → Option kit.PrivateState
  pub json_of_private_state : kit.PrivateState → Json
  -- the replacer writes integers as texts
  pub json_of_result : kit.ReturnValue → Json
  pub decode_zswap_object : Json → Result kit.Thrown kit.EncodedZswapState
  pub encode_zswap_object : kit.EncodedZswapState → Result kit.Thrown Json
  pub args_of : Values → kit.Args
  pub verifier_key : Bytes → kit.VerifierKey
  -- the time ten minutes from now
  pub ttl : kit.Ext → ℕ × kit.Ext
  pub randomness : Op kit Text
  pub new_intent : ℕ → Result kit.Thrown Intent
  pub add_call : Intent → CallPrototype kit LedgerOperation → Result kit.Thrown Intent
  pub add_deploy : Intent → LedgerState → Result kit.Thrown Intent
  pub add_maintenance_update : Intent → kit.MaintenanceUpdate → Result kit.Thrown Intent
  pub serialize : Intent → Result kit.Thrown Bytes

-- What a command fails with, and its death.
pub data Stop (ck : CommandKit) : Type 0 where
  fs_failed : ck.FsError → Stop ck
  declaration_unreadable : Text → Stop ck
  bad_arguments : Reflection.Failure → Stop ck
  contract_failed : Executable.Failure ck.kit → Stop ck
  conversion_failed schema_failed : ck.kit.Thrown → Stop ck
  not_implemented : Stop ck
  died_of : Cause ck.kit → Stop ck
  died_of_undefined : Stop ck

-- The files, the writes that were completed, and the messages on the console, the newest first.
pub record World (ck : CommandKit) : Type 0 where
  pub machine : Machine ck.kit
  pub files : Text → Option Bytes
  pub writes : List (Text × Bytes)
  pub console : List Text

abbrev pub Cmd : CommandKit → Type 0 → Type 0
Cmd ck A = Exec (Stop ck) (World ck) A

module _ {ck : CommandKit} where
  abbrev pub content : Text → World ck → Option Bytes
  content path w = w.files path

  abbrev pub with_ext : World ck → ck.kit.Ext → World ck
  with_ext w ext' = record w { machine = record w.machine { ext = ext' } }

  abbrev pub accessed : {A : Type 0} → Option ck.FsError → Result (Stop ck) A → Result (Stop ck) A
  accessed none r = r
  accessed (some e) r = err (fs_failed e)

  abbrev found : Text → Option Bytes → Result (Stop ck) Bytes
  found path none = err (fs_failed (ck.no_such_file path))
  found path (some b) = ok b

  unfoldable pub read_bytes : Text → Cmd ck Bytes
  read_bytes path w =
      let (failed, ext') = ck.access w.machine.ext in
      (accessed failed (found path (content path w)), with_ext w ext')

  abbrev pub read_text : Text → Cmd ck Text
  read_text path = do b ← read_bytes path; pure (ck.text_of_bytes b)

  abbrev pub after_write : Option ck.FsError → Text × Bytes → World ck → World ck
  after_write none entry w = record w {
    files = update w.files entry.0 entry.1;
    writes = entry ∷ w.writes;
  }
  after_write (some e) entry w = record w {
    files = λ path.
        if text_eq entry.0 path then ck.torn w.machine.ext entry.1 (w.files path) else w.files path;
  }

  unfoldable pub write_bytes : Text → Bytes → Cmd ck (Unit {0})
  write_bytes path b w =
      let (failed, ext') = ck.access w.machine.ext in
      (accessed failed (ok tt), after_write failed (path, b) (with_ext w ext'))

  abbrev pub write_text : Text → Text → Cmd ck (Unit {0})
  write_text path s = write_bytes path (ck.bytes_of_text s)

  -- What is thrown in the generator dies.
  abbrev pub or_dies : {A : Type 0} → Result ck.kit.Thrown A → Result (Stop ck) A
  or_dies (ok a) = ok a
  or_dies (err e) = err (died_of (thrown e))

  unfoldable pub dies_of : {A : Type 0} → Result ck.kit.Thrown A → Cmd ck A
  dies_of r = lift (or_dies r)

  abbrev pub or_fails :
      {A : Type 0} → (ck.kit.Thrown → Stop ck) → Result ck.kit.Thrown A → Result (Stop ck) A
  or_fails f (ok a) = ok a
  or_fails f (err e) = err (f e)

  -- contractState.ts: `Effect.try`
  unfoldable pub as_ledger_contract_state : ck.kit.ContractState → Cmd ck ck.LedgerState
  as_ledger_contract_state state = lift (or_fails conversion_failed (ck.ledger_of_state state))

  unfoldable pub as_ledger_contract_state_from_bytes : Bytes → Cmd ck ck.LedgerState
  as_ledger_contract_state_from_bytes b = lift (or_fails conversion_failed (ck.ledger_of_bytes b))

  unfoldable pub as_contract_state : ck.LedgerState → Cmd ck ck.kit.ContractState
  as_contract_state state = lift (or_fails conversion_failed (ck.state_of_ledger state))

  unfoldable pub by_schema : {A : Type 0} → Result ck.kit.Thrown A → Cmd ck A
  by_schema r = lift (or_fails schema_failed r)

  -- A failure of the executable; its death is the command's.
  abbrev stopped : Executable.Failure ck.kit → Stop ck
  stopped (died cause) = died_of cause
  stopped failure = contract_failed failure

  abbrev pub executed : {A : Type 0} → Result (Executable.Failure ck.kit) A → Result (Stop ck) A
  executed (ok a) = ok a
  executed (err e) = err (stopped e)

  -- An operation of the executable contract.
  unfoldable pub execute : {A : Type 0} → E ck.kit A → Cmd ck A
  execute m w = let (r, machine') = m w.machine in (executed r, record w { machine = machine' })

  unfoldable pub call_outside : {A : Type 0} → Op ck.kit A → Cmd ck A
  call_outside op w = let (r, ext') = op w.machine.ext in (or_dies r, with_ext w ext')

  unfoldable pub ttl : Cmd ck ℕ
  ttl w = let (t, ext') = ck.ttl w.machine.ext in (ok t, with_ext w ext')

  unfoldable pub log : Text → Cmd ck (Unit {0})
  log s w = (ok tt, record w { console = s ∷ w.console })

  abbrev declarations_of : World ck → Declarations
  declarations_of w = record {
    resolve = ck.resolve;
    join_paths = ck.join_paths;
    read_file_string = λ path. elim (content path w) [
      | none ↦ err (ck.message (ck.no_such_file path))
      | some b ↦ ok (ck.text_of_bytes b)
    ];
    statements = ck.statements;
  }

  abbrev parser_made : Result ParserFailure ArgumentParser → Result (Stop ck) ArgumentParser
  parser_made (ok parser) = ok parser
  parser_made (err (unreadable_declaration e)) = err (declaration_unreadable e)
  parser_made (err incomplete_declaration) = err died_of_undefined

  -- `createArgumentParser(compiledContract)`
  unfoldable pub create_argument_parser : Text → Text → Cmd ck ArgumentParser
  create_argument_parser base assets w =
      let (failed, ext') = ck.access w.machine.ext in
      (
        accessed failed (parser_made (make_argument_parser (declarations_of w) base assets)),
        with_ext w ext',
      )

  abbrev arguments : Result Reflection.Failure Values → Result (Stop ck) ck.kit.Args
  arguments (ok vs) = ok (ck.args_of vs)
  arguments (err read_of_undefined) = err died_of_undefined
  arguments (err e) = err (bad_arguments e)

  unfoldable pub parsed_arguments : Result Reflection.Failure Values → Cmd ck ck.kit.Args
  parsed_arguments r = lift (arguments r)
