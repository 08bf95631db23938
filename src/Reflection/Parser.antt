-- ===== src/Reflection/Parser.antt =====
-- `makeArgumentParser` of compiledContractReflection.ts: the parameters' types are found in the
-- contract's generated declaration file. Paths, files and TypeScript's parser are parameters.
pub mod Laws
use midnight_js.Prelude.{
  Bool, true, false, Option, none, some, List, [], ◌∷◌, if◌then◌else◌, Text, codes, text_eq, Result,
  ok, err, ◌>>=◌, map,
}
use midnight_js.Reflection.{
  Values, TypeNodes, no_types, types, Failure, circuit_not_found, read_of_undefined, Host,
}
use midnight_js.Reflection.Params.{transform_params, slots_of}

-- A method's signature or declaration: its name and the types of its parameters.
pub record Method : Type 0 where
  pub name : Text
  pub parameters : TypeNodes

pub data ClassMember : Type 0 where
  method_declaration : Method → ClassMember
  other_member : ClassMember

-- A type alias holds its members where it is a type literal.
pub data Statement : Type 0 where
  type_alias : Text → Option (List Method) → Statement
  class_declaration : Text → List ClassMember → Statement
  other_statement : Statement

-- `Path`, `FileSystem` and the parser of declarations.
pub record Declarations : Type 0 where
  pub resolve : Text → Text → Text
  pub join_paths : List Text → Text
  pub read_file_string : Text → Result Text Text
  pub statements : Text → List Statement

-- The file system's error, or the defect of a read of undefined.
pub data ParserFailure : Type 0 where
  unreadable_declaration : Text → ParserFailure
  incomplete_declaration : ParserFailure

pub record ArgumentParser : Type 0 where
  pub circuits : List Method
  pub initial_state : Option Method

unfoldable pub impure_circuits : List Statement → Option (List Method)
impure_circuits [] = none
impure_circuits (type_alias name (some methods) ∷ rest) =
    let found = impure_circuits rest in
    if text_eq name (codes "ImpureCircuits") then some methods else found
impure_circuits (_ ∷ rest) = impure_circuits rest

unfoldable pub contract_class : List Statement → Option (List ClassMember)
contract_class [] = none
contract_class (class_declaration name members ∷ rest) =
    let found = contract_class rest in
    if text_eq name (codes "Contract") then some members else found
contract_class (_ ∷ rest) = contract_class rest

unfoldable pub find_method : Text → List ClassMember → Option Method
find_method name [] = none
find_method name (method_declaration m ∷ rest) =
    let found = find_method name rest in if text_eq m.name name then some m else found
find_method name (other_member ∷ rest) = find_method name rest

unfoldable pub find_circuit : Text → List Method → Option Method
find_circuit name [] = none
find_circuit name (m ∷ rest) =
    let found = find_circuit name rest in if text_eq m.name name then some m else found

unfoldable pub parser_of_statements : List Statement → Result ParserFailure ArgumentParser
parser_of_statements source = elim (impure_circuits source) [
  | none ↦ err incomplete_declaration
  | some circuits ↦ elim (contract_class source) [
    | none ↦ err incomplete_declaration
    | some members ↦
        ok (record {
          circuits = circuits;
          initial_state = find_method (codes "initialState") members;
        })
  ]
]

abbrev declaration_path : Declarations → Text → Text → Text
declaration_path ds base assets =
    ds.join_paths (ds.resolve base assets ∷ codes "contract" ∷ codes "index.d.cts" ∷ [])

unfoldable pub make_argument_parser :
    Declarations → Text → Text → Result ParserFailure ArgumentParser
make_argument_parser ds base assets = elim (ds.read_file_string (declaration_path ds base assets)) [
  | err e ↦ err (unreadable_declaration e)
  | ok content ↦ parser_of_statements (ds.statements content)
]

-- `.parameters.slice(1)`: the first is the context.
abbrev pub own_parameters : Method → TypeNodes
own_parameters m = elim m.parameters [ no_types ↦ no_types | types _ ts ↦ ts ]

abbrev parse_with : Host → Option Method → Failure → List Text → Result Failure Values
parse_with host none failure args = err failure
parse_with host (some m) failure args =
    transform_params (map (λ s. some s) args) (slots_of host (own_parameters m) false)

-- A class without the method makes this throw, where the other errors are returned.
unfoldable pub parse_initialization_args : Host → ArgumentParser → List Text → Result Failure Values
parse_initialization_args host parser args =
    parse_with host parser.initial_state read_of_undefined args

unfoldable pub parse_circuit_args : Host → ArgumentParser → Text → List Text → Result Failure Values
parse_circuit_args host parser circuit_id args =
    parse_with host (find_circuit circuit_id parser.circuits) (circuit_not_found circuit_id) args
