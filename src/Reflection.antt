-- ===== src/Reflection.antt =====
-- compact-js/compact-js-command/src/effect/internal/compiledContractReflection.ts: the types of a
-- contract's generated declaration, and the values that the arguments of a command line become.
-- `Values` are what JSON5 and TypeScript give; `BigInt` reads integers; `Params` turns texts into
-- values of the declared types; `Parser` finds the types in the declaration.
pub mod Objects
pub mod BigInt
pub mod Params
pub mod Parser
pub mod Booleans
use midnight_js.Prelude.{
  ℕ, ◌+◌, Bool, Option, none, some, List, [], ◌∷◌, ◌++◌, if◌then◌else◌, Text, codes, text_eq,
  Result, ok, err, length,
}
use midnight_js.Prelude.Int.{ℤ}
use midnight_js.Platform.Hex.{ParseReason}

-- A JavaScript number by the bits of its double; NaN by the bits of the quiet one.
abbrev pub Double : Type 0
Double = ℕ

abbrev pub nan : Double
nan = 9221120237041090560

-- JavaScript values. The properties of an array or a buffer are those set on it
-- beside its elements.
mutual
  pub data Value : Type 0 where
    undefined null : Value
    number : Double → Value
    bigint : ℤ → Value
    string : Text → Value
    boolean : Bool → Value
    bytes : List ℕ → Properties → Value
    array : Values → Properties → Value
    object : Properties → Value

  pub data Values : Type 0 where
    end : Values
    item : Value → Values → Values

  pub data Properties : Type 0 where
    no_properties : Properties
    property : Text → Value → Properties → Properties

-- The kinds of `TypeNode` that are told apart. A reference to a qualified name has none.
mutual
  pub data TypeNode : Type 0 where
    number_keyword bigint_keyword string_keyword boolean_keyword other_kind : TypeNode
    array_type : TypeNode → TypeNode
    tuple_type : TypeNodes → TypeNode
    type_literal : Members → TypeNode
    type_reference : Option Text → TypeNode

  pub data TypeNodes : Type 0 where
    no_types : TypeNodes
    types : TypeNode → TypeNodes → TypeNodes

  -- Property signatures: a name and a type.
  pub data Members : Type 0 where
    no_members : Members
    member : Text → TypeNode → Members → Members

-- What is returned on the left, or thrown: first the ContractRuntimeErrors, then the errors of the
-- conversions, which are their causes.
pub data Failure : Type 0 where
  invalid_number_of_arguments : ℕ → ℕ → Failure
  failed_to_parse : ℕ → Option Text → Text → Failure → Failure
  circuit_not_found : Text → Failure
  cannot_convert_to_bigint cannot_convert_to_boolean : Option Text → Failure
  cannot_convert_to_array cannot_convert_to_object : Option Text → Failure
  cannot_convert_to_bytes : Option Text → ParseReason → Failure
  invalid_json5 : Text → Failure
  read_of_undefined : Failure

-- `JSON5` and the number of a text, which are not of the repository. The parser's error is its
-- message; `stringify` gives undefined where a value has no text.
pub record Host : Type 0 where
  pub number : Text → Double
  pub parse : Text → Result Text Value
  pub stringify : Value → Option Text

-- `String(x)` of a text or undefined.
abbrev pub text_of : Option Text → Text
text_of none = codes "undefined"
text_of (some s) = s

-- `values[key]` among an object's properties.
unfoldable pub lookup : Text → Properties → Value
lookup key no_properties = undefined
lookup key (property k v ps) = if text_eq k key then v else lookup key ps

-- `values[key] = v`
unfoldable pub assign : Text → Value → Properties → Properties
assign key v no_properties = property key v no_properties
assign key v (property k w ps) =
    let rest = assign key v ps in if text_eq k key then property k v ps else property k w rest

-- `typeof v === 'object'`
abbrev pub is_object : Value → Bool
is_object null = Bool.true
is_object (bytes _ _) = Bool.true
is_object (array _ _) = Bool.true
is_object (object _) = Bool.true
is_object _ = Bool.false

unfoldable pub get_property : Text → Value → Result Failure Value
get_property key (object ps) = ok (lookup key ps)
get_property key (array _ ps) = ok (lookup key ps)
get_property key (bytes _ ps) = ok (lookup key ps)
get_property key null = err read_of_undefined
get_property key undefined = err read_of_undefined
get_property key _ = ok undefined

unfoldable pub set_property : Text → Value → Value → Value
set_property key w (object ps) = object (assign key w ps)
set_property key w (array vs ps) = array vs (assign key w ps)
set_property key w (bytes bs ps) = bytes bs (assign key w ps)
set_property key w v = v

-- `.join(', ')`
abbrev pub join : List Text → Text
join [] = []
join (s ∷ []) = s
join (s ∷ t ∷ rest) = s ++ (codes ", " ++ join (t ∷ rest))

unfoldable mutual
  pub type_node_name : TypeNode → Text
  type_node_name number_keyword = codes "number"
  type_node_name bigint_keyword = codes "bigint"
  type_node_name string_keyword = codes "string"
  type_node_name boolean_keyword = codes "boolean"
  type_node_name (array_type element) = type_node_name element ++ codes "[]"
  type_node_name (tuple_type elements) = codes "[" ++ (join (type_node_names elements) ++ codes "]")
  type_node_name (type_literal members) = codes "{ " ++ (join (member_names members) ++ codes " }")
  type_node_name (type_reference (some name)) = name
  type_node_name (type_reference none) = codes "<unknown>"
  type_node_name other_kind = codes "<unknown>"

  pub type_node_names : TypeNodes → List Text
  type_node_names no_types = []
  type_node_names (types t ts) = type_node_name t ∷ type_node_names ts

  pub member_names : Members → List Text
  member_names no_members = []
  member_names (member name t ms) = (name ++ (codes ": " ++ type_node_name t)) ∷ member_names ms

unfoldable pub items : Values → List Value
items end = []
items (item v vs) = v ∷ items vs
