-- ===== src/Reflection/Params.antt =====
-- `transformParams` of compiledContractReflection.ts: texts become values of the declared types.
pub mod Typing
pub mod Blame
pub mod Faithful
use midnight_js.Prelude.{
  ℕ, ◌+◌, Bool, true, false, not, ◌&&◌, ◌||◌, Option, none, some, List, [], ◌∷◌, ◌++◌, ◌==◌,
  if◌then◌else◌, length, Text, codes, text_eq, Result, ok, err, ◌>>=◌, ◌>>◌, throw_if, map,
}
use midnight_js.Prelude.Int.{ℤ}
use midnight_js.Hex.{from_hex, ParsedHexString}
use midnight_js.Platform.Hex.{ParseError, parse_hex}
use midnight_js.Reflection.{
  Double, nan, Value, undefined, null, number, bigint, string, boolean, bytes, array, object,
  Values, end, item, no_properties, TypeNode, number_keyword, bigint_keyword, string_keyword,
  boolean_keyword, other_kind, array_type, tuple_type, type_literal, type_reference, TypeNodes,
  no_types, types, Members, no_members, member, Failure, invalid_number_of_arguments,
  failed_to_parse, cannot_convert_to_bigint, cannot_convert_to_boolean, cannot_convert_to_array,
  cannot_convert_to_object, cannot_convert_to_bytes, invalid_json5, read_of_undefined, Host,
  text_of, is_object, get_property, set_property, type_node_name, items,
}
use midnight_js.Reflection.BigInt.{string_to_bigint}

-- An argument's text. Below the top it may be undefined.
abbrev pub Argument : Type 0
Argument = Option Text

-- A declared type as the loop uses it: its name and its conversion.
pub record Slot : Type 0 where
  pub name : Text
  pub convert : Argument → Result Failure Value

-- The text of `s` begins with "true", or it ends with "false".
unfoldable pub starts_with : Text → Text → Bool
starts_with [] s = true
starts_with (c ∷ p) [] = false
starts_with (c ∷ p) (a ∷ s) = c == a && starts_with p s

unfoldable pub ends_with : Text → Text → Bool
ends_with p [] = text_eq p []
ends_with p (a ∷ s) = text_eq p (a ∷ s) || ends_with p s

-- `TRUE_OR_FALSE_REGEXP`, `/^true|false$/`
unfoldable pub true_or_false : Text → Bool
true_or_false s = starts_with (codes "true") s || ends_with (codes "false") s

-- `s.replaceAll('\'', '')`
unfoldable pub without_quotes : Text → Text
without_quotes [] = []
without_quotes (c ∷ s) = let rest = without_quotes s in if c == 39 then rest else c ∷ rest

abbrev unquote_text : Bool → Argument → Result Failure Value
unquote_text true (some s) = ok (string (without_quotes s))
unquote_text true none = err read_of_undefined
unquote_text false (some s) = ok (string s)
unquote_text false none = ok undefined

abbrev to_number : Host → Argument → Value
to_number host none = number nan
to_number host (some s) = number (host.number s)

abbrev read_bigint : Argument → Option ℤ → Result Failure Value
read_bigint arg (some z) = ok (bigint z)
read_bigint arg none = err (cannot_convert_to_bigint arg)

abbrev to_bigint : Argument → Result Failure Value
to_bigint none = err (cannot_convert_to_bigint none)
to_bigint (some s) = read_bigint (some s) (string_to_bigint s)

unfoldable pub to_boolean : Argument → Result Failure Value
to_boolean arg =
    if true_or_false (text_of arg)
    then ok (boolean (text_eq (text_of arg) (codes "true")))
    else err (cannot_convert_to_boolean arg)

abbrev decoded_bytes : Argument → Result ParseError ParsedHexString → Result Failure Value
decoded_bytes arg (ok parsed) = ok (bytes (from_hex parsed.byte_chars) no_properties)
decoded_bytes arg (err e) = err (cannot_convert_to_bytes arg e.reason)

abbrev to_bytes : Bool → Argument → Result Failure Value
to_bytes true (some s) = decoded_bytes (some s) (parse_hex (without_quotes s))
to_bytes true none = err read_of_undefined
to_bytes false (some s) = decoded_bytes (some s) (parse_hex s)
to_bytes false none = decoded_bytes none (parse_hex [])

-- `JSON5.parse(args[idx])`
abbrev parsed : Host → Argument → Result Failure Value
parsed host arg = elim (host.parse (text_of arg)) [ ok v ↦ ok v | err e ↦ err (invalid_json5 e) ]

-- `Array.isArray(v)`
abbrev elements_of : Argument → Value → Result Failure (List Value)
elements_of arg (array vs _) = ok (items vs)
elements_of arg _ = err (cannot_convert_to_array arg)

-- An argument's result, before the results of those behind it.
abbrev after_argument :
    ℕ → Argument → Text → Result Failure Value → Result Failure Values → Result Failure Values
after_argument idx arg name (err cause) rest = err (failed_to_parse idx arg name cause)
after_argument idx arg name (ok v) rest = rest >>= λ vs. ok (item v vs)

-- The loop of `transformParams` from `idx` on.
unfoldable pub transform_from : ℕ → List Argument → List Slot → Result Failure Values
transform_from idx (arg ∷ args) (slot ∷ slots) =
    after_argument idx arg slot.name (slot.convert arg) (transform_from (idx + 1) args slots)
transform_from idx _ _ = ok end

unfoldable pub transform_params : List Argument → List Slot → Result Failure Values
transform_params args slots =
    if length args == length slots
    then transform_from 0 args slots
    else err (invalid_number_of_arguments (length slots) (length args))

-- `Array(n).fill(slot)`
unfoldable pub fill : List Value → Slot → List Slot
fill [] slot = []
fill (_ ∷ vs) slot = slot ∷ fill vs slot

abbrev first_value : Values → Value
first_value end = undefined
first_value (item v _) = v

unfoldable pub array_argument : Host → Argument → (List Value → List Slot) → Result Failure Value
array_argument host arg slots = do
  v ← parsed host arg
  elements ← elements_of arg v
  vs ← transform_params (map (λ e. host.stringify e) elements) (slots elements)
  ok (array vs no_properties)

-- A member of a literal type: the property is read, transformed and set.
unfoldable pub member_argument : Host → Text → Slot → Value → Result Failure Value
member_argument host key slot source = do
  v ← get_property key source
  vs ← transform_params (host.stringify v ∷ []) (slot ∷ [])
  ok (set_property key (first_value vs) source)

unfoldable mutual
  -- The body of the `try`.
  pub transform : Host → TypeNode → Bool → Argument → Result Failure Value
  transform host number_keyword quoted arg = ok (to_number host arg)
  transform host bigint_keyword quoted arg = to_bigint arg
  transform host string_keyword quoted arg = unquote_text quoted arg
  transform host boolean_keyword quoted arg = to_boolean arg
  transform host (array_type element) quoted arg = array_argument host arg λ vs.
      fill vs
        (record { name = type_node_name element; convert = λ a. transform host element true a })
  transform host (tuple_type elements) quoted arg =
      array_argument host arg λ _. slots_of host elements true
  transform host (type_literal members) quoted arg = do
    source ← parsed host arg
    throw_if (not (is_object source)) (cannot_convert_to_object arg)
    transform_members host members source
  transform host (type_reference (some name)) quoted arg =
      if text_eq name (codes "Uint8Array") then to_bytes quoted arg else ok undefined
  transform host (type_reference none) quoted arg = ok undefined
  transform host other_kind quoted arg = ok undefined

  pub slots_of : Host → TypeNodes → Bool → List Slot
  slots_of host no_types quoted = []
  slots_of host (types t ts) quoted =
      record { name = type_node_name t; convert = λ a. transform host t quoted a }
      ∷ slots_of host ts quoted

  pub transform_members : Host → Members → Value → Result Failure Value
  transform_members host no_members source = ok source
  transform_members host (member key t ms) source = do
    next ←
        member_argument host key
          (record { name = type_node_name t; convert = λ a. transform host t true a }) source
    transform_members host ms next
