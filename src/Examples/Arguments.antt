-- ===== src/Examples/Arguments.antt =====
-- Runs of the argument parser of compact-js/compact-js-command.
use midnight_js.Prelude.{
  ◌≡◌, refl, ◌≢◌, ◌↔◌, ◌⊎◌, true, false, Option, none, some, List, [], ◌∷◌, if◌then◌else◌, length,
  Text, codes, text_eq, ok, err,
}
use midnight_js.Prelude.Int.{pos}
use midnight_js.Prelude.Decimal.{number_of_digits}
use midnight_js.Platform.IntegerRange.{integer_text}
use midnight_js.Reflection.{
  Value, number, bigint, string, boolean, array, end, item, no_properties, TypeNode, bigint_keyword,
  string_keyword, boolean_keyword, other_kind, tuple_type, TypeNodes, no_types, types, Failure,
  Host, cannot_convert_to_boolean, failed_to_parse, type_node_name, invalid_number_of_arguments,
}
use midnight_js.Reflection.Booleans.{ReadAsBoolean, to_boolean_iff}
use midnight_js.Reflection.Params.{
  Argument, transform_from, transform_params, transform, slots_of, to_boolean, true_or_false,
  starts_with, ends_with,
}
use midnight_js.Reflection.Params.Blame.{BlamesFirst, transform_params-err}
use midnight_js.Reflection.Params.Typing.{HaveTypes, AllSupported}
use midnight_js.Reflection.Params.Faithful.{single_quoted, Reads}
use midnight_js.Reflection.Params.Faithful.Reads.{transform-Reads}
use midnight_js.Reflection.Parser.{
  Method, ArgumentParser, find_circuit, own_parameters, parse_circuit_args,
}
use midnight_js.Reflection.Parser.Laws.{parse_circuit_args-HaveTypes}

-- A pair of an integer and a text, as JSON5 gives it, and the only text that is parsed.
abbrev json_pair : Value
json_pair = array (item (number 7) (item (string (codes "up")) end)) no_properties

abbrev pair_text : Text
pair_text = codes "[7,'up']"

abbrev write : Value → Option Text
write (number d) = some (integer_text (pos d))
write (string s) = some (single_quoted s)
write (array vs ps) = some pair_text
write v = none

abbrev pub small_host : Host
small_host = record {
  number = number_of_digits;
  parse = λ s. if text_eq s pair_text then ok json_pair else err (codes "invalid");
  stringify = write;
}

abbrev pair_type : TypeNode
pair_type = tuple_type (types bigint_keyword (types string_keyword no_types))

abbrev move : Method
move = record {
  name = codes "move";
  parameters = types other_kind (types boolean_keyword no_types);
}

abbrev move_parser : ArgumentParser
move_parser = record { circuits = move ∷ []; initial_state = none }

parse_circuit_args-HaveTypes_example :
    (m : Method) × (find_circuit (codes "move") (move ∷ []) ≡ some m)
    × HaveTypes (own_parameters m) (item (boolean true) end)
unfolding parse_circuit_args find_circuit text_eq transform_params transform_from transform
    to_boolean true_or_false starts_with ends_with HaveTypes AllSupported
parse_circuit_args-HaveTypes_example =
    parse_circuit_args-HaveTypes small_host move_parser (codes "move") (codes "true" ∷ [])
      (item (boolean true) end) ((tt, tt), tt) refl

abbrev two_booleans : TypeNodes
two_booleans = types boolean_keyword (types boolean_keyword no_types)

abbrev maybe : Failure
maybe =
    failed_to_parse 1 (some (codes "maybe")) (codes "boolean")
      (cannot_convert_to_boolean (some (codes "maybe")))

abbrev two_texts : List Argument
two_texts = some (codes "true") ∷ some (codes "maybe") ∷ []

transform_params-err_example :
    ((length two_texts ≢ 2) × (maybe ≡ invalid_number_of_arguments 2 2))
    ⊎ ((length two_texts ≡ 2)
        × BlamesFirst 0 two_texts (slots_of small_host two_booleans false) maybe)
unfolding text_eq transform_params transform_from transform to_boolean true_or_false starts_with
    ends_with type_node_name
transform_params-err_example =
    transform_params-err two_texts (slots_of small_host two_booleans false) maybe refl

to_boolean_iff_example :
    ((to_boolean (some (codes "truest")) ≡ ok (boolean false))
      ↔ (ReadAsBoolean (codes "truest") × ((false ≡ true) ↔ (codes "truest" ≡ codes "true"))))
    × ((to_boolean (some (codes "truest"))
          ≡ err (cannot_convert_to_boolean (some (codes "truest"))))
        ↔ ¬ ReadAsBoolean (codes "truest"))
to_boolean_iff_example = to_boolean_iff (codes "truest") false

transform-Reads_example :
    transform small_host pair_type true (some pair_text)
    ≡ ok (array (item (bigint (pos 7)) (item (string (codes "up")) end)) no_properties)
unfolding Reads text_eq
transform-Reads_example =
    transform-Reads small_host pair_type json_pair
      (array (item (bigint (pos 7)) (item (string (codes "up")) end)) no_properties)
      (
        item (number 7) (item (string (codes "up")) end),
        no_properties,
        item (bigint (pos 7)) (item (string (codes "up")) end),
        refl,
        (pair_text, refl, refl),
        ((pos 7, refl, refl), ((codes "up", refl, refl, refl), tt)),
        refl,
      )
