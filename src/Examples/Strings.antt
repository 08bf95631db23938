-- ===== src/Examples/Strings.antt =====
-- Hex strings, addresses and network identifiers at concrete inputs.
use midnight_js.Prelude.{◌≡◌, true, some, [], ◌∷◌, codes, ok, ◌↔◌, arith, length, all}
use midnight_js.Hex.{ParsedHexString, parse_hex, to_hex, from_hex, assert_is_contract_address}
use midnight_js.Hex.Digits.{is_hex_digit}
use midnight_js.Hex.Parse.{IsHexParse, parse_hex_iff}
use midnight_js.Hex.RoundTrip.{from_hex-to_hex}
use midnight_js.Hex.Accepts.{assert_is_contract_address_iff}
use midnight_js.NetworkId.{NetworkId, string_to_network_id, to_text}
use midnight_js.NetworkId.Laws.{is_member, string_to_network_id_iff}
use midnight_js.Examples.Toy.{address}

abbrev prefixed : ParsedHexString
prefixed = record { has_prefix = true; byte_chars = codes "ab1F"; incomplete_chars = codes "3g" }

parse_hex_iff_example :
    (parse_hex (codes "0xab1F3g") ≡ ok prefixed) ↔ IsHexParse (codes "0xab1F3g") prefixed
parse_hex_iff_example = parse_hex_iff (codes "0xab1F3g") prefixed

from_hex-to_hex_example : from_hex (to_hex (0 ∷ 171 ∷ 255 ∷ [])) ≡ 0 ∷ 171 ∷ 255 ∷ []
from_hex-to_hex_example =
    from_hex-to_hex (0 ∷ 171 ∷ 255 ∷ []) (omega arith, (omega arith, (omega arith, tt)))

assert_is_contract_address_iff_example :
    (assert_is_contract_address address ≡ ok tt)
    ↔ ((length address ≡ 68) × (all is_hex_digit address ≡ true))
assert_is_contract_address_iff_example = assert_is_contract_address_iff address

string_to_network_id_iff_example :
    (string_to_network_id (codes "TestNet") ≡ some NetworkId.test_net)
    ↔ ((to_text NetworkId.test_net ≡ codes "TestNet") × (is_member NetworkId.test_net ≡ true))
string_to_network_id_iff_example = string_to_network_id_iff (codes "TestNet") NetworkId.test_net
