-- ===== src/Examples/Brands.antt =====
-- Ranges and hex brands of platform-js at concrete values.
use midnight_js.Prelude.{arith, ◌≡◌, refl, Text, codes, length, ok, All}
use midnight_js.Prelude.Int.{pos, negsuc}
use midnight_js.Prelude.Decimal.{number_of_digits}
use midnight_js.Hex.{ParsedHexString, strip_prefix, split_bytes, assert_is_hex, from_hex}
use midnight_js.Hex.Digits.{is_hex_digit}
use midnight_js.Hex.RoundTrip.{IsByte}
use midnight_js.Platform.IntegerRange.{
  IntegerRange, inclusive, text, to_text, from, take_digits, take_inclusion, match_dots,
  match_range, contains,
}
use midnight_js.Platform.IntegerRange.RoundTrip.{from-to_text}
use midnight_js.Hex as Utils
use midnight_js.Platform.Hex as Brand
use midnight_js.Platform.Hex.{constrained_plain_hex, check_parsed}
use midnight_js.Platform.Keys.{contract_address, contract_address_bytes}
use midnight_js.Platform.Keys.Laws.{contract_address_bytes_bound}

abbrev around_zero : IntegerRange
around_zero = record { inclusion = inclusive; min = negsuc 4; max = pos 12 }

from-to_text_example :
    from (text (to_text around_zero))
    ≡ ok (record { inclusion = inclusive; min = pos 5; max = pos 12 })
from-to_text_example = from-to_text around_zero (omega arith) (omega arith)

abbrev address_of_platform : Text
address_of_platform = codes "00112233445566778899aabbccddeeff00112233445566778899AABBCCDDEEFF"

contract_address_bytes_bound_example :
    (address_of_platform ≡ address_of_platform)
    × (length (contract_address_bytes address_of_platform) ≡ 32)
    × All IsByte (contract_address_bytes address_of_platform)
unfolding contract_address constrained_plain_hex Brand.make Brand.parse_hex strip_prefix split_bytes
    is_hex_digit from match_range match_dots take_digits take_inclusion number_of_digits contains
    check_parsed Utils.Digits.is_line_terminator
contract_address_bytes_bound_example =
    contract_address_bytes_bound address_of_platform address_of_platform refl
