-- ===== src/Hex.antt =====
-- packages/utils/src/hex-utils.ts and type-utils.ts: hex strings and contract addresses.
pub mod Digits
pub mod Parse
pub mod RoundTrip
pub mod Accepts
use midnight_js.Prelude.{
  ℕ, ◌+◌, ◌-◌, ◌*◌, ◌/◌, ◌%◌, Bool, true, false, not, ◌&&◌, ◌||◌, Option, none, some, List, [], ◌∷◌,
  leb, ltb, ◌==◌, if◌then◌else◌, length, get_elem?, is_empty, any, Text, Result, ok, err, ◌>>=◌,
  ◌>>◌, throw_if,
}
use Digits.{is_hex_digit, is_line_terminator}

-- `no_match` is the TypeError of reading a group of a failed match.
pub data HexError : Type 0 where
  empty_input bad_byte_len incomplete_last_byte not_hex_string no_match unexpected_prefix : HexError
  invalid_hex_digit : Option ℕ → ℕ → HexError
  wrong_byte_len : ℕ → ℕ → HexError

pub record ParsedHexString : Type 0 where
  pub has_prefix : Bool
  pub byte_chars : Text
  pub incomplete_chars : Text

-- `(?<prefix>(0x)?)`
unfoldable pub strip_prefix : Text → Bool × Text
strip_prefix [] = (false, [])
strip_prefix (a ∷ []) = (false, a ∷ [])
strip_prefix (a ∷ b ∷ s) = if a == b'0' && b == b'x' then (true, s) else (false, a ∷ b ∷ s)

-- `(?<byteChars>([0-9A-Fa-f]{2})*)`
unfoldable pub split_bytes : Text → Text × Text
split_bytes [] = ([], [])
split_bytes (a ∷ []) = ([], a ∷ [])
split_bytes (a ∷ b ∷ s) =
    let (bytes, rest) = split_bytes s in
    if is_hex_digit a && is_hex_digit b then (a ∷ b ∷ bytes, rest) else ([], a ∷ b ∷ s)

-- `(?<incompleteChars>.*)$`: the dot matches no line terminator, and then nothing matches.
unfoldable pub parse_hex : Text → Result HexError ParsedHexString
parse_hex source =
    let (has_prefix, rest) = strip_prefix source in
    let (bytes, incomplete) = split_bytes rest in
    if any is_line_terminator incomplete
    then err no_match
    else ok (record { has_prefix = has_prefix; byte_chars = bytes; incomplete_chars = incomplete })

abbrev hex_digit : ℕ → ℕ
hex_digit n = if ltb n 10 then b'0' + n else b'a' + (n - 10)

unfoldable pub to_hex : List ℕ → Text
to_hex [] = []
to_hex (b ∷ bytes) = hex_digit (b / 16) ∷ hex_digit (b % 16) ∷ to_hex bytes

abbrev pub hex_value : ℕ → ℕ
hex_value c = if leb c b'9' then c - b'0' else if leb c b'F' then c - b'A' + 10 else c - b'a' + 10

-- `Buffer.from(str, 'hex')` stops at the first pair that is no byte.
unfoldable pub from_hex : Text → List ℕ
from_hex [] = []
from_hex (a ∷ []) = []
from_hex (a ∷ b ∷ s) =
    let rest = from_hex s in
    if is_hex_digit a && is_hex_digit b then (hex_value a * 16 + hex_value b) ∷ rest else []

abbrev not_positive : Option ℕ → Bool
not_positive none = false
not_positive (some n) = leb n 0

-- `byteLen ? byteChars.length / 2 === byteLen : byteChars.length > 0`
abbrev valid_byte_len : Option ℕ → Text → Bool
valid_byte_len none bytes = ltb 0 (length bytes)
valid_byte_len (some n) bytes = length bytes / 2 == n

unfoldable pub is_hex : Text → Option ℕ → Result HexError Bool
is_hex source byte_len = if is_empty source || not_positive byte_len then ok false else do
  parsed ← parse_hex source
  ok (valid_byte_len byte_len parsed.byte_chars && is_empty parsed.incomplete_chars)

-- The throws for characters that belong to no whole byte.
unfoldable pub check_incomplete : Text → ParsedHexString → Result HexError (Unit {0})
check_incomplete source parsed =
    let pos = length parsed.byte_chars + (if parsed.has_prefix then 2 else 0) in
    if is_empty parsed.incomplete_chars
    then ok tt
    else if ltb 0 (length parsed.incomplete_chars % 2)
    then err incomplete_last_byte
    else err (invalid_hex_digit (get_elem? source pos) pos)

unfoldable pub check_byte_len : Option ℕ → Text → Result HexError (Unit {0})
check_byte_len none bytes = ok tt
check_byte_len (some n) bytes =
    let actual = length bytes / 2 in if n == actual then ok tt else err (wrong_byte_len n actual)

unfoldable pub assert_is_hex : Text → Option ℕ → Result HexError (Unit {0})
unfolding check_incomplete check_byte_len
assert_is_hex source byte_len = do
  throw_if (is_empty source) empty_input
  throw_if (not_positive byte_len) bad_byte_len
  parsed ← parse_hex source
  check_incomplete source parsed
  throw_if (is_empty parsed.byte_chars) not_hex_string
  check_byte_len byte_len parsed.byte_chars

-- type-utils.ts
abbrev pub contract_address_byte_length : ℕ
contract_address_byte_length = 34

unfoldable pub assert_is_contract_address : Text → Result HexError (Unit {0})
assert_is_contract_address address = do
  assert_is_hex address (some contract_address_byte_length)
  parsed ← parse_hex address
  throw_if parsed.has_prefix unexpected_prefix
