-- ===== src/Platform/Hex.antt =====
-- platform-js/platform-js/src/effect/internal/hex.ts and Hex.ts: hex strings under constraints. The
-- regular expression is that of packages/utils/src/hex-utils.ts, character for character.
pub mod Accepts
use midnight_js.Prelude.{
  ℕ, ◌+◌, ◌/◌, ◌%◌, Bool, true, false, not, ◌&&◌, Option, none, some, List, [], ◌∷◌, ltb,
  if◌then◌else◌, length, get_elem?, is_empty, any, Text, Result, ok, err,
}
use midnight_js.Prelude.Int.{pos}
use midnight_js.Hex.{ParsedHexString, strip_prefix, split_bytes, from_hex}
use midnight_js.Hex.Digits.{is_line_terminator}
use midnight_js.Platform.IntegerRange.{IntegerRange, IntegerRangeInput, RangeError, from, contains}

-- The messages of a ParseError, without the source that each of them quotes.
pub data ParseReason : Type 0 where
  empty_source not_hex_string incomplete_last_byte : ParseReason
  invalid_hex_digit : Option ℕ → ℕ → ParseReason

pub record ParseError : Type 0 where
  pub reason : ParseReason
  pub source : Text
  pub meta : Option ParsedHexString

abbrev left : Text → ParseReason → Option ParsedHexString → Result ParseError ParsedHexString
left source reason meta = err (record { reason = reason; source = source; meta = meta })

-- What is decided once the groups are captured.
unfoldable pub check_parsed : Text → ParsedHexString → Result ParseError ParsedHexString
check_parsed source parsed =
    let position = length parsed.byte_chars + (if parsed.has_prefix then 2 else 0) in
    if not (is_empty parsed.incomplete_chars)
    then if ltb 0 (length parsed.incomplete_chars % 2)
      then left source incomplete_last_byte (some parsed)
      else left source (invalid_hex_digit (get_elem? source position) position) (some parsed)
    else if is_empty parsed.byte_chars
    then left source not_hex_string (some parsed)
    else ok parsed

unfoldable pub parse_hex : Text → Result ParseError ParsedHexString
parse_hex source =
    let (has_prefix, rest) = strip_prefix source in
    let (bytes, incomplete) = split_bytes rest in
    if is_empty source
    then left source empty_source none
    else if any is_line_terminator incomplete
    then left source not_hex_string none
    else check_parsed source
        (record { has_prefix = has_prefix; byte_chars = bytes; incomplete_chars = incomplete })

-- The options of `make`, merged with its defaults.
pub record HexConstraints : Type 0 where
  pub require_prefix : Bool
  pub byte_length : Option IntegerRangeInput

-- A BrandError, and what the conversion of the byte length's range throws.
pub data BrandError : Type 0 where
  unparsable : ParseReason → BrandError
  prefix_required prefix_not_allowed : BrandError
  wrong_byte_length : ℕ → IntegerRange → BrandError
  bad_range : RangeError → BrandError

abbrev check_length :
    Text → ParsedHexString → Result RangeError IntegerRange → Result BrandError Text
check_length source parsed (err e) = err (bad_range e)
check_length source parsed (ok bounds) =
    if contains bounds (pos (length parsed.byte_chars / 2))
    then ok source
    else err (wrong_byte_length (length parsed.byte_chars / 2) bounds)

abbrev check_byte_length :
    Text → ParsedHexString → Option IntegerRangeInput → Result BrandError Text
check_byte_length source parsed none = ok source
check_byte_length source parsed (some input) = check_length source parsed (from input)

abbrev check_brand :
    HexConstraints → Text → Result ParseError ParsedHexString → Result BrandError Text
check_brand options source (err e) = err (unparsable e.reason)
check_brand options source (ok parsed) =
    if options.require_prefix && not parsed.has_prefix
    then err prefix_required
    else if not options.require_prefix && parsed.has_prefix
    then err prefix_not_allowed
    else check_byte_length source parsed options.byte_length

-- The constructor that `make(constraints)` returns.
unfoldable pub make : HexConstraints → Text → Result BrandError Text
make options source = check_brand options source (parse_hex source)

unfoldable pub prefixed_hex : Text → Result BrandError Text
prefixed_hex = make (record { require_prefix = true; byte_length = none })

unfoldable pub plain_hex : Text → Result BrandError Text
plain_hex = make (record { require_prefix = false; byte_length = none })

unfoldable pub constrained_prefixed_hex : IntegerRangeInput → Text → Result BrandError Text
constrained_prefixed_hex bounds = make (record { require_prefix = true; byte_length = some bounds })

unfoldable pub constrained_plain_hex : IntegerRangeInput → Text → Result BrandError Text
constrained_plain_hex bounds = make (record { require_prefix = false; byte_length = some bounds })
