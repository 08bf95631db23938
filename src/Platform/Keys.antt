-- ===== src/Platform/Keys.antt =====
-- platform-js/platform-js/src/effect: ContractAddress.ts, DomainSeparator.ts, SigningKey.ts and
-- CoinPublicKey.ts, and the keys of Configuration.ts. `Brand.all` of a nominal brand and a refined
-- one checks what the refined one does.
pub mod Laws
use midnight_js.Prelude.{ℕ, Option, none, some, List, Text, codes, Result, ok, err, ◌>>=◌}
use midnight_js.Hex.{ParsedHexString, from_hex}
use midnight_js.Platform.IntegerRange.{text}
use midnight_js.Platform.Hex.{ParseError, BrandError, parse_hex, plain_hex, constrained_plain_hex}

unfoldable pub contract_address : Text → Result BrandError Text
contract_address = constrained_plain_hex (text (codes "32..=32"))

unfoldable pub domain_separator : Text → Result BrandError Text
domain_separator = constrained_plain_hex (text (codes "32..=32"))

unfoldable pub signing_key : Text → Result BrandError Text
signing_key = constrained_plain_hex (text (codes "32..=35"))

-- `asBytes` of an address, and of a separator
unfoldable pub contract_address_bytes : Text → List ℕ
contract_address_bytes address = from_hex address

-- Which constructor a key has gone through.
pub data CoinPublicKey : Type 0 where
  hex bech32m : Text → CoinPublicKey

-- `asHex` of a string: both of its branches end in `Hex(self)`, since `Bech32m.is` accepts any string.
unfoldable pub as_hex : Text → Result BrandError Text
as_hex self = plain_hex self

unfoldable pub as_bech32m : Text → Text
as_bech32m self = self

abbrev as_hex_key : Result BrandError Text → Result BrandError CoinPublicKey
as_hex_key (ok s) = ok (hex s)
as_hex_key (err e) = err e

abbrev make_parsed : Text → Result ParseError ParsedHexString → Result BrandError CoinPublicKey
make_parsed value (ok parsed) = as_hex_key (plain_hex value)
make_parsed value (err e) = ok (bech32m value)

unfoldable pub make : Text → Result BrandError CoinPublicKey
make value = make_parsed value (parse_hex value)

-- `asBytes` of a key
abbrev bytes_of : Result BrandError Text → Result BrandError (List ℕ)
bytes_of (ok s) = ok (from_hex s)
bytes_of (err e) = err e

unfoldable pub as_bytes : Text → Result BrandError (List ℕ)
unfolding as_hex
as_bytes self = bytes_of (as_hex self)

-- `coinPublic` of a configuration: the schema's union takes the first brand that accepts the string.
abbrev first_brand : Text → Result BrandError Text → CoinPublicKey
first_brand value (ok s) = hex s
first_brand value (err e) = bech32m value

unfoldable pub configured_coin_public : Text → CoinPublicKey
configured_coin_public value = first_brand value (plain_hex value)

-- `signing` of a configuration, which may be missing.
abbrev given_key : Result BrandError Text → Result BrandError (Option Text)
given_key (ok s) = ok (some s)
given_key (err e) = err e

unfoldable pub configured_signing : Option Text → Result BrandError (Option Text)
unfolding signing_key
configured_signing none = ok none
configured_signing (some value) = given_key (signing_key value)

-- Configuration.Keys: `signing` is what `getSigningKey()` returns.
pub record Keys : Type 0 where
  pub coin_public_key : CoinPublicKey
  pub signing : Option Text

-- `makeKeys`, from the two values of the configuration.
unfoldable pub configured_keys : Text → Option Text → Result BrandError Keys
unfolding configured_coin_public configured_signing
configured_keys coin_public signing = do
  key ← configured_signing signing
  ok (record { coin_public_key = configured_coin_public coin_public; signing = key })
