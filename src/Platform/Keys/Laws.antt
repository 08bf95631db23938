-- ===== src/Platform/Keys/Laws.antt =====
-- Which strings are contract addresses, separators and keys, and what bytes they hold.
use midnight_js.Prelude.{
  ℕ, ◌/◌, ◌%◌, ◌≤◌, ◌≡◌, refl, sym, ap, ◌≢◌, ◌↔◌, true, [], ◌∷◌, arith, length, all, inl, inr, Text,
  codes, Result, ok, err, Bool-cases, All,
}
use midnight_js.Prelude.Int.{pos}
use midnight_js.Prelude.Decimal.{number_of_digits}
use midnight_js.Hex.{ParsedHexString, assert_is_contract_address, from_hex, hex_value}
use midnight_js.Hex.Digits.{is_hex_digit}
use midnight_js.Hex.Parse.{IsBytes}
use midnight_js.Hex.RoundTrip.{IsByte}
use midnight_js.Hex.Accepts.{assert_is_contract_address_iff}
use midnight_js.Platform.IntegerRange.{
  from, contains, text, inclusive, take_digits, take_inclusion, match_dots, match_range,
}
use midnight_js.Platform.Hex
use midnight_js.Platform.Hex.{
  ParseError, BrandError, prefix_not_allowed, plain_hex, parse_hex, constrained_plain_hex,
}
use midnight_js.Platform.Hex.Accepts.{constrained_plain_hex_iff, constrained_plain_hex_sound}
use midnight_js.Platform.Keys.{
  configured_coin_public, CoinPublicKey, make, make_parsed, contract_address_bytes,
  contract_address, signing_key,
}

range_of_32 :
    from (text (codes "32..=32"))
    ≡ ok (record { inclusion = inclusive; min = pos 32; max = pos 32 })
unfolding from match_range match_dots take_digits take_inclusion number_of_digits
range_of_32 = refl

range_of_keys :
    from (text (codes "32..=35"))
    ≡ ok (record { inclusion = inclusive; min = pos 32; max = pos 35 })
unfolding from match_range match_dots take_digits take_inclusion number_of_digits
range_of_keys = refl

contains_inclusive_iff :
    (lo hi n : ℕ)
    → (contains (record { inclusion = inclusive; min = pos lo; max = pos hi }) (pos n) ≡ true)
      ↔ ((lo ≤ n) × (n ≤ hi))
unfolding contains
contains_inclusive_iff lo hi n = ground arith

pub contract_address_iff :
    (source : Text)
    → (contract_address source ≡ ok source)
      ↔ ((length source ≡ 64) × (all is_hex_digit source ≡ true))
unfolding contract_address
contract_address_iff s = ground (
  arith,
  constrained_plain_hex_iff _ _ range_of_32 s,
  contains_inclusive_iff 32 32 (length s / 2),
)

pub signing_key_iff :
    (source : Text)
    → (signing_key source ≡ ok source) ↔ (
        (64 ≤ length source)
        × (length source ≤ 70)
        × (length source % 2 ≡ 0)
        × (all is_hex_digit source ≡ true))
unfolding signing_key
signing_key_iff s = ground (
  arith,
  constrained_plain_hex_iff _ _ range_of_keys s,
  contains_inclusive_iff 32 35 (length s / 2),
)

length-from_hex : (s : Text) → IsBytes s → length (from_hex s) ≡ length s / 2
unfolding from_hex
length-from_hex [] h = refl
length-from_hex (a ∷ []) h = absurd h
length-from_hex (a ∷ b ∷ s) (ha, hb, h) = rw (ha, hb) (omega (arith, length-from_hex s h))

hex_value_bound : (c : ℕ) → is_hex_digit c ≡ true → hex_value c ≤ 15
unfolding is_hex_digit
hex_value_bound c h = ground arith

from_hex-IsByte : (s : Text) → IsBytes s → All IsByte (from_hex s)
unfolding from_hex
from_hex-IsByte [] h = tt
from_hex-IsByte (a ∷ []) h = absurd h
from_hex-IsByte (a ∷ b ∷ s) (ha, hb, h) =
    rw (ha, hb) (omega (arith, hex_value_bound a ha, hex_value_bound b hb), from_hex-IsByte s h)

-- What the constructor of a contract address returns is its argument, and the bytes of this are 32
-- numbers below 256.
pub contract_address_bytes_bound :
    (source address : Text)
    → contract_address source ≡ ok address
    → (address ≡ source)
      × (length (contract_address_bytes address) ≡ 32)
      × All IsByte (contract_address_bytes address)
unfolding contract_address contract_address_bytes
contract_address_bytes_bound s t h =
    let (bytes, nonempty, held, same) = constrained_plain_hex_sound _ _ range_of_32 s t h in
    let len : length s / 2 ≡ 32 =
      omega (arith, (contains_inclusive_iff 32 32 (length s / 2)).0 held) in
    (same, rw (same, length-from_hex s bytes) len, rw same (from_hex-IsByte s bytes))

-- No string is a contract address both for the utilities and for platform-js.
pub contract_address_disjoint :
    (source : Text)
    → assert_is_contract_address source ≡ ok tt
    → contract_address source ≢ ok source
contract_address_disjoint s h e =
    omega (arith, (assert_is_contract_address_iff s).0 h, (contract_address_iff s).0 e)

make_outcomes_of_parse :
    (s : Text) (r : Result ParseError ParsedHexString)
    → parse_hex s ≡ r
    → (e : BrandError)
    → (make_parsed s r ≡ err e)
      ↔ ((e ≡ prefix_not_allowed) × ((p : ParsedHexString) × (r ≡ ok p) × (p.has_prefix ≡ true)))
unfolding plain_hex Hex.make
make_outcomes_of_parse s (ok p) q e = elim (Bool-cases p.has_prefix) [
  | inl b ↦ (λ h. (ground arith, (p, refl, b)), λ h. rw (q, b) (ap err (sym h.0)))
  | inr b ↦ (λ h. ground arith, λ h. ground arith)
]
make_outcomes_of_parse s (err f) q e = ground arith

-- The constructor of a key throws exactly on the strings that the parser reads with a prefix, and
-- then because the prefix is not allowed.
pub make_rejects_iff :
    (value : Text) (e : BrandError)
    → (make value ≡ err e) ↔ (
        (e ≡ prefix_not_allowed)
        × ((p : ParsedHexString) × (parse_hex value ≡ ok p) × (p.has_prefix ≡ true)))
unfolding make
make_rejects_iff s e = make_outcomes_of_parse s (parse_hex s) refl e

-- A configuration makes of every string that the constructor accepts the same key as the constructor.
pub configured_coin_public-make :
    (value : Text) (key : CoinPublicKey) → make value ≡ ok key → configured_coin_public value ≡ key
unfolding make configured_coin_public plain_hex Hex.make
configured_coin_public-make value key h = ground arith
