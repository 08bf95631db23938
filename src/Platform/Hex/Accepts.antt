-- ===== src/Platform/Hex/Accepts.antt =====
-- Which strings the parser and the nominal brands of platform-js/platform-js/src/effect accept,
-- beside packages/utils/src/hex-utils.ts.
use midnight_js.Prelude.{
  Result-cases, ◌/◌, ◌≡◌, sym, ap, subst, ◌∙◌, ◌%◌, ◌↔◌, true, false, none, [], arith, length, all,
  is_empty, inl, inr, Text, ok, ◌++◌,
}
use mathlib.Core.List.{append-nil}
use midnight_js.Hex.{ParsedHexString, assert_is_hex, check_incomplete, check_byte_len}
use midnight_js.Hex
use midnight_js.Hex.Digits.{is_hex_digit}
use midnight_js.Hex.Parse.{IsBytes, parse_hex_iff, prefix_of}
use midnight_js.Hex.Accepts.{parse_hex_of_IsBytes, length-IsBytes, all-IsBytes, IsBytes-of_all}
use midnight_js.Prelude.Int.{pos}
use midnight_js.Platform.IntegerRange.{IntegerRange, IntegerRangeInput, from, contains}
use midnight_js.Platform.Hex.{parse_hex, check_parsed, make, constrained_plain_hex}

-- The parser of platform-js accepts the strings that `assertIsHex` accepts without a byte length,
-- and returns what `parseHex` of the utilities returns for them.
pub parse_hex-assert_is_hex_iff :
    (source : Text) (p : ParsedHexString)
    → (parse_hex source ≡ ok p)
      ↔ ((Hex.parse_hex source ≡ ok p) × (assert_is_hex source none ≡ ok tt))
unfolding parse_hex check_parsed Hex.parse_hex assert_is_hex check_incomplete check_byte_len
parse_hex-assert_is_hex_iff s p = ground arith

pub parsed_of_IsBytes :
    (s : Text)
    → IsBytes s
    → is_empty s ≡ false
    → parse_hex s ≡ ok (record { has_prefix = false; byte_chars = s; incomplete_chars = [] })
unfolding assert_is_hex check_incomplete check_byte_len
parsed_of_IsBytes s h n =
    (parse_hex-assert_is_hex_iff s _).1
      (parse_hex_of_IsBytes s h, rw (n, parse_hex_of_IsBytes s h, n))

parsed_parts :
    (s : Text) (p : ParsedHexString)
    → parse_hex s ≡ ok p
    → p.has_prefix ≡ false
    → IsBytes s × (p.byte_chars ≡ s) × (is_empty s ≡ false)
unfolding parse_hex check_parsed
parsed_parts s p e h =
    let q = (parse_hex_iff s p).0 ((parse_hex-assert_is_hex_iff s p).0 e).0 in
    let bare : (p.incomplete_chars ≡ []) × (is_empty s ≡ false) = ground arith in
    let same : p.byte_chars ≡ s =
      sym (append-nil p.byte_chars)
      ∙ ap (λ t. p.byte_chars ++ t) (sym bare.0)
      ∙ ap (λ b. prefix_of b ++ (p.byte_chars ++ p.incomplete_chars)) (sym h)
      ∙ q.parts in
    (subst IsBytes same q.bytes, same, bare.1)

module _ (input : IntegerRangeInput) (bounds : IntegerRange) (e : from input ≡ ok bounds) where
  constrained_plain_hex_complete :
      (s : Text)
      → IsBytes s
      → is_empty s ≡ false
      → contains bounds (pos (length s / 2)) ≡ true
      → constrained_plain_hex input s ≡ ok s
  unfolding constrained_plain_hex make
  constrained_plain_hex_complete s h n c = rw (parsed_of_IsBytes s h n, e, c)

  pub constrained_plain_hex_sound :
      (s t : Text)
      → constrained_plain_hex input s ≡ ok t
      → IsBytes s × (is_empty s ≡ false) × (contains bounds (pos (length s / 2)) ≡ true) × (t ≡ s)
  unfolding constrained_plain_hex make
  constrained_plain_hex_sound s t h = elim (Result-cases (parse_hex s)) [
    | inl (f, q) ↦ ground arith
    | inr (p, q) ↦
        let accepted : (p.has_prefix ≡ false)
            × (contains bounds (pos (length p.byte_chars / 2)) ≡ true)
            × (t ≡ s) =
          ground arith in
        let (bytes, same, nonempty) = parsed_parts s p q accepted.0 in
        (
          bytes,
          nonempty,
          subst (λ u. contains bounds (pos (length u / 2)) ≡ true) same accepted.1,
          accepted.2,
        )
  ]

  -- A plain string is accepted exactly when it is whole bytes, at least one, as many as the range holds.
  pub constrained_plain_hex_iff :
      (s : Text)
      → (constrained_plain_hex input s ≡ ok s) ↔ (
          (length s % 2 ≡ 0)
          × (all is_hex_digit s ≡ true)
          × (is_empty s ≡ false)
          × (contains bounds (pos (length s / 2)) ≡ true))
  constrained_plain_hex_iff s = (
    λ h.
        let (b, n, c, e) = constrained_plain_hex_sound s s h in
        (omega (arith, length-IsBytes s b), all-IsBytes s b, n, c),
    λ h.
        constrained_plain_hex_complete s (IsBytes-of_all s (length s / 2) h.1 (omega arith)) h.2
          h.3,
  )
