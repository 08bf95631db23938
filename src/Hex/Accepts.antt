-- ===== src/Hex/Accepts.antt =====
-- Which strings `isHex`, `assertIsHex` and `assertIsContractAddress` accept.
use midnight_js.Prelude.{
  ℕ, ◌-◌, ◌*◌, ◌/◌, ◌%◌, ◌≡◌, refl, sym, ap, subst, ◌∙◌, ◌↔◌, Bool, true, false, ◌||◌, Option, none,
  some, [], ◌∷◌, ◌++◌, arith, length, get_elem?, any, all, inl, inr, Text, ok, err, is_empty,
  Result-cases,
}
use native.Mathlib.Nat.{add-zero}
use mathlib.Core.Bool.{and-eq-true_iff}
use mathlib.Core.List.{append-nil}
use midnight_js.Hex.Digits.{is_hex_digit, is_line_terminator}
use midnight_js.Hex.{
  ParsedHexString, check_incomplete, HexError, no_match, invalid_hex_digit, parse_hex, not_positive,
  is_hex, assert_is_hex, assert_is_contract_address,
}
use midnight_js.Hex.Parse.{IsBytes, starts_with_prefix, prefix_of, IsHexParse, parse_hex_iff}

pub length-IsBytes : (s : Text) → IsBytes s → length s ≡ 2 * (length s / 2)
length-IsBytes [] h = omega arith
length-IsBytes (a ∷ []) h = absurd h
length-IsBytes (a ∷ b ∷ s) h = omega (arith, length-IsBytes s h.2)

is_hex-assert_is_hex_of_parse :
    (s : Text) (n : Option ℕ) (p : ParsedHexString)
    → parse_hex s ≡ ok p
    → (is_hex s n ≡ ok true) ↔ (assert_is_hex s n ≡ ok tt)
unfolding is_hex assert_is_hex
is_hex-assert_is_hex_of_parse s n p e =
    ground (arith, length-IsBytes p.byte_chars ((parse_hex_iff s p).0 e).bytes)

-- The guard and the assertion accept the same strings and byte lengths.
is_hex_iff_assert_is_hex :
    (source : Text) (byte_len : Option ℕ)
    → (is_hex source byte_len ≡ ok true) ↔ (assert_is_hex source byte_len ≡ ok tt)
is_hex_iff_assert_is_hex s n = elim (Result-cases (parse_hex s)) [
  | inl (e, q) ↦ unfold is_hex assert_is_hex in ground arith
  | inr (p, q) ↦ is_hex-assert_is_hex_of_parse s n p q
]

pub all-IsBytes : (s : Text) → IsBytes s → all is_hex_digit s ≡ true
all-IsBytes [] h = refl
all-IsBytes (a ∷ []) h = absurd h
all-IsBytes (a ∷ b ∷ s) h = ground (arith, all-IsBytes s h.2)

pub IsBytes-of_all : (s : Text) (n : ℕ) → all is_hex_digit s ≡ true → length s ≡ 2 * n → IsBytes s
IsBytes-of_all [] n h e = tt
IsBytes-of_all (a ∷ []) n h e = absurd (omega arith)
IsBytes-of_all (a ∷ b ∷ s) n h e =
    let (ha, h') = (and-eq-true_iff _ _).0 h in
    let (hb, hs) = (and-eq-true_iff _ _).0 h' in (ha, hb, IsBytes-of_all s (n - 1) hs (omega arith))

starts_with_prefix-IsBytes : (s : Text) → IsBytes s → starts_with_prefix s ≡ false
unfolding is_hex_digit
starts_with_prefix-IsBytes [] h = refl
starts_with_prefix-IsBytes (a ∷ []) h = refl
starts_with_prefix-IsBytes (a ∷ b ∷ s) h = ground arith

-- A text of whole bytes is parsed as such.
pub parse_hex_of_IsBytes :
    (s : Text)
    → IsBytes s
    → parse_hex s ≡ ok (record { has_prefix = false; byte_chars = s; incomplete_chars = [] })
parse_hex_of_IsBytes s h = (parse_hex_iff s _).1 (record {
  parts = append-nil s;
  prefix = sym (starts_with_prefix-IsBytes s h);
  bytes = h;
  maximal = refl;
  single_line = refl;
})

accepted_address_of_parse :
    (s : Text) (p : ParsedHexString)
    → parse_hex s ≡ ok p
    → assert_is_contract_address s ≡ ok tt
    → (p.byte_chars ≡ s) × (length p.byte_chars / 2 ≡ 34)
unfolding assert_is_contract_address assert_is_hex
accepted_address_of_parse s p e h =
    let q = (parse_hex_iff s p).0 e in
    let bare : (p.has_prefix ≡ false) × (p.incomplete_chars ≡ []) × (length p.byte_chars / 2 ≡ 34) =
      ground arith in
    (
      sym (append-nil p.byte_chars)
          ∙ ap (λ t. p.byte_chars ++ t) (sym bare.1)
          ∙ ap (λ b. prefix_of b ++ (p.byte_chars ++ p.incomplete_chars)) (sym bare.0)
          ∙ q.parts,
      bare.2,
    )

assert_is_contract_address_sound :
    (s : Text)
    → assert_is_contract_address s ≡ ok tt
    → (length s ≡ 68) × (all is_hex_digit s ≡ true)
assert_is_contract_address_sound s h = elim (Result-cases (parse_hex s)) [
  | inl (e, q) ↦ unfold assert_is_contract_address assert_is_hex in ground arith
  | inr (p, q) ↦
      let (same, len) = accepted_address_of_parse s p q h in
      let bytes = ((parse_hex_iff s p).0 q).bytes in
      subst (λ t. (length t ≡ 68) × (all is_hex_digit t ≡ true)) same
        (omega (arith, length-IsBytes p.byte_chars bytes), all-IsBytes p.byte_chars bytes)
]

assert_is_contract_address_complete :
    (s : Text) → length s ≡ 68 → all is_hex_digit s ≡ true → assert_is_contract_address s ≡ ok tt
unfolding assert_is_contract_address assert_is_hex
assert_is_contract_address_complete s len h =
    ground (arith, parse_hex_of_IsBytes s (IsBytes-of_all s 34 h len))

-- A contract address is accepted exactly when it is 68 hex digits, with no prefix.
pub assert_is_contract_address_iff :
    (address : Text)
    → (assert_is_contract_address address ≡ ok tt)
      ↔ ((length address ≡ 68) × (all is_hex_digit address ≡ true))
assert_is_contract_address_iff s =
    (assert_is_contract_address_sound s, λ h. assert_is_contract_address_complete s h.0 h.1)

any-append : (s t : Text) (f : ℕ → Bool) → any f (s ++ t) ≡ (any f s || any f t)
any-append [] t f = refl
any-append (a ∷ s) t f = ground (arith, any-append s t f)

is_line_terminator_of_digit : (c : ℕ) → is_hex_digit c ≡ true → is_line_terminator c ≡ false
unfolding is_hex_digit is_line_terminator
is_line_terminator_of_digit c h = ground arith

any-is_line_terminator-IsBytes : (s : Text) → IsBytes s → any is_line_terminator s ≡ false
any-is_line_terminator-IsBytes [] h = refl
any-is_line_terminator-IsBytes (a ∷ []) h = absurd h
any-is_line_terminator-IsBytes (a ∷ b ∷ s) (ha, hb, h) =
    rw (is_line_terminator_of_digit a ha, is_line_terminator_of_digit b hb)
      (any-is_line_terminator-IsBytes s h)

any-is_line_terminator-prefix_of : (b : Bool) → any is_line_terminator (prefix_of b) ≡ false
unfolding is_line_terminator
any-is_line_terminator-prefix_of true = refl
any-is_line_terminator-prefix_of false = refl

single_line_of_parse :
    (s : Text) (p : ParsedHexString) → IsHexParse s p → any is_line_terminator s ≡ false
single_line_of_parse s p h = rw (← h.parts) (
    rw any-append (
      rw any-append (
        rw (
          any-is_line_terminator-prefix_of p.has_prefix,
          any-is_line_terminator-IsBytes p.byte_chars h.bytes,
          h.single_line,
        ))))

parse_hex_err : (s : Text) (e : HexError) → parse_hex s ≡ err e → e ≡ no_match
unfolding parse_hex
parse_hex_err s e h = ground arith

-- With no byte length or a positive one, a line break anywhere in the string makes the guard throw
-- instead of answering false.
pub is_hex_throws :
    (source : Text) (byte_len : Option ℕ)
    → any is_line_terminator source ≡ true
    → not_positive byte_len ≡ false
    → is_hex source byte_len ≡ err no_match
is_hex_throws s n h k = elim (Result-cases (parse_hex s)) [
  | inl (e, q) ↦ unfold is_hex in ground (arith, parse_hex_err s e q)
  | inr (p, q) ↦ cc (single_line_of_parse s p ((parse_hex_iff s p).0 q), h)
]

get_elem?-length : (s t : Text) (c : ℕ) → get_elem? (s ++ c ∷ t) (length s) ≡ some c
get_elem?-length [] t c = refl
get_elem?-length (a ∷ s) t c = get_elem?-length s t c

is_empty-append : (s t : Text) (c : ℕ) → is_empty (s ++ c ∷ t) ≡ false
is_empty-append [] t c = refl
is_empty-append (a ∷ s) t c = refl

blamed_digit :
    (source bytes incomplete : Text) (a : ℕ)
    → get_elem? source (length bytes) ≡ some a
    → is_empty incomplete ≡ false
    → length incomplete % 2 ≡ 0
    → check_incomplete source
        (record { has_prefix = false; byte_chars = bytes; incomplete_chars = incomplete })
      ≡ err (invalid_hex_digit (some a) (length bytes))
unfolding check_incomplete
blamed_digit source bytes incomplete a h e even = ground (arith, add-zero (length bytes))

-- In a string of even length with no prefix and no line break, whose first pair that is no byte
-- begins with a hex digit, the assertion names that digit, and its position, as invalid.
pub assert_is_hex_blames_digit :
    (bytes rest : Text) (a z : ℕ)
    → IsBytes bytes
    → is_hex_digit a ≡ true
    → is_hex_digit z ≡ false
    → any is_line_terminator (a ∷ z ∷ rest) ≡ false
    → length rest % 2 ≡ 0
    → starts_with_prefix (bytes ++ a ∷ z ∷ rest) ≡ false
    → assert_is_hex (bytes ++ a ∷ z ∷ rest) none ≡ err (invalid_hex_digit (some a) (length bytes))
unfolding assert_is_hex
assert_is_hex_blames_digit bytes rest a z hb ha hz ht he hp =
    let parsed : parse_hex (bytes ++ a ∷ z ∷ rest)
        ≡ ok (record { has_prefix = false; byte_chars = bytes; incomplete_chars = a ∷ z ∷ rest }) =
      (parse_hex_iff _ _).1 (record {
        parts = refl;
        prefix = sym hp;
        bytes = hb;
        maximal = rw (ha, hz);
        single_line = ht;
      }) in
    rw (
      is_empty-append bytes (z ∷ rest) a,
      parsed,
      blamed_digit (bytes ++ a ∷ z ∷ rest) bytes (a ∷ z ∷ rest) a
          (get_elem?-length bytes (z ∷ rest) a) refl (omega arith),
    )
