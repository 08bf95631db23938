-- ===== src/Hex/Parse.antt =====
-- What `parseHex` returns, against a description of the parts of a hex string.
use midnight_js.Prelude.{
  ◌≡◌, refl, ap, subst, ◌∙◌, ◌↔◌, Bool, true, false, ◌&&◌, [], ◌∷◌, ◌++◌, arith, ◌==◌, any,
  Bool-cases, inl, inr, Text, ok,
}
use midnight_js.Hex.Digits.{is_hex_digit, is_line_terminator}
use midnight_js.Hex.{ParsedHexString, strip_prefix, split_bytes, parse_hex}

-- Whole bytes: pairs of hex digits.
abbrev pub IsBytes : Text → Type 0
IsBytes [] = Unit
IsBytes (a ∷ []) = ⊥
IsBytes (a ∷ b ∷ s) = (is_hex_digit a ≡ true) × (is_hex_digit b ≡ true) × IsBytes s

-- A text that does not begin with a whole byte.
abbrev pub starts_with_byte : Text → Bool
starts_with_byte [] = false
starts_with_byte (a ∷ []) = false
starts_with_byte (a ∷ b ∷ s) = is_hex_digit a && is_hex_digit b

abbrev pub starts_with_prefix : Text → Bool
starts_with_prefix [] = false
starts_with_prefix (a ∷ []) = false
starts_with_prefix (a ∷ b ∷ s) = a == b'0' && b == b'x'

abbrev pub prefix_of : Bool → Text
prefix_of true = b'0' ∷ b'x' ∷ []
prefix_of false = []

pub record IsHexParse (source : Text) (p : ParsedHexString) : Type 0 where
  pub parts : prefix_of p.has_prefix ++ (p.byte_chars ++ p.incomplete_chars) ≡ source
  pub prefix : p.has_prefix ≡ starts_with_prefix source
  pub bytes : IsBytes p.byte_chars
  pub maximal : starts_with_byte p.incomplete_chars ≡ false
  pub single_line : any is_line_terminator p.incomplete_chars ≡ false

pub strip_prefix-append : (s : Text) → prefix_of (strip_prefix s).0 ++ (strip_prefix s).1 ≡ s
unfolding strip_prefix
strip_prefix-append [] = refl
strip_prefix-append (a ∷ []) = refl
strip_prefix-append (a ∷ b ∷ s) = ground arith

pub strip_prefix-starts_with_prefix : (s : Text) → (strip_prefix s).0 ≡ starts_with_prefix s
unfolding strip_prefix
strip_prefix-starts_with_prefix [] = refl
strip_prefix-starts_with_prefix (a ∷ []) = refl
strip_prefix-starts_with_prefix (a ∷ b ∷ s) = ground arith

pub split_bytes-append : (s : Text) → (split_bytes s).0 ++ (split_bytes s).1 ≡ s
unfolding split_bytes
split_bytes-append [] = refl
split_bytes-append (a ∷ []) = refl
split_bytes-append (a ∷ b ∷ s) = ground (arith, split_bytes-append s)

pub split_bytes-IsBytes : (s : Text) → IsBytes (split_bytes s).0
unfolding split_bytes
split_bytes-IsBytes [] = tt
split_bytes-IsBytes (a ∷ []) = tt
split_bytes-IsBytes (a ∷ b ∷ s) = ground (arith, split_bytes-IsBytes s)

pub split_bytes_maximal : (s : Text) → starts_with_byte (split_bytes s).1 ≡ false
unfolding split_bytes
split_bytes_maximal [] = refl
split_bytes_maximal (a ∷ []) = refl
split_bytes_maximal (a ∷ b ∷ s) = ground (arith, split_bytes_maximal s)

pub split_bytes_of_parts :
    (bytes rest : Text)
    → IsBytes bytes
    → starts_with_byte rest ≡ false
    → split_bytes (bytes ++ rest) ≡ (bytes, rest)
unfolding split_bytes
split_bytes_of_parts [] [] h m = refl
split_bytes_of_parts [] (a ∷ []) h m = refl
split_bytes_of_parts [] (a ∷ b ∷ s) h m = ground arith
split_bytes_of_parts (a ∷ []) rest h m = absurd h
split_bytes_of_parts (a ∷ b ∷ s) rest h m = ground (arith, split_bytes_of_parts s rest h.2 m)

strip_prefix_of_parts :
    (b : Bool) (rest s : Text)
    → prefix_of b ++ rest ≡ s
    → b ≡ starts_with_prefix s
    → strip_prefix s ≡ (b, rest)
unfolding strip_prefix
strip_prefix_of_parts b rest [] e p = ground arith
strip_prefix_of_parts b rest (a ∷ []) e p = ground arith
strip_prefix_of_parts b rest (a ∷ c ∷ s) e p = ground arith

abbrev parts_of : Text → ParsedHexString
parts_of source =
    let (has_prefix, rest) = strip_prefix source in
    let (bytes, incomplete) = split_bytes rest in
    record { has_prefix = has_prefix; byte_chars = bytes; incomplete_chars = incomplete }

parts_of-IsHexParse :
    (source : Text)
    → any is_line_terminator (parts_of source).incomplete_chars ≡ false
    → IsHexParse source (parts_of source)
parts_of-IsHexParse source e = record {
  parts =
      ap (λ t. prefix_of (strip_prefix source).0 ++ t) (split_bytes-append (strip_prefix source).1)
      ∙ strip_prefix-append source;
  prefix = strip_prefix-starts_with_prefix source;
  bytes = split_bytes-IsBytes (strip_prefix source).1;
  maximal = split_bytes_maximal (strip_prefix source).1;
  single_line = e;
}

module _ (source : Text) (p : ParsedHexString) where
  parse_hex_sound : parse_hex source ≡ ok p → IsHexParse source p
  unfolding parse_hex
  parse_hex_sound h =
      elim (Bool-cases (any is_line_terminator (parts_of source).incomplete_chars)) [
        | inl e ↦ cc (e, h)
        | inr e ↦
            let same : parts_of source ≡ p = cc (e, h) in
            subst (IsHexParse source) same (parts_of-IsHexParse source e)
      ]

  parse_hex_complete : IsHexParse source p → parse_hex source ≡ ok p
  unfolding parse_hex
  parse_hex_complete h = rw (
    strip_prefix_of_parts p.has_prefix (p.byte_chars ++ p.incomplete_chars) source h.parts h.prefix,
    split_bytes_of_parts p.byte_chars p.incomplete_chars h.bytes h.maximal,
    h.single_line,
  )

-- `parse_hex` returns exactly the prefix, the longest run of whole bytes and the rest.
pub parse_hex_iff :
    (source : Text) (p : ParsedHexString) → (parse_hex source ≡ ok p) ↔ IsHexParse source p
parse_hex_iff source p = (parse_hex_sound source p, parse_hex_complete source p)
