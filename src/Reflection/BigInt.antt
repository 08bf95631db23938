-- ===== src/Reflection/BigInt.antt =====
-- `BigInt(s)` of a text, as compiledContractReflection.ts calls it: white space is trimmed, an empty
-- text is 0, and integers are decimal with a sign or have a prefix 0x, 0o or 0b.
pub mod RoundTrip
use midnight_js.Prelude.{
  ℕ, ◌+◌, ◌-◌, ◌*◌, Bool, true, false, ◌&&◌, ◌||◌, Option, none, some, List, [], ◌∷◌, ◌++◌, ◌==◌,
  leb, ltb, if◌then◌else◌, Text, all, is_empty,
}
use mathlib.Core.Option
use midnight_js.Prelude.Int.{ℤ, pos, negsuc}
use midnight_js.Prelude.Decimal.{is_digit, number_of_digits}

-- WhiteSpace and LineTerminator of ECMAScript.
unfoldable pub is_space : ℕ → Bool
is_space c =
    (leb 9 c && leb c 13)
    || c == 32
    || c == 160
    || c == 5760
    || (leb 8192 c && leb c 8202)
    || c == 8232
    || c == 8233
    || c == 8239
    || c == 8287
    || c == 12288
    || c == 65279

unfoldable pub trim_start : Text → Text
trim_start [] = []
trim_start (c ∷ s) = let rest = trim_start s in if is_space c then rest else c ∷ s

unfoldable pub trim_end : Text → Text
trim_end [] = []
trim_end (c ∷ s) = let rest = trim_end s in if is_empty rest && is_space c then [] else c ∷ rest

abbrev pub negated : ℕ → ℤ
negated n = if n == 0 then pos 0 else negsuc (n - 1)

-- The value of a letter or a digit, 36 or more for others.
unfoldable pub digit_value : ℕ → ℕ
digit_value c =
    if is_digit c
    then c - b'0'
    else if leb b'a' c && leb c b'z'
    then c - b'a' + 10
    else if leb b'A' c && leb c b'Z'
    then c - b'A' + 10
    else 36

unfoldable pub read_base : ℕ → ℕ → Text → Option ℕ
read_base base n [] = some n
read_base base n (c ∷ s) =
    let rest = read_base base (n * base + digit_value c) s in
    if ltb (digit_value c) base then rest else none

unfoldable pub unsigned : Text → Option ℕ
unsigned s = if is_empty s then none else if all is_digit s then some (number_of_digits s) else none

unfoldable pub prefixed : ℕ → Text → Option ℤ
prefixed base s = if is_empty s then none else Option.map pos (read_base base 0 s)

unfoldable pub signed : Text → Option ℤ
signed [] = some (pos 0)
signed (c ∷ s) =
    if c == b'-'
    then Option.map negated (unsigned s)
    else if c == b'+'
    then Option.map pos (unsigned s)
    else Option.map pos (unsigned (c ∷ s))

-- The literal's form by its first two characters.
unfoldable pub integer_literal : Text → Option ℤ
integer_literal [] = signed []
integer_literal (c ∷ []) = signed (c ∷ [])
integer_literal (c ∷ x ∷ s) =
    if c == b'0' && (x == b'x' || x == b'X')
    then prefixed 16 s
    else if c == b'0' && (x == b'o' || x == b'O')
    then prefixed 8 s
    else if c == b'0' && (x == b'b' || x == b'B')
    then prefixed 2 s
    else signed (c ∷ x ∷ s)

unfoldable pub string_to_bigint : Text → Option ℤ
string_to_bigint s = integer_literal (trim_end (trim_start s))
