-- ===== src/Hex/RoundTrip.antt =====
-- `toHex` against `fromHex`.
use midnight_js.Prelude.{
  ℕ, ◌*◌, ◌/◌, ◌%◌, ◌<◌, ◌≡◌, refl, sym, ap, ◌∙◌, true, List, [], ◌∷◌, arith, length, All,
}
use midnight_js.Hex.Digits.{is_hex_digit}
use midnight_js.Hex.{hex_digit, hex_value, to_hex, from_hex}
use midnight_js.Hex.Parse.{IsBytes}

-- The elements of a Uint8Array.
abbrev pub IsByte : ℕ → Type 0
IsByte b = b < 256

is_hex_digit-hex_digit : (n : ℕ) → n < 16 → is_hex_digit (hex_digit n) ≡ true
unfolding is_hex_digit
is_hex_digit-hex_digit n h = ground arith

hex_value-hex_digit : (n : ℕ) → n < 16 → hex_value (hex_digit n) ≡ n
hex_value-hex_digit n h = ground arith

-- Decoding what `to_hex` wrote gives the bytes back.
pub from_hex-to_hex : (bytes : List ℕ) → All IsByte bytes → from_hex (to_hex bytes) ≡ bytes
unfolding from_hex to_hex
from_hex-to_hex [] h = refl
from_hex-to_hex (b ∷ bytes) (hb, h) =
    let high : b / 16 < 16 = omega arith in
    let low : b % 16 < 16 = omega arith in
    rw (is_hex_digit-hex_digit (b / 16) high, is_hex_digit-hex_digit (b % 16) low)
      (rw
        (
          hex_value-hex_digit (b / 16) high,
          hex_value-hex_digit (b % 16) low,
          from_hex-to_hex bytes h,
        )
        (ap (λ n. n ∷ bytes) (omega arith)))

-- Two byte strings with the same hex string are the same.
pub to_hex_injective :
    (as' bs : List ℕ) → All IsByte as' → All IsByte bs → to_hex as' ≡ to_hex bs → as' ≡ bs
to_hex_injective as' bs ha hb e =
    sym (from_hex-to_hex as' ha) ∙ ap from_hex e ∙ from_hex-to_hex bs hb

pub to_hex-IsBytes : (bytes : List ℕ) → All IsByte bytes → IsBytes (to_hex bytes)
unfolding to_hex
to_hex-IsBytes [] h = tt
to_hex-IsBytes (b ∷ bytes) (hb, h) = (
  is_hex_digit-hex_digit (b / 16) (omega arith),
  is_hex_digit-hex_digit (b % 16) (omega arith),
  to_hex-IsBytes bytes h,
)

pub length-to_hex : (bytes : List ℕ) → length (to_hex bytes) ≡ 2 * length bytes
unfolding to_hex
length-to_hex [] = omega arith
length-to_hex (b ∷ bytes) = omega (arith, length-to_hex bytes)
