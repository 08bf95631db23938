-- ===== src/Hex/Digits.antt =====
-- The character classes of the hex regular expression of packages/utils/src/hex-utils.ts.
use midnight_js.Prelude.{ℕ, Bool, ◌&&◌, ◌||◌, leb, ◌==◌}

-- `[0-9A-Fa-f]`
unfoldable pub is_hex_digit : ℕ → Bool
is_hex_digit c = leb b'0' c && leb c b'9' || leb b'A' c && leb c b'F' || leb b'a' c && leb c b'f'

-- LF, CR, LS and PS, the code units that `.` does not match.
unfoldable pub is_line_terminator : ℕ → Bool
is_line_terminator c = c == 10 || c == 13 || c == 0x2028 || c == 0x2029
