-- ===== src/Platform/IntegerRange.antt =====
-- platform-js/platform-js/src/effect/IntegerRange.ts: ranges of integers. The numbers are integers
-- that a JavaScript number holds exactly.
pub mod Laws
pub mod RoundTrip
use midnight_js.Prelude.{
  ℕ, ◌+◌, Bool, true, false, ◌&&◌, Option, none, some, [], ◌∷◌, ◌++◌, ◌==◌, if◌then◌else◌, Text,
  codes, Result, ok, err,
}
use midnight_js.Prelude.Int.{ℤ, pos, negsuc, succ, pred, leb_ℤ, ltb_ℤ, eqb_ℤ}
use midnight_js.Prelude.Decimal.{is_digit, decimal, number_of_digits}

-- `_tag` of an IntegerRangeValue
pub data Inclusion : Type 0 where
  inclusive exclusive : Inclusion

pub record IntegerRange : Type 0 where
  pub inclusion : Inclusion
  pub min : ℤ
  pub max : ℤ

-- `untyped` is a value of none of the three forms.
pub data IntegerRangeInput : Type 0 where
  range : IntegerRange → IntegerRangeInput
  tuple : ℤ → ℤ → IntegerRangeInput
  text : Text → IntegerRangeInput
  untyped : IntegerRangeInput

pub data RangeError : Type 0 where
  invalid_integer_range : Option Text → RangeError

abbrev same_inclusion : Inclusion → Inclusion → Bool
same_inclusion inclusive inclusive = true
same_inclusion exclusive exclusive = true
same_inclusion _ _ = false

-- `Equivalence`, and `equals`
unfoldable pub equals : IntegerRange → IntegerRange → Bool
equals a b = same_inclusion a.inclusion b.inclusion && eqb_ℤ a.min b.min && eqb_ℤ a.max b.max

abbrev pub is_inclusive : IntegerRange → Bool
is_inclusive r = same_inclusion r.inclusion inclusive

abbrev pub is_exclusive : IntegerRange → Bool
is_exclusive r = same_inclusion r.inclusion exclusive

-- The longest run of digits that a text begins with, and what follows it: `\d*`.
unfoldable pub take_digits : Text → Text × Text
take_digits [] = ([], [])
take_digits (c ∷ s) =
    let (run, rest) = take_digits s in if is_digit c then (c ∷ run, rest) else ([], c ∷ s)

-- `(?<inc>\=?)`
unfoldable pub take_inclusion : Text → Inclusion × Text
take_inclusion [] = (exclusive, [])
take_inclusion (c ∷ s) = if c == b'=' then (inclusive, s) else (exclusive, c ∷ s)

-- `\.\.(?<inc>\=?)(?<x>\d*)`, after the digits `n`.
unfoldable pub match_dots : Text → Text → Option IntegerRange
match_dots n [] = none
match_dots n (a ∷ []) = none
match_dots n (a ∷ b ∷ s) =
    let (inclusion, rest) = take_inclusion s in
    if a == b'.' && b == b'.'
    then some (record {
      inclusion = inclusion;
      min = pos (number_of_digits n);
      max = pos (number_of_digits (take_digits rest).0);
    })
    else none

abbrev match_here : Text → Option IntegerRange
match_here s = match_dots (take_digits s).0 (take_digits s).1

-- `input.match(RANGE_REGEXP)`: the expression is not anchored, and the leftmost match counts.
unfoldable pub match_range : Text → Option IntegerRange
match_range [] = none
match_range (c ∷ s) = elim (match_here (c ∷ s)) [ some r ↦ some r | none ↦ match_range s ]

-- `make(input, arrayInputMode)`
unfoldable pub make : IntegerRangeInput → Option Inclusion → Result RangeError IntegerRange
make (range r) mode = ok r
make (tuple min max) none = ok (record { inclusion = exclusive; min = min; max = max })
make (tuple min max) (some mode) = ok (record { inclusion = mode; min = min; max = max })
make (text s) mode = elim (match_range s) [
  | some r ↦ ok r
  | none ↦ err (invalid_integer_range (some s))
]
make untyped mode = err (invalid_integer_range none)

unfoldable pub from : IntegerRangeInput → Result RangeError IntegerRange
unfolding make
from input = make input none

-- `inclusive` and `exclusive` of a range; of a tuple they are `make` with their mode.
unfoldable pub to_inclusive : IntegerRange → IntegerRange
to_inclusive r =
    if is_inclusive r then r else record { inclusion = inclusive; min = r.min; max = pred r.max }

unfoldable pub to_exclusive : IntegerRange → IntegerRange
to_exclusive r =
    if is_exclusive r then r else record { inclusion = exclusive; min = r.min; max = succ r.max }

abbrev contains_exclusive : ℤ → ℤ → ℤ → Bool
contains_exclusive min max value = leb_ℤ min value && ltb_ℤ value max

-- An inclusive range asks the exclusive one of the tuple with `max + 1`.
unfoldable pub contains : IntegerRange → ℤ → Bool
contains r value =
    if is_inclusive r
    then contains_exclusive r.min (succ r.max) value
    else contains_exclusive r.min r.max value

abbrev pub integer_text : ℤ → Text
integer_text (pos n) = decimal n
integer_text (negsuc n) = b'-' ∷ decimal (n + 1)

abbrev separator : Inclusion → Text
separator inclusive = codes "..="
separator exclusive = codes ".."

-- `toString()`
unfoldable pub to_text : IntegerRange → Text
to_text r = integer_text r.min ++ (separator r.inclusion ++ integer_text r.max)
