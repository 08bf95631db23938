-- ===== src/Platform/IntegerRange/Laws.antt =====
-- What a range contains, and what the two conversions keep.
use midnight_js.Prelude.{◌≡◌, true, ◌↔◌, arith}
use midnight_js.Prelude.Int.{ℤ, ◌≤ℤ◌, succ}
use midnight_js.Platform.IntegerRange.{
  IntegerRange, Inclusion, inclusive, exclusive, is_inclusive, is_exclusive, contains, to_inclusive,
  to_exclusive,
}

abbrev pub AtMost : Inclusion → ℤ → ℤ → Type 0
AtMost inclusive max value = value ≤ℤ max
AtMost exclusive max value = succ value ≤ℤ max

-- The values of a range, by its bounds.
abbrev pub InRange : IntegerRange → ℤ → Type 0
InRange r value = (r.min ≤ℤ value) × AtMost r.inclusion r.max value

abbrev range_of : Inclusion → ℤ → ℤ → IntegerRange
range_of i min max = record { inclusion = i; min = min; max = max }

contains_iff_bounds :
    (i : Inclusion) (min max value : ℤ)
    → (contains (range_of i min max) value ≡ true) ↔ ((min ≤ℤ value) × AtMost i max value)
unfolding contains
contains_iff_bounds inclusive min max value = ground arith
contains_iff_bounds exclusive min max value = ground arith

-- A range contains a value exactly when the value is at least the minimum and at most the maximum,
-- or below the maximum if the range is exclusive.
pub contains_iff : (r : IntegerRange) (value : ℤ) → (contains r value ≡ true) ↔ InRange r value
contains_iff r value = contains_iff_bounds r.inclusion r.min r.max value

abbrev pub KeepsValues : IntegerRange → ℤ → Type 0
KeepsValues r value =
    ((is_inclusive (to_inclusive r) ≡ true) × (contains (to_inclusive r) value ≡ contains r value))
    × ((is_exclusive (to_exclusive r) ≡ true)
        × (contains (to_exclusive r) value ≡ contains r value))

bounds_keep_values : (i : Inclusion) (min max value : ℤ) → KeepsValues (range_of i min max) value
unfolding contains to_inclusive to_exclusive
bounds_keep_values inclusive min max value = ground arith
bounds_keep_values exclusive min max value = ground arith

-- The inclusive and the exclusive version of a range are what their names say, and contain the same
-- values as the range.
pub conversions_keep_values : (r : IntegerRange) (value : ℤ) → KeepsValues r value
conversions_keep_values r value = bounds_keep_values r.inclusion r.min r.max value
