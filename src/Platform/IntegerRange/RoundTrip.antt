-- ===== src/Platform/IntegerRange/RoundTrip.antt =====
-- What is read back from the text of a range.
use midnight_js.Prelude.{
  ◌<◌, ℕ, ◌+◌, ◌≡◌, refl, ap, sym, ◌∙◌, Bool, true, false, none, some, [], ◌∷◌, ◌++◌, ◌==◌, arith,
  all, Text, ok,
}
use mathlib.Core.List.{append-nil}
use midnight_js.Prelude.Int.{ℤ, pos, negsuc, pos_part, abs}
use midnight_js.Prelude.Decimal.{
  is_digit, decimal, number_of_digits, number_of_digits-decimal, decimal-digits,
}
use midnight_js.Platform.IntegerRange.{
  IntegerRange, Inclusion, inclusive, exclusive, text, take_digits, take_inclusion, match_dots,
  match_here, match_range, from, integer_text, separator, to_text,
}

abbrev begins_with_digit : Text → Bool
begins_with_digit [] = false
begins_with_digit (c ∷ s) = is_digit c

take_digits-append :
    (run rest : Text)
    → all is_digit run ≡ true
    → begins_with_digit rest ≡ false
    → take_digits (run ++ rest) ≡ (run, rest)
unfolding take_digits
take_digits-append [] [] h e = refl
take_digits-append [] (c ∷ rest) h e = ground arith
take_digits-append (d ∷ run) rest h e = ground (arith, take_digits-append run rest)

-- The digits that the text of a maximum begins with: none before a sign.
number-take_digits-integer_text :
    (max : ℤ) → number_of_digits (take_digits (integer_text max)).0 ≡ pos_part max
unfolding take_digits number_of_digits
number-take_digits-integer_text (pos n) =
    ap (λ t. number_of_digits (take_digits t).0) (sym (append-nil (decimal n)))
    ∙ ap (λ p. number_of_digits p.0) (take_digits-append (decimal n) [] (decimal-digits n) refl)
    ∙ number_of_digits-decimal n
number-take_digits-integer_text (negsuc n) = refl

exclusive_before_digits : (s : Text) → all is_digit s ≡ true → take_inclusion s ≡ (exclusive, s)
unfolding take_inclusion
exclusive_before_digits [] h = refl
exclusive_before_digits (c ∷ s) h = ground arith

take_inclusion-integer_text :
    (max : ℤ) → take_inclusion (integer_text max) ≡ (exclusive, integer_text max)
unfolding take_inclusion
take_inclusion-integer_text (pos n) = exclusive_before_digits (decimal n) (decimal-digits n)
take_inclusion-integer_text (negsuc n) = refl

match_dots-separator :
    (n : Text) (i : Inclusion) (max : ℤ)
    → match_dots n (separator i ++ integer_text max)
      ≡ some (record { inclusion = i; min = pos (number_of_digits n); max = pos (pos_part max) })
unfolding match_dots take_inclusion
match_dots-separator n inclusive max = rw (number-take_digits-integer_text max)
match_dots-separator n exclusive max =
    rw (take_inclusion-integer_text max) (rw (number-take_digits-integer_text max))

begins_after_digits : (i : Inclusion) (t : Text) → begins_with_digit (separator i ++ t) ≡ false
begins_after_digits inclusive t = refl
begins_after_digits exclusive t = refl

-- A match at the front of a text is the leftmost one.
match_range_cons :
    (c : ℕ) (s : Text) (r : IntegerRange)
    → match_here (c ∷ s) ≡ some r
    → match_range (c ∷ s) ≡ some r
unfolding match_range
match_range_cons c s r h = ground arith

match_range_of_here : (s : Text) (r : IntegerRange) → match_here s ≡ some r → match_range s ≡ some r
unfolding match_dots take_digits
match_range_of_here [] r h = cc
match_range_of_here (c ∷ s) r h = match_range_cons c s r h

match_dots_other : (n s : Text) (a : ℕ) → (a == b'.') ≡ false → match_dots n (a ∷ s) ≡ none
unfolding match_dots
match_dots_other n [] a e = refl
match_dots_other n (b ∷ s) a e = ground arith

match_range_digits :
    (a : ℕ) (i : Inclusion) (max : ℤ)
    → match_range (decimal a ++ (separator i ++ integer_text max))
      ≡ some (record { inclusion = i; min = pos a; max = pos (pos_part max) })
match_range_digits a i max = match_range_of_here _ _ (
    ap (λ (p : Text × Text). match_dots p.0 p.1)
      (take_digits-append (decimal a) (separator i ++ integer_text max) (decimal-digits a)
        (begins_after_digits i (integer_text max)))
    ∙ match_dots-separator (decimal a) i max
    ∙ ap (λ n. some (record { inclusion = i; min = pos n; max = pos (pos_part max) }))
        (number_of_digits-decimal a))

match_range_sign : (s : Text) → match_range (b'-' ∷ s) ≡ match_range s
unfolding match_range take_digits
match_range_sign s = ground (arith, match_dots_other [] s b'-' refl)

match_range-to_text :
    (i : Inclusion) (min max : ℤ)
    → match_range (integer_text min ++ (separator i ++ integer_text max))
      ≡ some (record { inclusion = i; min = pos (abs min); max = pos (pos_part max) })
match_range-to_text i (pos n) max =
    match_range_digits n i max
    ∙ ap (λ k. some (record { inclusion = i; min = pos k; max = pos (pos_part max) })) (omega arith)
match_range-to_text i (negsuc n) max =
    match_range_sign (decimal (n + 1) ++ (separator i ++ integer_text max))
    ∙ match_range_digits (n + 1) i max
    ∙ ap (λ k. some (record { inclusion = i; min = pos k; max = pos (pos_part max) })) (omega arith)

-- A bound that JavaScript holds exactly and prints with all its digits: a safe integer.
abbrev pub IsSafe : ℤ → Type 0
IsSafe z = abs z < 9007199254740992

-- The text of a range whose bounds are safe integers is read back, with the same inclusion. The minimum
-- that is read has lost its sign, and a negative maximum is read as 0.
pub from-to_text :
    (r : IntegerRange)
    → IsSafe r.min
    → IsSafe r.max
    → from (text (to_text r))
      ≡ ok (record { inclusion = r.inclusion; min = pos (abs r.min); max = pos (pos_part r.max) })
unfolding from to_text
from-to_text r min max = ground (arith, match_range-to_text r.inclusion r.min r.max)
