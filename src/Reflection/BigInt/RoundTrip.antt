-- ===== src/Reflection/BigInt/RoundTrip.antt =====
-- `BigInt(s)` reads back the text of an integer, as compiledContractReflection.ts calls it.
use midnight_js.Prelude.{
  ℕ, ◌+◌, ◌≡◌, refl, ap, ◌∙◌, Bool, true, false, not, some, [], ◌∷◌, ◌++◌, arith, is_empty, all,
  Text,
}
use midnight_js.Prelude.Int.{ℤ, pos, negsuc}
use midnight_js.Prelude.Decimal.{
  is_digit, decimal, number_of_digits, number_of_digits-decimal, decimal-digits, is_empty-decimal,
}
use midnight_js.Platform.IntegerRange.{integer_text}
use midnight_js.Reflection.BigInt.{
  is_space, trim_start, trim_end, negated, unsigned, signed, integer_literal, string_to_bigint,
}

abbrev no_space : ℕ → Bool
no_space c = not (is_space c)

trim_start-append :
    (spaces s : Text)
    → all is_space spaces ≡ true
    → is_empty s ≡ false
    → all no_space s ≡ true
    → (rest : Text) → trim_start (spaces ++ (s ++ rest)) ≡ s ++ rest
unfolding trim_start
trim_start-append [] [] h e k rest = ground arith
trim_start-append [] (c ∷ s) h e k rest = grind arith
trim_start-append (c ∷ spaces) s h e k rest =
    grind (arith, trim_start-append spaces s (grind arith) e k rest)

trim_end-spaces : (spaces : Text) → all is_space spaces ≡ true → trim_end spaces ≡ []
unfolding trim_end
trim_end-spaces [] h = refl
trim_end-spaces (c ∷ spaces) h = grind (arith, trim_end-spaces spaces)

trim_end-append :
    (s spaces : Text)
    → all no_space s ≡ true
    → all is_space spaces ≡ true
    → trim_end (s ++ spaces) ≡ s
unfolding trim_end
trim_end-append [] spaces k h = trim_end-spaces spaces h
trim_end-append (c ∷ s) spaces k h = grind (arith, trim_end-append s spaces (grind arith) h)

digits-no_space : (s : Text) → all is_digit s ≡ true → all no_space s ≡ true
unfolding is_space
digits-no_space [] h = refl
digits-no_space (c ∷ s) h = ground (arith, digits-no_space s)

unsigned-digits :
    (s : Text) → is_empty s ≡ false → all is_digit s ≡ true → unsigned s ≡ some (number_of_digits s)
unfolding unsigned
unsigned-digits s e h = grind arith

signed-digits :
    (s : Text)
    → is_empty s ≡ false
    → all is_digit s ≡ true
    → signed s ≡ some (pos (number_of_digits s))
unfolding signed
signed-digits [] e h = ground arith
signed-digits (c ∷ s) e h = rw (unsigned-digits (c ∷ s) e h) (ground arith)

integer_literal-digits :
    (s : Text)
    → is_empty s ≡ false
    → all is_digit s ≡ true
    → integer_literal s ≡ some (pos (number_of_digits s))
unfolding integer_literal
integer_literal-digits [] e h = ground arith
integer_literal-digits (c ∷ []) e h = signed-digits (c ∷ []) e h
integer_literal-digits (c ∷ x ∷ s) e h = rw (signed-digits (c ∷ x ∷ s) e h) (ground arith)

integer_literal-minus :
    (s : Text)
    → is_empty s ≡ false
    → all is_digit s ≡ true
    → integer_literal (b'-' ∷ s) ≡ some (negated (number_of_digits s))
unfolding integer_literal signed
integer_literal-minus [] e h = ground arith
integer_literal-minus (x ∷ s) e h = rw (unsigned-digits (x ∷ s) e h) refl

integer_text-facts :
    (z : ℤ)
    → (is_empty (integer_text z) ≡ false)
      × (all no_space (integer_text z) ≡ true)
      × (integer_literal (integer_text z) ≡ some z)
unfolding is_space
integer_text-facts (pos n) = (
  is_empty-decimal n,
  digits-no_space (decimal n) (decimal-digits n),
  integer_literal-digits (decimal n) (is_empty-decimal n) (decimal-digits n)
      ∙ ap (λ m. some (pos m)) (number_of_digits-decimal n),
)
integer_text-facts (negsuc n) = (
  refl,
  digits-no_space (decimal (n + 1)) (decimal-digits (n + 1)),
  integer_literal-minus (decimal (n + 1)) (is_empty-decimal (n + 1)) (decimal-digits (n + 1))
      ∙ ap (λ m. some (negated m)) (number_of_digits-decimal (n + 1))
      ∙ ground arith,
)

-- The text of an integer, with white space around it, is read as that integer.
pub string_to_bigint-integer_text :
    (z : ℤ) (before after : Text)
    → all is_space before ≡ true
    → all is_space after ≡ true
    → string_to_bigint (before ++ (integer_text z ++ after)) ≡ some z
unfolding string_to_bigint
string_to_bigint-integer_text z before after h k =
    let (nonempty, dense, literal) = integer_text-facts z in
    rw (trim_start-append before (integer_text z) h nonempty dense after)
      (rw (trim_end-append (integer_text z) after dense k) literal)
