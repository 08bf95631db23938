-- ===== src/Reflection/Booleans.antt =====
-- Booleans on the command line, as compiledContractReflection.ts reads them.
use midnight_js.Prelude.{
  ℕ, ◌≡◌, refl, sym, ◌↔◌, ◌⊎◌, inl, inr, Bool, true, some, [], ◌∷◌, ◌++◌, arith, if◌then◌else◌,
  Bool-cases, Text, codes, text_eq, text_eq_iff, ok, err,
}
use midnight_js.Reflection.{boolean, cannot_convert_to_boolean}
use midnight_js.Reflection.Params.{starts_with, ends_with, true_or_false, to_boolean}

starts_with_iff : (p s : Text) → (starts_with p s ≡ true) ↔ ((rest : Text) × (s ≡ p ++ rest))
unfolding starts_with
starts_with_iff [] s = (λ _. (s, refl), λ _. refl)
starts_with_iff (c ∷ p) [] = ground arith
starts_with_iff (c ∷ p) (a ∷ s) =
    let ih = starts_with_iff p s in
    (
      λ h. let (rest, e) = ih.0 (grind arith) in (rest, grind arith),
      λ (rest, e). grind (arith, ih.1 (rest, grind arith)),
    )

empty_end : (p front : Text) → [] ≡ front ++ p → ends_with p [] ≡ true
unfolding ends_with
empty_end p [] e = (text_eq_iff p []).1 (sym e)
empty_end p (c ∷ front) e = ground arith

longer_end :
    (p : Text) (a : ℕ) (s : Text)
    → ((front : Text) × (s ≡ front ++ p) → ends_with p s ≡ true)
    → (front : Text) → (a ∷ s) ≡ front ++ p
    → ends_with p (a ∷ s) ≡ true
unfolding ends_with
longer_end p a s k [] e = grind (arith, (text_eq_iff p (a ∷ s)).1 (sym e))
longer_end p a s k (c ∷ front) e = ground (arith, k (front, grind arith))

ends_with_iff : (p s : Text) → (ends_with p s ≡ true) ↔ ((front : Text) × (s ≡ front ++ p))
unfolding ends_with
ends_with_iff p [] = (λ h. ([], sym ((text_eq_iff p []).0 h)), λ (front, e). empty_end p front e)
ends_with_iff p (a ∷ s) =
    let ih = ends_with_iff p s in
    (
      λ h. elim (Bool-cases (text_eq p (a ∷ s))) [
        | inl same ↦ ([], sym ((text_eq_iff p (a ∷ s)).0 same))
        | inr differ ↦ let (front, e) = ih.0 (grind arith) in (a ∷ front, grind arith)
      ],
      λ (front, e). longer_end p a s ih.1 front e,
    )

-- `s` begins with "true", or it ends with "false".
abbrev pub ReadAsBoolean : Text → Type 0
ReadAsBoolean s =
    ((rest : Text) × (s ≡ codes "true" ++ rest)) ⊎ ((front : Text) × (s ≡ front ++ codes "false"))

true_or_false_iff : (s : Text) → (true_or_false s ≡ true) ↔ ReadAsBoolean s
unfolding true_or_false
true_or_false_iff s =
    let (of_start, to_start) = starts_with_iff (codes "true") s in
    let (of_end, to_end) = ends_with_iff (codes "false") s in
    (
      λ h. elim (Bool-cases (starts_with (codes "true") s)) [
        | inl begins ↦ inl (of_start begins)
        | inr not_begins ↦ inr (of_end (grind (arith, not_begins, h)))
      ],
      elim [ inl begins ↦ grind (arith, to_start begins) | inr ends ↦ grind (arith, to_end ends) ],
    )

-- What a refusal and an acceptance say, over the two tests.
module _ (s : Text) (R : Type 0) (b : Bool) (accepts is_true : Bool) where
  decided :
      (accepts ≡ true) ↔ R
      → (is_true ≡ true) ↔ (s ≡ codes "true")
      → ((if accepts then ok (boolean is_true) else err (cannot_convert_to_boolean (some s)))
            ≡ ok (boolean b)
          ↔ (R × ((b ≡ true) ↔ (s ≡ codes "true"))))
        × ((if accepts then ok (boolean is_true) else err (cannot_convert_to_boolean (some s)))
              ≡ err (cannot_convert_to_boolean (some s))
            ↔ ¬ R)
  decided accepted whole = ground (arith, accepted, whole)

-- A text is read as a boolean exactly where it begins with "true" or ends with "false", and is
-- refused otherwise; the boolean is true exactly where the whole text is "true".
pub to_boolean_iff :
    (s : Text) (b : Bool)
    → ((to_boolean (some s) ≡ ok (boolean b))
        ↔ (ReadAsBoolean s × ((b ≡ true) ↔ (s ≡ codes "true"))))
      × ((to_boolean (some s) ≡ err (cannot_convert_to_boolean (some s))) ↔ ¬ ReadAsBoolean s)
unfolding to_boolean
to_boolean_iff s b =
    decided s (ReadAsBoolean s) b (true_or_false s) (text_eq s (codes "true")) (true_or_false_iff s)
      (text_eq_iff s (codes "true"))
