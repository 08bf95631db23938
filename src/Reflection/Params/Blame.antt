-- ===== src/Reflection/Params/Blame.antt =====
-- The errors of `transformParams` in compiledContractReflection.ts.
use midnight_js.Prelude.{
  ℕ, zero, suc, ◌+◌, ◌<◌, ◌≡◌, refl, ap, ◌∙◌, ◌≢◌, ◌⊎◌, inl, inr, some, List, [], ◌∷◌, arith, ◌==◌,
  ==_iff, Bool-cases, length, get_elem?, ok, err, Result-cases,
}
use midnight_js.Reflection.{Value, Failure, invalid_number_of_arguments, failed_to_parse}
use midnight_js.Reflection.Params.{Argument, Slot, transform_from, transform_params}

-- Argument `i` is the first that its conversion refuses, and `e` names it, its type and the cause;
-- positions in the error are counted from `idx`.
abbrev pub BlamesFirst : ℕ → List Argument → List Slot → Failure → Type 0
BlamesFirst idx args slots e =
    (i : ℕ) × (a : Argument) × (slot : Slot) × (cause : Failure) × (get_elem? args i ≡ some a)
    × (get_elem? slots i ≡ some slot)
    × (slot.convert a ≡ err cause)
    × (e ≡ failed_to_parse (idx + i) a slot.name cause)
    × ((j : ℕ) (b : Argument) (before : Slot)
        → j < i
        → get_elem? args j ≡ some b
        → get_elem? slots j ≡ some before
        → (v : Value) × (before.convert b ≡ ok v))

later :
    (idx : ℕ) (a : Argument) (args : List Argument) (slot : Slot) (slots : List Slot) (e : Failure)
    (v : Value)
    → slot.convert a ≡ ok v
    → BlamesFirst (idx + 1) args slots e
    → BlamesFirst idx (a ∷ args) (slot ∷ slots) e
later idx a args slot slots e v good (i, b, s, cause, arg, type, bad, named, before) = (
  suc i,
  b,
  s,
  cause,
  arg,
  type,
  bad,
  named ∙ ap (λ n. failed_to_parse n b s.name cause) (omega arith),
  earlier,
)
  where
    earlier :
        (j : ℕ) (c : Argument) (t : Slot)
        → j < suc i
        → get_elem? (a ∷ args) j ≡ some c
        → get_elem? (slot ∷ slots) j ≡ some t
        → (w : Value) × (t.convert c ≡ ok w)
    earlier zero c t lt x y = (v, grind (arith, x, y, good))
    earlier (suc j) c t lt x y = before j c t (omega (arith, lt)) x y

transform_from-err :
    (idx : ℕ) (args : List Argument) (slots : List Slot) (e : Failure)
    → transform_from idx args slots ≡ err e
    → BlamesFirst idx args slots e
unfolding transform_from
transform_from-err idx [] slots e h = ground arith
transform_from-err idx (a ∷ args) [] e h = ground arith
transform_from-err idx (a ∷ args) (slot ∷ slots) e h = elim (Result-cases (slot.convert a)) [
  | inl (cause, bad) ↦ (
    0,
    a,
    slot,
    cause,
    refl,
    refl,
    bad,
    grind (arith, h, bad),
    λ j b s lt. absurd (omega (arith, lt)),
  )
  | inr (v, good) ↦ elim (Result-cases (transform_from (idx + 1) args slots)) [
    | inl (e', failed) ↦
        later idx a args slot slots e v good
          (transform_from-err (idx + 1) args slots e (grind (arith, h, good)))
    | inr (vs, done) ↦ absurd (grind (arith, h, good, done))
  ]
]

-- `transformParams` fails either with the two numbers where they differ, or for the first argument
-- that its type's conversion refuses: with its position, its text, the type's name and the cause.
pub transform_params-err :
    (args : List Argument) (slots : List Slot) (e : Failure)
    → transform_params args slots ≡ err e
    → ((length args ≢ length slots)
        × (e ≡ invalid_number_of_arguments (length slots) (length args)))
      ⊎ ((length args ≡ length slots) × BlamesFirst 0 args slots e)
unfolding transform_params
transform_params-err args slots e h = elim (Bool-cases (length args == length slots)) [
  | inl same ↦ inr (
    (==_iff (length args) (length slots)).0 same,
    transform_from-err 0 args slots e (rw same at h),
  )
  | inr differ ↦ inl (grind (arith, ==_iff (length args) (length slots)), grind arith)
]
