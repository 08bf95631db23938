-- ===== src/Reflection/Params/Typing/Conversions.antt =====
-- What the conversions of a single argument return, and those of the arguments of one type.
use midnight_js.Prelude.{
  ℕ, ◌+◌, Bool, true, false, not, Option, none, some, List, [], ◌∷◌, ◌==◌, ==_iff, ◌≡◌, refl, ◌⊎◌,
  inl, if◌then◌else◌, length, Text, Result, ok, err, throw_if, map, arith, Returns, returns, throws,
  ◌⟫◌, anything, if-Returns,
}
use midnight_js.Reflection.{
  Value, undefined, array, Values, end, item, no_properties, bigint_keyword, string_keyword,
  boolean_keyword, cannot_convert_to_object, Failure, Host, text_of, is_object,
}
use midnight_js.Reflection.BigInt.{string_to_bigint}
use midnight_js.Platform.Hex.{ParseError}
use midnight_js.Prelude.Int.{ℤ}
use midnight_js.Hex.{ParsedHexString}
use midnight_js.Reflection.Params.{
  Argument, Slot, transform_from, transform_params, fill, array_argument, member_argument,
  to_boolean, without_quotes, to_bigint, after_argument, read_bigint, unquote_text, to_bytes,
  decoded_bytes, parsed, elements_of, first_value, true_or_false,
}
use midnight_js.Reflection.Params.Typing.{AllHave, IsBytes, HasType}
use midnight_js.Reflection.Objects.{Updated, set_property-Updated}

-- An argument is undefined only below the top.
abbrev pub Presented : Bool → Argument → Type 0
Presented quoted arg = (quoted ≡ true) ⊎ ((s : Text) × (arg ≡ some s))

abbrev pub AllPresented : Bool → List Argument → Type 0
AllPresented quoted [] = Unit
AllPresented quoted (a ∷ args) = Presented quoted a × AllPresented quoted args

pub present : (vs : List Argument) → AllPresented true vs
present [] = tt
present (v ∷ vs) = (inl refl, present vs)

pub to_bigint-HasType : (arg : Argument) → Returns (HasType bigint_keyword) (to_bigint arg)
unfolding HasType
to_bigint-HasType none = throws
to_bigint-HasType (some s) = read (some s) (string_to_bigint s)
  where
    read : (arg : Argument) (o : Option ℤ) → Returns (HasType bigint_keyword) (read_bigint arg o)
    read arg (some z) = returns (z, refl)
    read arg none = throws

pub unquote_text-HasType :
    (quoted : Bool) (arg : Argument)
    → Presented quoted arg
    → Returns (HasType string_keyword) (unquote_text quoted arg)
unfolding HasType
unquote_text-HasType true (some s) h = returns (without_quotes s, refl)
unquote_text-HasType true none h = throws
unquote_text-HasType false (some s) h = returns (s, refl)
unquote_text-HasType false none h = ground arith

pub to_boolean-HasType : (arg : Argument) → Returns (HasType boolean_keyword) (to_boolean arg)
unfolding HasType to_boolean
to_boolean-HasType arg =
    if-Returns (true_or_false (text_of arg)) (λ _. returns (_, refl)) (λ _. throws)

pub decoded_bytes-IsBytes :
    (arg : Argument) (r : Result ParseError ParsedHexString) → Returns IsBytes (decoded_bytes arg r)
decoded_bytes-IsBytes arg (ok parsed) = returns (_, refl)
decoded_bytes-IsBytes arg (err e) = throws

pub to_bytes-IsBytes : (quoted : Bool) (arg : Argument) → Returns IsBytes (to_bytes quoted arg)
to_bytes-IsBytes true (some s) = decoded_bytes-IsBytes _ _
to_bytes-IsBytes true none = throws
to_bytes-IsBytes false (some s) = decoded_bytes-IsBytes _ _
to_bytes-IsBytes false none = decoded_bytes-IsBytes _ _

-- A step of the loop.
module _ {P : Value → Type 0} {Q R : Values → Type 0} where
  pub after_argument-Returns :
      (k : (v : Value) (vs : Values) → P v → Q vs → R (item v vs)) (idx : ℕ) (a : Argument)
      (name : Text) {r : Result Failure Value} {rest : Result Failure Values}
      → Returns P r
      → Returns Q rest
      → Returns R (after_argument idx a name r rest)
  after_argument-Returns k _ _ _ (returns p) rest = rest ⟫ λ vs q. returns (k _ vs p q)
  after_argument-Returns k _ _ _ throws rest = throws

-- The loop over the arguments of one type.
pub transform_from-fill :
    (P : Value → Type 0) (slot : Slot)
    → ((a : Argument) → Returns P (slot.convert a))
    → (idx : ℕ) (args : List Argument) (vs : List Value)
    → Returns (AllHave P) (transform_from idx args (fill vs slot))
unfolding transform_from fill AllHave
transform_from-fill P slot sound idx [] vs = returns tt
transform_from-fill P slot sound idx (a ∷ args) [] = returns tt
transform_from-fill P slot sound idx (a ∷ args) (v ∷ vs) =
    after_argument-Returns {R = AllHave P} (λ _ _ p q. (p, q)) _ _ _ (sound a)
      (transform_from-fill P slot sound (idx + 1) args vs)

module _ {P : Values → Type 0} where
  pub transform_params-Returns :
      (args : List Argument) (slots : List Slot)
      → (length args ≡ length slots → Returns P (transform_from 0 args slots))
      → Returns P (transform_params args slots)
  unfolding transform_params
  transform_params-Returns args slots k =
      if-Returns (length args == length slots) (λ h. k ((==_iff (length args) (length slots)).0 h))
        (λ _. throws)

  pub array_argument-Returns :
      (host : Host) (arg : Argument) (slots : List Value → List Slot)
      → ((vs : List Value)
          → Returns P (transform_params (map (λ e. host.stringify e) vs) (slots vs)))
      → Returns
          (λ v. (vs : Values) × (v ≡ array vs no_properties) × P vs)
          (array_argument host arg slots)
  unfolding array_argument
  array_argument-Returns host arg slots k = anything (parsed host arg) ⟫ λ v _.
      anything (elements_of arg v) ⟫ λ vs _. k vs ⟫ λ out p. returns (out, refl, p)

module _ {P : Value → Type 0} (slot : Slot)
    (sound : (a : Argument) → Returns P (slot.convert a)) where
  pub one_argument-Returns :
      (a : Argument) → Returns (λ vs. P (first_value vs)) (transform_params (a ∷ []) (slot ∷ []))
  unfolding transform_from
  one_argument-Returns a = transform_params-Returns (a ∷ []) (slot ∷ []) λ _.
      after_argument-Returns {R = λ vs. P (first_value vs)} (λ _ _ p _. p) _ _ _ (sound a)
        (anything (ok end))

  pub member_argument-Returns :
      (host : Host) (key : Text) (source : Value)
      → is_object source ≡ true
      → Returns
          (λ v. (w : Value) × P w × Updated key w source v)
          (member_argument host key slot source)
  unfolding member_argument
  member_argument-Returns host key source h = set_property-Updated key source h ⟫ λ v updated.
      one_argument-Returns (host.stringify v) ⟫ λ vs p.
      returns (first_value vs, p, updated (first_value vs))

pub object_or_throws :
    (source : Value) (arg : Argument)
    → Returns
        (λ _. is_object source ≡ true)
        (throw_if (not (is_object source)) (cannot_convert_to_object arg))
object_or_throws source arg = go (is_object source) refl
  where
    go :
        (b : Bool)
        → is_object source ≡ b
        → Returns (λ _. is_object source ≡ true) (throw_if (not b) (cannot_convert_to_object arg))
    go true h = returns h
    go false h = throws

pub reference_Returns :
    (b quoted : Bool) (arg : Argument)
    → Returns
        (λ v. if b then IsBytes v else (v ≡ undefined))
        (if b then to_bytes quoted arg else ok undefined)
reference_Returns true quoted arg = to_bytes-IsBytes quoted arg
reference_Returns false quoted arg = returns refl
