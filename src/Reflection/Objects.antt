-- ===== src/Reflection/Objects.antt =====
-- Reading and setting the properties of an object, as compiledContractReflection.ts does.
use midnight_js.Prelude.{
  true, false, ◌≡◌, refl, if◌then◌else◌, Text, text_eq, text_eq_iff, text_eq_refl, arith, Returns,
  returns, throws,
}
use midnight_js.Reflection.{
  Value, undefined, null, number, bigint, string, boolean, bytes, array, object, no_properties,
  Properties, property, is_object, get_property, set_property, lookup, assign,
}
use midnight_js.Reflection.Params.Typing.{property_of}

pub lookup-assign :
    (key j : Text) (v : Value) (ps : Properties)
    → lookup j (assign key v ps) ≡ (if text_eq key j then v else lookup j ps)
unfolding lookup assign
lookup-assign key j v no_properties = refl
lookup-assign key j v (property i w ps) =
    ground (arith, text_eq_iff key j, text_eq_iff i key, text_eq_iff i j, lookup-assign key j v ps)

-- The property `key` of an object is `w` afterwards, and its other properties are as in `source`.
abbrev pub Updated : Text → Value → Value → Value → Type 0
Updated key w source v =
    (is_object v ≡ true)
    × ((j : Text) → property_of j v ≡ (if text_eq key j then w else property_of j source))

pub set_property-Updated :
    (key : Text) (source : Value)
    → is_object source ≡ true
    → Returns
        (λ _. (w : Value) → Updated key w source (set_property key w source))
        (get_property key source)
unfolding get_property set_property
set_property-Updated key (object ps) h = returns (λ w. (refl, λ j. lookup-assign key j w ps))
set_property-Updated key (array vs ps) h = returns (λ w. (refl, λ j. lookup-assign key j w ps))
set_property-Updated key (bytes bs ps) h = returns (λ w. (refl, λ j. lookup-assign key j w ps))
set_property-Updated key null h = throws
set_property-Updated key undefined h = throws
set_property-Updated key (number d) h = ground arith
set_property-Updated key (bigint z) h = ground arith
set_property-Updated key (string s) h = ground arith
set_property-Updated key (boolean b) h = ground arith

module _ {A : Type 0} where
  pub if-same : (key : Text) (x y : A) → (if text_eq key key then x else y) ≡ x
  if-same key x y = rw (text_eq_refl key) refl

  pub if-different :
      (key j : Text) → text_eq j key ≡ false → (x y : A) → (if text_eq key j then x else y) ≡ y
  if-different key j h x y = grind (arith, text_eq_iff key j, text_eq_iff j key)
