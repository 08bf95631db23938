-- ===== src/Reflection/Params/Typing.antt =====
-- The types of compiledContractReflection.ts as predicates on the values they admit.
pub mod Conversions
pub mod Sound
use midnight_js.Prelude.{
  ℕ, ◌+◌, Bool, true, false, not, Bool-cases, Option, none, some, List, [], ◌∷◌, ◌++◌, ◌==◌, ◌≡◌,
  ◌≢◌, refl, subst, sym, ap, ◌⊎◌, inl, inr, if◌then◌else◌, length, Text, codes, text_eq,
  text_eq_iff, text_eq_refl, Result, ok, err, ◌>>=◌, ◌>>◌, throw_if, map, arith, Result-cases,
}
use midnight_js.Reflection.{
  Value, undefined, null, number, bigint, string, boolean, bytes, array, object, Values, end, item,
  no_properties, Properties, property, TypeNode, number_keyword, bigint_keyword, string_keyword,
  boolean_keyword, other_kind, array_type, tuple_type, type_literal, type_reference, TypeNodes,
  no_types, types, Members, no_members, member, Failure, Host, text_of, is_object, get_property,
  set_property, type_node_name, items, lookup, assign,
}
use midnight_js.Reflection.Params.{
  Argument, Slot, transform_from, transform_params, fill, array_argument, member_argument,
  transform, slots_of, transform_members, to_boolean,
}

-- `values[key]`, undefined where it is not a property.
abbrev pub property_of : Text → Value → Value
property_of key (object ps) = lookup key ps
property_of key (array _ ps) = lookup key ps
property_of key (bytes _ ps) = lookup key ps
property_of key _ = undefined

unfoldable pub AllHave : (Value → Type 0) → Values → Type 0
AllHave P end = Unit
AllHave P (item v vs) = P v × AllHave P vs

abbrev pub IsBytes : Value → Type 0
IsBytes v = (bs : List ℕ) × (v ≡ bytes bs no_properties)

unfoldable mutual
  -- A value of a declared type, of those that are read.
  pub HasType : TypeNode → Value → Type 0
  HasType number_keyword v = (d : ℕ) × (v ≡ number d)
  HasType bigint_keyword v = (z : _) × (v ≡ bigint z)
  HasType string_keyword v = (s : Text) × (v ≡ string s)
  HasType boolean_keyword v = (b : Bool) × (v ≡ boolean b)
  HasType (array_type t) v = (vs : Values) × (v ≡ array vs no_properties) × AllHave (HasType t) vs
  HasType (tuple_type ts) v = (vs : Values) × (v ≡ array vs no_properties) × HaveTypes ts vs
  HasType (type_literal ms) v = (is_object v ≡ true) × HasMembers ms v
  HasType (type_reference (some name)) v = (text_eq name (codes "Uint8Array") ≡ true) × IsBytes v
  HasType (type_reference none) v = ⊥
  HasType other_kind v = ⊥

  -- One value for each type, in order.
  pub HaveTypes : TypeNodes → Values → Type 0
  HaveTypes no_types end = Unit
  HaveTypes no_types (item v vs) = ⊥
  HaveTypes (types t ts) end = ⊥
  HaveTypes (types t ts) (item v vs) = HasType t v × HaveTypes ts vs

  pub HasMembers : Members → Value → Type 0
  HasMembers no_members v = Unit
  HasMembers (member key t ms) v = HasType t (property_of key v) × HasMembers ms v

-- No member of the literal has this name.
abbrev pub Fresh : Text → Members → Type 0
Fresh key no_members = Unit
Fresh key (member k t ms) = (text_eq key k ≡ false) × Fresh key ms

-- The types that are read: no reference but to Uint8Array, no type of another kind, and literal types
-- whose members have different names.
unfoldable mutual
  pub IsSupported : TypeNode → Type 0
  IsSupported (array_type t) = IsSupported t
  IsSupported (tuple_type ts) = AllSupported ts
  IsSupported (type_literal ms) = MembersSupported ms
  IsSupported (type_reference (some name)) = text_eq name (codes "Uint8Array") ≡ true
  IsSupported (type_reference none) = ⊥
  IsSupported other_kind = ⊥
  IsSupported _ = Unit

  pub AllSupported : TypeNodes → Type 0
  AllSupported no_types = Unit
  AllSupported (types t ts) = IsSupported t × AllSupported ts

  pub MembersSupported : Members → Type 0
  MembersSupported no_members = Unit
  MembersSupported (member key t ms) = Fresh key ms × IsSupported t × MembersSupported ms
