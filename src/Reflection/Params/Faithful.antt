-- ===== src/Reflection/Params/Faithful.antt =====
-- JSON5 values as arguments of compiledContractReflection.ts: what each declared type makes of them.
pub mod Reads
use midnight_js.Prelude.{
  ℕ, zero, suc, ◌+◌, ◌-◌, ◌*◌, ◌/◌, ◌%◌, ◌≤◌, ◌<◌, ◌≡◌, refl, sym, ap, subst, ◌∙◌, ◌≢◌, ◌↔◌, ◌⊎◌,
  inl, inr, Bool, true, false, not, ◌&&◌, ◌||◌, Option, none, some, List, [], ◌∷◌, ◌++◌, map, arith,
  ltb, leb, ◌==◌, if◌then◌else◌, ==_iff, Bool-cases, Option-cases, length, get_elem?, is_empty, any,
  all, length-append, All, Text, codes, text_eq, text_eq_iff, text_eq_refl, Result, ok, err, ◌>>=◌,
  ◌>>◌, throw_if, Result-cases, Returns, returns, throws, ◌⟫◌, weaken, of_ok, if-Returns, anything,
  Entries, map_get, map_set, map_delete, keys, map_get-map_set, map_get-map_delete, update,
}
use midnight_js.Prelude.Int.{ℤ}
use midnight_js.Hex.{to_hex}
use midnight_js.Hex.RoundTrip.{IsByte}
use midnight_js.Platform.IntegerRange.{integer_text}
use midnight_js.Reflection.{
  Double, Value, undefined, null, number, bigint, string, boolean, bytes, array, object, Values,
  end, item, no_properties, Properties, property, TypeNode, number_keyword, bigint_keyword,
  string_keyword, boolean_keyword, other_kind, array_type, tuple_type, type_literal, type_reference,
  TypeNodes, no_types, types, Members, no_members, member, Failure, Host, get_property,
  set_property, is_object,
}

unfoldable pub ReadsEach : (Value → Value → Type 0) → Values → Values → Type 0
ReadsEach R end end = Unit
ReadsEach R (item v vs) (item w ws) = R v w × ReadsEach R vs ws
ReadsEach R _ _ = ⊥

abbrev pub no_quote : ℕ → Bool
no_quote c = not (c == 39)

-- A text in the single quotes that JSON5 writes.
abbrev pub single_quoted : Text → Text
single_quoted s = 39 ∷ (s ++ (39 ∷ []))

module _ (host : Host) where
  -- JSON5 writes the value, and reads it back.
  abbrev pub IsJson5 : Value → Type 0
  IsJson5 v = (s : Text) × (host.stringify v ≡ some s) × (host.parse s ≡ ok v)

  -- `Reads t v w`: the element or property `v`, of type `t`, becomes `w`. A number must be read back
  -- from its text, an integer be written as its digits, and bytes be a
  -- string of hex digits.
  unfoldable mutual
    pub Reads : TypeNode → Value → Value → Type 0
    Reads number_keyword v w =
        (d : Double) × (s : Text) × (host.stringify v ≡ some s)
        × (host.number s ≡ d)
        × (w ≡ number d)
    Reads bigint_keyword v w = (z : ℤ) × (host.stringify v ≡ some (integer_text z)) × (w ≡ bigint z)
    Reads string_keyword v w =
        (s : Text) × (all no_quote s ≡ true)
        × (host.stringify v ≡ some (single_quoted s))
        × (w ≡ string s)
    Reads boolean_keyword v w =
        (b : Bool) × (host.stringify v ≡ some (if b then codes "true" else codes "false"))
        × (w ≡ boolean b)
    Reads (array_type t) v w =
        (vs : Values) × (ps : Properties) × (ws : Values) × (v ≡ array vs ps)
        × IsJson5 v
        × ReadsEach (Reads t) vs ws
        × (w ≡ array ws no_properties)
    Reads (tuple_type ts) v w =
        (vs : Values) × (ps : Properties) × (ws : Values) × (v ≡ array vs ps)
        × IsJson5 v
        × ReadsAll ts vs ws
        × (w ≡ array ws no_properties)
    Reads (type_literal ms) v w = (is_object v ≡ true) × IsJson5 v × ReadsMembers ms v w
    Reads (type_reference (some name)) v w =
        (bs : List ℕ) × (text_eq name (codes "Uint8Array") ≡ true)
        × All IsByte bs
        × (is_empty bs ≡ false)
        × (host.stringify v ≡ some (single_quoted (to_hex bs)))
        × (w ≡ bytes bs no_properties)
    Reads (type_reference none) v w = ⊥
    Reads other_kind v w = ⊥

    -- One value for each type of a tuple.
    pub ReadsAll : TypeNodes → Values → Values → Type 0
    ReadsAll no_types end end = Unit
    ReadsAll (types t ts) (item v vs) (item w ws) = Reads t v w × ReadsAll ts vs ws
    ReadsAll _ _ _ = ⊥

    -- The members of a literal replace the properties of `v` one after the other.
    pub ReadsMembers : Members → Value → Value → Type 0
    ReadsMembers no_members v w = w ≡ v
    ReadsMembers (member key t ms) v w =
        (x y : Value) × (get_property key v ≡ ok x)
        × Reads t x y
        × ReadsMembers ms (set_property key y v) w
