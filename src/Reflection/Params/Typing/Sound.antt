-- ===== src/Reflection/Params/Typing/Sound.antt =====
-- `transform` of compiledContractReflection.ts gives values of the declared type.
use midnight_js.Prelude.{
  ℕ, ◌+◌, Bool, true, false, none, some, List, [], ◌∷◌, ◌≡◌, refl, subst, sym, ◌∙◌, inl, inr,
  length, Text, codes, text_eq, map, arith, Returns, returns, ◌⟫◌, weaken, anything,
}
use midnight_js.Reflection.{
  Value, TypeNode, number_keyword, bigint_keyword, string_keyword, boolean_keyword, other_kind,
  array_type, tuple_type, type_literal, type_reference, TypeNodes, no_types, types, Members,
  no_members, member, Host, is_object,
}
use midnight_js.Reflection.Params.{
  Argument, transform_from, transform_params, transform, slots_of, transform_members, parsed,
}
use midnight_js.Reflection.Params.Typing.{
  property_of, HasType, HaveTypes, HasMembers, Fresh, IsSupported, AllSupported, MembersSupported,
}
use midnight_js.Reflection.Objects.{if-same, if-different}
use midnight_js.Reflection.Params.Typing.Conversions.{
  Presented, AllPresented, present, to_bigint-HasType, unquote_text-HasType, to_boolean-HasType,
  after_argument-Returns, transform_from-fill, transform_params-Returns, array_argument-Returns,
  member_argument-Returns, object_or_throws, reference_Returns,
}

-- Properties that no member names are as in `source`.
abbrev Kept : Members → Value → Value → Type 0
Kept ms source v = (j : Text) → Fresh j ms → property_of j v ≡ property_of j source

mutual
  unfolding transform HasType transform_from IsSupported

  transform-HasType :
      (host : Host) (t : TypeNode) (quoted : Bool) (arg : Argument)
      → IsSupported t
      → Presented quoted arg
      → Returns (HasType t) (transform host t quoted arg)
  transform-HasType host number_keyword quoted none w h = returns (_, refl)
  transform-HasType host number_keyword quoted (some s) w h = returns (_, refl)
  transform-HasType host bigint_keyword quoted arg w h = to_bigint-HasType arg
  transform-HasType host string_keyword quoted arg w h = unquote_text-HasType quoted arg h
  transform-HasType host boolean_keyword quoted arg w h = to_boolean-HasType arg
  transform-HasType host (array_type t) quoted arg w h = array_argument-Returns host arg _ λ vs.
      transform_params-Returns _ _ λ _.
        transform_from-fill (HasType t) _ (λ a. transform-HasType host t true a w (inl refl)) 0 _ vs
  transform-HasType host (tuple_type ts) quoted arg w h = array_argument-Returns host arg _ λ vs.
      transform_params-Returns _ _
        λ same. transform_from-HaveTypes host ts true 0 _ w (present _) same
  transform-HasType host (type_literal ms) quoted arg w h = anything (parsed host arg) ⟫ λ source _.
      object_or_throws source arg ⟫ λ _ o.
      weaken (λ v p. (p.0, p.1)) (transform_members-HasMembers host ms source w o)
  transform-HasType host (type_reference (some name)) quoted arg w h =
      weaken (λ v p. (w, rw w at p))
        (reference_Returns (text_eq name (codes "Uint8Array")) quoted arg)
  transform-HasType host (type_reference none) quoted arg w h = absurd w
  transform-HasType host other_kind quoted arg w h = absurd w

  pub transform_from-HaveTypes :
      (host : Host) (ts : TypeNodes) (quoted : Bool) (idx : ℕ) (args : List Argument)
      → AllSupported ts
      → AllPresented quoted args
      → length args ≡ length (slots_of host ts quoted)
      → Returns (HaveTypes ts) (transform_from idx args (slots_of host ts quoted))
  transform_from-HaveTypes host no_types quoted idx [] w h same = returns tt
  transform_from-HaveTypes host no_types quoted idx (a ∷ args) w h same = ground arith
  transform_from-HaveTypes host (types t ts) quoted idx [] w h same = ground arith
  transform_from-HaveTypes host (types t ts) quoted idx (a ∷ args) w h same =
      after_argument-Returns (λ _ _ p q. (p, q)) _ _ _ (transform-HasType host t quoted a w.0 h.0)
        (transform_from-HaveTypes host ts quoted (idx + 1) args w.1 h.1 (omega (arith, same)))

  transform_members-HasMembers :
      (host : Host) (ms : Members) (source : Value)
      → MembersSupported ms
      → is_object source ≡ true
      → Returns
          (λ v. (is_object v ≡ true) × HasMembers ms v × Kept ms source v)
          (transform_members host ms source)
  transform_members-HasMembers host no_members source w o = returns (o, tt, λ j _. refl)
  transform_members-HasMembers host (member key t ms) source w o =
      member_argument-Returns _ (λ a. transform-HasType host t true a w.1 (inl refl)) host key
        source o
      ⟫ λ next (x, p, updated).
          weaken
            (λ v (o', m, kept). (
              o',
              (subst (HasType t) (sym (kept key w.0 ∙ updated.1 key ∙ if-same key x _)) p, m),
              λ j (differ, fresh). kept j fresh ∙ updated.1 j ∙ if-different key j differ _ _,
            ))
            (transform_members-HasMembers host ms next w.2 updated.0)

pub transform_params-HaveTypes :
    (host : Host) (ts : TypeNodes) (args : List Text)
    → AllSupported ts
    → Returns (HaveTypes ts) (transform_params (map (λ s. some s) args) (slots_of host ts false))
transform_params-HaveTypes host ts args w =
    transform_params-Returns _ _
      λ same. transform_from-HaveTypes host ts false 0 _ w (given args) same
  where
    given : (ss : List Text) → AllPresented false (map (λ s. some s) ss)
    given [] = tt
    given (s ∷ ss) = (inr (s, refl), given ss)
