-- ===== src/Reflection/Params/Faithful/Reads.antt =====
-- `transform` of compiledContractReflection.ts on the texts that JSON5 writes.
use midnight_js.Prelude.{
  ℕ, suc, ◌+◌, ◌≡◌, refl, sym, ap, ◌∙◌, Bool, true, false, none, some, List, [], ◌∷◌, ◌++◌, map,
  arith, if◌then◌else◌, ==_iff, length, is_empty, all, All, Text, codes, text_eq, ok,
}
use midnight_js.Prelude.Int.{ℤ}
use midnight_js.Platform.IntegerRange.{integer_text}
use midnight_js.Reflection.{
  Value, bigint, boolean, bytes, array, Values, end, item, no_properties, Properties, TypeNode,
  number_keyword, bigint_keyword, string_keyword, boolean_keyword, other_kind, array_type,
  tuple_type, type_literal, type_reference, TypeNodes, no_types, types, Members, no_members, member,
  Host, get_property, set_property, items, type_node_name,
}
use midnight_js.Reflection.BigInt.{string_to_bigint}
use midnight_js.Reflection.BigInt.RoundTrip.{string_to_bigint-integer_text}
use midnight_js.Reflection.Params.{
  Argument, Slot, transform_from, transform_params, fill, array_argument, member_argument,
  transform, slots_of, transform_members, to_boolean, without_quotes, to_bigint, read_bigint,
  to_bytes, parsed, true_or_false, starts_with, ends_with,
}
use midnight_js.Reflection.Params.Faithful.{
  ReadsEach, no_quote, single_quoted, IsJson5, Reads, ReadsAll, ReadsMembers,
}
use midnight_js.Hex.{to_hex}
use midnight_js.Hex.Digits.{is_hex_digit}
use midnight_js.Hex.Accepts.{all-IsBytes}
use midnight_js.Hex.RoundTrip.{IsByte, from_hex-to_hex, to_hex-IsBytes}
use midnight_js.Platform.Hex.Accepts.{parsed_of_IsBytes}
use mathlib.Core.List.{append-nil}

without_quotes-append :
    (s t : Text) → all no_quote s ≡ true → without_quotes (s ++ t) ≡ s ++ without_quotes t
unfolding without_quotes
without_quotes-append [] t h = refl
without_quotes-append (c ∷ s) t h = ground (arith, without_quotes-append s t)

without_quotes-single_quoted :
    (s : Text) → all no_quote s ≡ true → without_quotes (single_quoted s) ≡ s
unfolding without_quotes
without_quotes-single_quoted s h = without_quotes-append s (39 ∷ []) h ∙ append-nil s

to_bigint-integer_text : (z : ℤ) → to_bigint (some (integer_text z)) ≡ ok (bigint z)
to_bigint-integer_text z =
    ap (λ o. read_bigint (some (integer_text z)) o)
      (ap (λ t. string_to_bigint t) (sym (append-nil (integer_text z)))
        ∙ string_to_bigint-integer_text z [] [] refl refl)

to_boolean-codes :
    (b : Bool) → to_boolean (some (if b then codes "true" else codes "false")) ≡ ok (boolean b)
unfolding to_boolean true_or_false starts_with ends_with text_eq
to_boolean-codes true = refl
to_boolean-codes false = refl

no_quote-hex : (s : Text) → all is_hex_digit s ≡ true → all no_quote s ≡ true
unfolding is_hex_digit
no_quote-hex [] h = refl
no_quote-hex (c ∷ s) h = ground (arith, no_quote-hex s)

to_bytes-single_quoted :
    (bs : List ℕ)
    → All IsByte bs
    → is_empty bs ≡ false
    → to_bytes true (some (single_quoted (to_hex bs))) ≡ ok (bytes bs no_properties)
unfolding to_hex
to_bytes-single_quoted bs each some_byte =
    let hex = to_hex-IsBytes bs each in
    rw
      (without_quotes-single_quoted (to_hex bs)
        (no_quote-hex (to_hex bs) (all-IsBytes (to_hex bs) hex)))
      (rw (parsed_of_IsBytes (to_hex bs) hex (nonempty bs some_byte))
        (rw (from_hex-to_hex bs each) refl))
  where
    nonempty : (ds : List ℕ) → is_empty ds ≡ false → is_empty (to_hex ds) ≡ false
    nonempty [] h = h
    nonempty (d ∷ ds) h = refl

module _ (host : Host) where
  transform_from-each :
      (R : Value → Value → Type 0) (slot : Slot)
      → ((v w : Value) → R v w → slot.convert (host.stringify v) ≡ ok w)
      → (idx : ℕ) (vs ws : Values) → ReadsEach R vs ws
      → transform_from idx (map (λ e. host.stringify e) (items vs)) (fill (items vs) slot) ≡ ok ws
  unfolding transform_from fill items ReadsEach
  transform_from-each R slot k idx end end h = refl
  transform_from-each R slot k idx (item v vs) (item w ws) h =
      rw (k v w h.0) (rw (transform_from-each R slot k (idx + 1) vs ws h.1) refl)
  transform_from-each R slot k idx end (item w ws) h = absurd h
  transform_from-each R slot k idx (item v vs) end h = absurd h

  length-fill :
      (slot : Slot) (vs : List Value)
      → length (map (λ e. host.stringify e) vs) ≡ length (fill vs slot)
  unfolding fill
  length-fill slot [] = refl
  length-fill slot (v ∷ vs) = ap suc (length-fill slot vs)

  transform_params-ok :
      (args : List Argument) (slots : List Slot) {ws : Values}
      → length args ≡ length slots
      → transform_from 0 args slots ≡ ok ws
      → transform_params args slots ≡ ok ws
  unfolding transform_params
  transform_params-ok args slots same h = rw ((==_iff (length args) (length slots)).1 same) h

  array_argument-ok :
      (v : Value) (vs : Values) (ps : Properties) (ws : Values) (slots : List Value → List Slot)
      → v ≡ array vs ps
      → IsJson5 host v
      → transform_params (map (λ e. host.stringify e) (items vs)) (slots (items vs)) ≡ ok ws
      → array_argument host (host.stringify v) slots ≡ ok (array ws no_properties)
  unfolding array_argument
  array_argument-ok v vs ps ws slots is_array (s, written, read) h =
      rw (written, parsed) (rw read (rw is_array (rw h refl)))

  members_argument-ok :
      (key : Text) (slot : Slot) (v x y : Value)
      → get_property key v ≡ ok x
      → slot.convert (host.stringify x) ≡ ok y
      → member_argument host key slot v ≡ ok (set_property key y v)
  unfolding member_argument transform_from transform_params
  members_argument-ok key slot v x y got read = rw got (rw read refl)

  length-slots_of :
      (ts : TypeNodes) (vs ws : Values)
      → ReadsAll host ts vs ws
      → length (map (λ e. host.stringify e) (items vs)) ≡ length (slots_of host ts true)
  unfolding Reads items slots_of
  length-slots_of no_types end end h = refl
  length-slots_of (types t ts) (item v vs) (item w ws) h = ap suc (length-slots_of ts vs ws h.1)
  length-slots_of no_types end (item w ws) h = absurd h
  length-slots_of no_types (item v vs) ws h = absurd h
  length-slots_of (types t ts) end ws h = absurd h
  length-slots_of (types t ts) (item v vs) end h = absurd h

  mutual
    unfolding Reads transform items slots_of transform_from

    converted-Reads :
        (t : TypeNode) (v w : Value)
        → Reads host t v w
        → transform host t true (host.stringify v) ≡ ok w
    converted-Reads number_keyword v w (d, s, written, read, e) = rw written (rw read (rw e refl))
    converted-Reads bigint_keyword v w (z, written, e) =
        rw written (rw (to_bigint-integer_text z) (rw e refl))
    converted-Reads string_keyword v w (s, plain, written, e) =
        rw written (rw (without_quotes-single_quoted s plain) (rw e refl))
    converted-Reads boolean_keyword v w (b, written, e) = rw written (rw e (to_boolean-codes b))
    converted-Reads (array_type t) v w (vs, ps, ws, is_array, json, each, e) = rw e (
        array_argument-ok v vs ps ws _ is_array json (
          transform_params-ok _ _ (length-fill _ (items vs))
            (transform_from-each (Reads host t) _ (converted-Reads t) 0 vs ws each)))
    converted-Reads (tuple_type ts) v w (vs, ps, ws, is_array, json, each, e) = rw e (
        array_argument-ok v vs ps ws _ is_array json (
          transform_params-ok _ _ (length-slots_of ts vs ws each)
            (transform_from-Reads ts 0 vs ws each)))
    converted-Reads (type_literal ms) v w (is_obj, (s, written, read), each) =
        rw (written, parsed) (rw read (rw is_obj (transform_members-Reads ms v w each)))
    converted-Reads (type_reference (some name)) v w (bs, named, each, some_byte, written, e) =
        rw written (rw named (rw (to_bytes-single_quoted bs each some_byte) (rw e refl)))
    converted-Reads (type_reference none) v w h = absurd h
    converted-Reads other_kind v w h = absurd h

    transform_from-Reads :
        (ts : TypeNodes) (idx : ℕ) (vs ws : Values)
        → ReadsAll host ts vs ws
        → transform_from idx (map (λ e. host.stringify e) (items vs)) (slots_of host ts true)
          ≡ ok ws
    transform_from-Reads no_types idx end end h = refl
    transform_from-Reads (types t ts) idx (item v vs) (item w ws) (first, rest) =
        rw (converted-Reads t v w first) (rw (transform_from-Reads ts (idx + 1) vs ws rest) refl)
    transform_from-Reads no_types idx end (item w ws) h = absurd h
    transform_from-Reads no_types idx (item v vs) ws h = absurd h
    transform_from-Reads (types t ts) idx end ws h = absurd h
    transform_from-Reads (types t ts) idx (item v vs) end h = absurd h

    transform_members-Reads :
        (ms : Members) (v w : Value) → ReadsMembers host ms v w → transform_members host ms v ≡ ok w
    transform_members-Reads no_members v w h = ap ok (sym h)
    transform_members-Reads (member key t ms) v w (x, y, got, first, rest) =
        rw
          (members_argument-ok key
            (record { name = type_node_name t; convert = λ a. transform host t true a }) v x y got
            (converted-Reads t x y first))
          (transform_members-Reads ms (set_property key y v) w rest)

-- An element or a property becomes, at its declared type, what the type reads in it. JSON5's text of
-- it is read as a number, as an integer, as a string in single quotes without others, as a boolean
-- or as bytes in hex, and where JSON5 reads the text back, as an array, a tuple or an object literal
-- of these.
pub transform-Reads :
    (host : Host) (t : TypeNode) (v w : Value)
    → Reads host t v w
    → transform host t true (host.stringify v) ≡ ok w
transform-Reads host t v w h = converted-Reads host t v w h
