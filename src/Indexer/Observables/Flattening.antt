-- ===== src/Indexer/Observables/Flattening.antt =====
-- Streams of lists that are chained, as lists.
use midnight_js.Prelude.{
  ◌≡◌, refl, ap, ◌∙◌, Bool, true, false, none, List, [], ◌∷◌, ◌++◌, arith, ok, Result,
  if◌then◌else◌,
}
use mathlib.Core.List.{flat_map}
use midnight_js.Indexer.Streams.{
  Stream, pending, complete, failed, next, prepend, from_list, keep_if, map_try, concat_map, join,
  failure,
}

-- How a list of values that the server has sent goes on: at its end, or not yet.
abbrev pub rest : {E A : Type 0} → Bool → Stream E A
rest true = complete
rest false = pending

-- The elements that pass a test.
abbrev pub select : {A : Type 0} → (A → Bool) → List A → List A
select p [] = []
select p (a ∷ as') = let kept = select p as' in if p a then a ∷ kept else kept

module _ {E A : Type 0} where
  pub failure-prepend : (as' : List A) (b : Bool) → failure {E = E} (prepend as' (rest b)) ≡ none
  unfolding failure prepend
  failure-prepend [] true = refl
  failure-prepend [] false = refl
  failure-prepend (a ∷ as') b = failure-prepend as' b

  pub keep_if-prepend :
      (p : A → Bool) (as' : List A) (b : Bool)
      → keep_if {E = E} p (prepend as' (rest b)) ≡ prepend (select p as') (rest b)
  unfolding keep_if prepend
  keep_if-prepend p [] true = refl
  keep_if-prepend p [] false = refl
  keep_if-prepend p (a ∷ as') b = ground (arith, keep_if-prepend p as' b)

  pub map_try-ok : (s : Stream E A) → map_try ok s ≡ s
  unfolding map_try
  map_try-ok pending = refl
  map_try-ok complete = refl
  map_try-ok (failed e) = refl
  map_try-ok (next a s) = ap (next a) (map_try-ok s)

  prepend-append :
      (as' bs : List A) (s : Stream E A) → prepend as' (prepend bs s) ≡ prepend (as' ++ bs) s
  unfolding prepend
  prepend-append [] bs s = refl
  prepend-append (a ∷ as') bs s = ap (next a) (prepend-append as' bs s)

module _ {E A B : Type 0} where
  join-map_try :
      (f : A → Result E B) (as' : List A) (s : Stream E A)
      → join none (map_try f (from_list as')) (map_try f s) ≡ map_try f (prepend as' s)
  unfolding join map_try prepend
  join-map_try f [] s = refl
  join-map_try f (a ∷ as') s = ground (arith, join-map_try f as' s)

module _ {E A B C : Type 0} (f : A → Stream E B) (d : C → Result E B) (g : A → List C)
    (h : (a : A) → f a ≡ map_try d (from_list (g a))) where
  -- Chained streams of decoded lists are the stream of the chained lists, decoded.
  pub concat_map-prepend :
      (as' : List A) (b : Bool)
      → concat_map f (prepend as' (rest b)) ≡ map_try d (prepend (flat_map g as') (rest b))
  unfolding concat_map prepend map_try flat_map
  concat_map-prepend [] true = refl
  concat_map-prepend [] false = refl
  concat_map-prepend (a ∷ as') b =
      rw (failure-prepend {E = E} as' b, h a, concat_map-prepend as' b)
        (join-map_try d (g a) (prepend (flat_map g as') (rest b))
          ∙ ap (map_try d) (prepend-append (g a) (flat_map g as') (rest b)))
