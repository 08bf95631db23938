-- ===== src/Prelude/Maps.antt =====
-- Maps with text keys. A JavaScript `Map` keeps its entries in the order of insertion; a store that
-- is only read and written by key is a function.
use mathlib.Core.Path.{◌≡◌, refl}
use mathlib.Core.Option.{Option, none, some}
use mathlib.Core.List.{List, [], ◌∷◌, map}
use native.Mathlib.Omega.{arith}
use midnight_js.Prelude.Tests.{if◌then◌else◌}
use midnight_js.Prelude.Texts.{Text, text_eq, text_eq_iff}

abbrev pub Entries {ℓ} : Type ℓ → Type ℓ
Entries V = List (Text × V)

module _ {ℓ} {V : Type ℓ} where
  unfoldable pub map_get : Text → Entries V → Option V
  map_get k [] = none
  map_get k ((j, v) ∷ m) = if text_eq j k then some v else map_get k m

  -- `m.set(k, v)`: an existing key keeps its place.
  unfoldable pub map_set : Text → V → Entries V → Entries V
  map_set k v [] = (k, v) ∷ []
  map_set k v ((j, w) ∷ m) =
      let rest = map_set k v m in if text_eq j k then (j, v) ∷ m else (j, w) ∷ rest

  -- `m.delete(k)`
  unfoldable pub map_delete : Text → Entries V → Entries V
  map_delete k [] = []
  map_delete k ((j, v) ∷ m) =
      let rest = map_delete k m in if text_eq j k then rest else (j, v) ∷ rest

  unfoldable pub keys : Entries V → List Text
  keys m = map (λ e. e.0) m

  pub map_get-map_set :
      (k j : Text) (v : V) (m : Entries V)
      → map_get j (map_set k v m) ≡ (if text_eq k j then some v else map_get j m)
  unfolding map_get map_set
  map_get-map_set k j v [] = refl
  map_get-map_set k j v ((i, w) ∷ m) =
      ground (arith, text_eq_iff k j, text_eq_iff i k, text_eq_iff i j, map_get-map_set k j v m)

  pub map_get-map_delete :
      (k j : Text) (m : Entries V)
      → map_get j (map_delete k m) ≡ (if text_eq k j then none else map_get j m)
  unfolding map_get map_delete
  map_get-map_delete k j [] = ground arith
  map_get-map_delete k j ((i, w) ∷ m) =
      ground (arith, text_eq_iff k j, text_eq_iff i k, text_eq_iff i j, map_get-map_delete k j m)

  -- A store as a function, and a write to it.
  abbrev pub update : (Text → Option V) → Text → V → Text → Option V
  update f k v j = if text_eq k j then some v else f j
