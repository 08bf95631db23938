-- ===== src/PrivateState/Level/Database.antt =====
-- What packages/level-private-state-provider/src takes from Level and superjson, and what Level's
-- documentation says of them.
use midnight_js.Prelude.{
  ◌≡◌, ◌⊎◌, false, ◌&&◌, Option, none, some, if◌then◌else◌, Text, text_eq, Result, ok, err,
}
use midnight_js.Prelude.Exec.{Exec}
use midnight_js.Prelude.Exec.Triples.{Triple}

-- A Level database: the names of the database and of the sublevel come first, then the key.
pub record Level : Type 1 where
  pub World : Type 0
  pub Error : Type 0
  pub open_level : Text → Exec Error World (Unit {0})
  pub open_sub_level : Text → Text → Exec Error World (Unit {0})
  pub get : Text → Text → Text → Exec Error World (Option Text)
  pub put : Text → Text → Text → Text → Exec Error World (Unit {0})
  pub del : Text → Text → Text → Exec Error World (Unit {0})
  pub clear : Text → Text → Exec Error World (Unit {0})
  pub close_sub_level : Text → Text → Exec Error World (Unit {0})
  pub close_level : Text → Exec Error World (Unit {0})

pub record Superjson (db : Level) (V : Type 0) : Type 0 where
  pub stringify : V → Text
  pub parse : Text → Result db.Error V

abbrev pub settle : {E A : Type 0} → Result E A → Result E (Unit {0}) → Result E A
settle r (ok u) = r
settle r (err e) = err e

-- `try { m } finally { cleanup }`: an error of the cleanup replaces the outcome.
unfoldable pub finally_do : {E S A : Type 0} → Exec E S A → Exec E S (Unit {0}) → Exec E S A
finally_do m cleanup s = let (r, s₁) = m s in let (c, s₂) = cleanup s₁ in (settle r c, s₂)

-- What the sublevels of all databases hold.
abbrev pub Contents : Type 0
Contents = Text → Text → Text → Option Text

abbrev pub written : Contents → Text → Text → Text → Option Text → Contents
written c db level key value d l k =
    if text_eq db d && (text_eq level l && text_eq key k) then value else c d l k

abbrev pub emptied : Contents → Text → Text → Contents
emptied c db level d l k = if text_eq db d && text_eq level l then none else c d l k

-- What a `clear` that was not finished leaves: some of the sublevel's entries, and all others.
pub record PartlyEmptied (c : Contents) (db level : Text) (c' : Contents) : Type 0 where
  pub within : (k : Text) → (c' db level k ≡ c db level k) ⊎ (c' db level k ≡ none)
  pub outside : (d l k : Text) → (text_eq db d && text_eq level l) ≡ false → c' d l k ≡ c d l k

-- Level as documented: what is stored is changed by `put`, `del` and `clear` alone. A `put` or a `del`
-- that rejects has done nothing; `clear` is not atomic, so one that rejects has removed some of the
-- entries, or none, or all. Any operation may reject.
pub record Documented (db : Level) (contents : db.World → Contents) : Type 0 where
  pub opens :
      (c : Contents) (d : Text)
      → Triple
          (λ w. contents w ≡ c)
          (db.open_level d)
          (λ _ w. contents w ≡ c)
          (λ _ w. contents w ≡ c)
  pub opens_sub :
      (c : Contents) (d l : Text)
      → Triple
          (λ w. contents w ≡ c)
          (db.open_sub_level d l)
          (λ _ w. contents w ≡ c)
          (λ _ w. contents w ≡ c)
  pub gets :
      (c : Contents) (d l k : Text)
      → Triple
          (λ w. contents w ≡ c)
          (db.get d l k)
          (λ r w. (r ≡ c d l k) × (contents w ≡ c))
          (λ _ w. contents w ≡ c)
  pub puts :
      (c : Contents) (d l k v : Text)
      → Triple
          (λ w. contents w ≡ c)
          (db.put d l k v)
          (λ _ w. contents w ≡ written c d l k (some v))
          (λ _ w. contents w ≡ c)
  pub deletes :
      (c : Contents) (d l k : Text)
      → Triple
          (λ w. contents w ≡ c)
          (db.del d l k)
          (λ _ w. contents w ≡ written c d l k none)
          (λ _ w. contents w ≡ c)
  pub clears :
      (c : Contents) (d l : Text)
      → Triple
          (λ w. contents w ≡ c)
          (db.clear d l)
          (λ _ w. contents w ≡ emptied c d l)
          (λ _ w. PartlyEmptied c d l (contents w))
  pub closes_sub :
      (c : Contents) (d l : Text)
      → Triple
          (λ w. contents w ≡ c)
          (db.close_sub_level d l)
          (λ _ w. contents w ≡ c)
          (λ _ w. contents w ≡ c)
  pub closes :
      (c : Contents) (d : Text)
      → Triple
          (λ w. contents w ≡ c)
          (db.close_level d)
          (λ _ w. contents w ≡ c)
          (λ _ w. contents w ≡ c)
