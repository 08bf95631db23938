-- ===== src/Examples/Databases.antt =====
-- The private state provider over a database that keeps its entries in a function.
use midnight_js.Prelude.{
  ℕ, ◌≡◌, refl, ap, Bool, none, some, [], ◌∷◌, ◌==◌, Text, codes, text_eq, Result, ok, err,
}
use midnight_js.Prelude.Exec.Triples.{Post}
use midnight_js.PrivateState.{set}
use midnight_js.PrivateState.Stores.{Stores, abstract_step}
use midnight_js.PrivateState.Level.{default_config, level_provider}
use midnight_js.PrivateState.Level.Database.{
  Level, Superjson, Contents, written, emptied, Documented,
}
use midnight_js.PrivateState.Level.Rejections.{level_provider_refines}
use midnight_js.PrivateState.Level.Outcomes.{Stands, Left}

abbrev memory : Level
memory = record {
  World = Contents;
  Error = Text;
  open_level = λ d c. (ok tt, c);
  open_sub_level = λ d l c. (ok tt, c);
  get = λ d l k c. (ok (c d l k), c);
  put = λ d l k v c. (ok tt, written c d l k (some v));
  del = λ d l k c. (ok tt, written c d l k none);
  clear = λ d l c. (ok tt, emptied c d l);
  close_sub_level = λ d l c. (ok tt, c);
  close_level = λ d c. (ok tt, c);
}

abbrev contents_of : Contents → Contents
contents_of c = c

memory-Documented : Documented memory contents_of
memory-Documented = record {
  opens = λ c d. record { at = λ w p. p };
  opens_sub = λ c d l. record { at = λ w p. p };
  gets = λ c d l k. record { at = λ w p. (ap (λ (b : Contents). b d l k) p, p) };
  puts = λ c d l k v. record { at = λ w p. ap (λ b. written b d l k (some v)) p };
  deletes = λ c d l k. record { at = λ w p. ap (λ b. written b d l k none) p };
  clears = λ c d l. record { at = λ w p. ap (λ b. emptied b d l) p };
  closes_sub = λ c d l. record { at = λ w p. p };
  closes = λ c d. record { at = λ w p. p };
}

-- A number as one code unit.
abbrev read_number : Text → Result Text ℕ
read_number [] = err []
read_number (n ∷ s) = ok n

abbrev numbers : Superjson memory ℕ
numbers = record { stringify = λ n. n ∷ []; parse = read_number }

abbrev texts : Superjson memory Text
texts = record { stringify = λ t. t; parse = ok }

abbrev is_zero : ℕ → Bool
is_zero n = n == 0

abbrev nothing_stored : Stores ℕ
nothing_stored = record { state_at = λ k. none; key_at = λ k. none }

abbrev nothing_written : Contents
nothing_written d l k = none

level_provider_refines_example :
    Post
      (λ response w.
        (response ≡ (abstract_step is_zero (set (codes "a") 5) nothing_stored).0)
        × Stands memory contents_of numbers is_zero texts default_config
            (contents_of w)
            (abstract_step is_zero (set (codes "a") 5) nothing_stored).1)
      (λ _ w.
        Left memory contents_of numbers is_zero texts default_config
          (set (codes "a") 5)
          nothing_stored
          (contents_of w))
      (level_provider memory numbers is_zero texts default_config
        (set (codes "a") 5)
        nothing_written).0
      (level_provider memory numbers is_zero texts default_config
        (set (codes "a") 5)
        nothing_written).1
unfolding text_eq
level_provider_refines_example =
    level_provider_refines memory contents_of numbers is_zero texts default_config memory-Documented
      (λ n. refl) (λ k. refl) refl (set (codes "a") 5) nothing_stored nothing_written
      (λ k. refl, λ k. refl)
