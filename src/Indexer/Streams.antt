-- ===== src/Indexer/Streams.antt =====
-- What a subscriber has seen of an observable up to some moment, with the operators of RxJS and of
-- zen-observable that packages/indexer-public-data-provider/src uses, as their documentation has them.
use midnight_js.Prelude.{
  ◌≡◌, refl, ap, Bool, Option, none, some, List, [], ◌∷◌, Result, ok, err, if◌then◌else◌,
}

-- `pending`: nothing more has happened yet.
pub data Stream (E A : Type 0) : Type 0 where
  pending complete : Stream E A
  failed : E → Stream E A
  next : A → Stream E A → Stream E A

-- A promise.
pub data Awaited (E A : Type 0) : Type 0 where
  waiting : Awaited E A
  resolved : A → Awaited E A
  rejected : E → Awaited E A

module _ {E A : Type 0} where
  -- The values of a list, and then what a stream does.
  unfoldable pub prepend : List A → Stream E A → Stream E A
  prepend [] s = s
  prepend (a ∷ as') s = next a (prepend as' s)

  -- `Rx.from(array)`
  abbrev pub from_list : List A → Stream E A
  from_list as' = prepend as' complete

  -- `Rx.take(1)`
  unfoldable pub take_one : Stream E A → Stream E A
  take_one pending = pending
  take_one complete = complete
  take_one (failed e) = failed e
  take_one (next a s) = next a complete

  -- `Rx.skip(1)`
  unfoldable pub skip_one : Stream E A → Stream E A
  skip_one pending = pending
  skip_one complete = complete
  skip_one (failed e) = failed e
  skip_one (next a s) = s

  -- A filter whose test may throw, which fails the stream.
  unfoldable pub filter_try : (A → Result E Bool) → Stream E A → Stream E A
  filter_try p pending = pending
  filter_try p complete = complete
  filter_try p (failed e) = failed e
  filter_try p (next a s) = elim (p a) [
    | ok keep ↦ if keep then next a (filter_try p s) else filter_try p s
    | err e ↦ failed e
  ]

  -- `Rx.filter`
  unfoldable pub keep_if : (A → Bool) → Stream E A → Stream E A
  keep_if p pending = pending
  keep_if p complete = complete
  keep_if p (failed e) = failed e
  keep_if p (next a s) = let rest = keep_if p s in if p a then next a rest else rest

  -- `Rx.skipWhile`
  unfoldable pub skip_while : (A → Bool) → Stream E A → Stream E A
  skip_while p pending = pending
  skip_while p complete = complete
  skip_while p (failed e) = failed e
  skip_while p (next a s) = let rest = skip_while p s in if p a then rest else next a s

  -- The error that a stream ends in, if it has ended so.
  unfoldable pub failure : Stream E A → Option E
  failure pending = none
  failure complete = none
  failure (failed e) = some e
  failure (next a s) = failure s

  -- An inner stream and what follows its completion; an error of the outer stream is passed on at
  -- once.
  unfoldable pub join : Option E → Stream E A → Stream E A → Stream E A
  join none pending rest = pending
  join (some e) pending rest = failed e
  join outer complete rest = rest
  join outer (failed e) rest = failed e
  join outer (next a s) rest = next a (join outer s rest)

  -- `Rx.firstValueFrom`: `empty` is the EmptyError.
  unfoldable pub first_value_from : E → Stream E A → Awaited E A
  first_value_from empty pending = waiting
  first_value_from empty complete = rejected empty
  first_value_from empty (failed e) = rejected e
  first_value_from empty (next a s) = resolved a

  pub join_complete : (s : Stream E A) → join none s complete ≡ s
  unfolding join
  join_complete pending = refl
  join_complete complete = refl
  join_complete (failed e) = refl
  join_complete (next a s) = ap (next a) (join_complete s)

module _ {E A B : Type 0} where
  -- A map whose function may throw, which fails the stream.
  unfoldable pub map_try : (A → Result E B) → Stream E A → Stream E B
  map_try f pending = pending
  map_try f complete = complete
  map_try f (failed e) = failed e
  map_try f (next a s) = elim (f a) [ ok b ↦ next b (map_try f s) | err e ↦ failed e ]

  -- `Rx.concatMap`
  unfoldable pub concat_map : (A → Stream E B) → Stream E A → Stream E B
  unfolding failure join
  concat_map f pending = pending
  concat_map f complete = complete
  concat_map f (failed e) = failed e
  concat_map f (next a s) = join (failure s) (f a) (concat_map f s)
