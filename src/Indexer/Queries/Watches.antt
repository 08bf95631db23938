-- ===== src/Indexer/Queries/Watches.antt =====
-- The promises of the two watches for transactions, by the polls that they see.
use midnight_js.Prelude.{
  ◌≡◌, refl, Option, none, some, List, [], ◌∷◌, arith, Text, ok, err, Result, All,
}
use midnight_js.NetworkId.{NetworkId}
use midnight_js.Contracts.Runtime.{Runtime}
use midnight_js.Indexer.Streams.{
  Stream, Awaited, resolved, rejected, next, prepend, map_try, filter_try, first_value_from,
}
use midnight_js.Indexer.{
  Error, QueryResult, maybe_throw_errors, maybe_throw_graphql_errors, maybe_throw_apollo_error,
  no_elements, has_action, TransactionData, DeployTransaction, Client, Deserializers,
}
use midnight_js.Indexer.Queries.{
  finalized, identifier_of, has_transactions, first_transaction, watch_for_tx_data,
  watch_for_deploy_tx_data,
}

abbrev pub settled : {E A : Type 0} → Result E A → Awaited E A
settled (ok a) = resolved a
settled (err e) = rejected e

-- An answer with no error and this data.
abbrev pub answer : {D : Type 0} → D → QueryResult D
answer d = record { result_data = some d; errors = []; error = none }

-- The answer to a poll when the deployment is not there: errors beside it make no difference.
abbrev pub NoAction : {D : Type 0} → QueryResult (Option D) → Type 0
NoAction poll = poll.result_data ≡ some none

first_value_from-map_try :
    {E A B : Type 0} (empty : E) (f : A → Result E B) (a : A) (s : Stream E A)
    → first_value_from empty (map_try f (next a s)) ≡ settled (f a)
unfolding first_value_from map_try
first_value_from-map_try empty f a s = ground arith

module _ {rt : Runtime} where
  skip_empty_polls :
      (earlier : List (QueryResult (List TransactionData))) (t : TransactionData)
      (ts : List TransactionData) (later : Stream (Error rt) (QueryResult (List TransactionData)))
      → All (λ poll. poll ≡ answer []) earlier
      → filter_try has_transactions
          (map_try maybe_throw_errors (prepend earlier (next (answer (t ∷ ts)) later)))
        ≡ next (answer (t ∷ ts)) (filter_try has_transactions (map_try maybe_throw_errors later))
  unfolding filter_try map_try maybe_throw_errors maybe_throw_graphql_errors
      maybe_throw_apollo_error has_transactions prepend
  skip_empty_polls [] t ts later h = refl
  skip_empty_polls (p ∷ earlier) t ts later (e, h) = rw e (skip_empty_polls earlier t ts later h)

  skip_no_actions :
      (earlier : List (QueryResult (Option DeployTransaction)))
      (s : Stream (Error rt) (QueryResult (Option DeployTransaction)))
      → All NoAction earlier
      → filter_try has_action (prepend earlier s) ≡ filter_try has_action s
  unfolding filter_try prepend
  skip_no_actions [] s h = refl
  skip_no_actions (p ∷ earlier) s (e, h) = rw e (skip_no_actions earlier s h)

module _ {rt : Runtime} (d : Deserializers rt) (client : Client rt) (network : NetworkId) where
  -- Once a poll finds a transaction, after any number of polls that found none and without an error,
  -- the watch of an identifier has settled, with the data of the first that was found.
  pub watch_for_tx_data_settles :
      (id : Text) (earlier : List (QueryResult (List TransactionData))) (t : TransactionData)
      (ts : List TransactionData) (later : Stream (Error rt) (QueryResult (List TransactionData)))
      → All (λ poll. poll ≡ answer []) earlier
      → client.watch_tx_id id ≡ prepend earlier (next (answer (t ∷ ts)) later)
      → watch_for_tx_data d client network id ≡ settled (finalized d network (some id) t)
  unfolding watch_for_tx_data map_try first_transaction
  watch_for_tx_data_settles id earlier t ts later h e =
      rw (e, skip_empty_polls earlier t ts later h)
        (first_value_from-map_try no_elements (finalized d network (some id)) t _)

  pub watch_for_deploy_tx_data_settles :
      (address : Text) (earlier : List (QueryResult (Option DeployTransaction)))
      (t : DeployTransaction) (later : Stream (Error rt) (QueryResult (Option DeployTransaction)))
      → All NoAction earlier
      → client.watch_deploy_tx address ≡ prepend earlier (next (answer (some t)) later)
      → watch_for_deploy_tx_data d client network address
        ≡ settled (finalized d network (identifier_of address t) t.transaction)
  unfolding watch_for_deploy_tx_data map_try filter_try maybe_throw_errors
      maybe_throw_graphql_errors maybe_throw_apollo_error
  watch_for_deploy_tx_data_settles address earlier t later h e =
      rw (e, skip_no_actions earlier _ h)
        (first_value_from-map_try no_elements
          (λ u. finalized d network (identifier_of address u) u.transaction) t _)
