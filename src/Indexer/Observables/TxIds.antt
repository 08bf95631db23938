-- ===== src/Indexer/Observables/TxIds.antt =====
-- What the observable that starts at a transaction identifier emits.
use midnight_js.Prelude.{
  Option, ◌≡◌, refl, sym, ap, ◌∙◌, Bool, false, not, none, some, List, [], ◌∷◌, ◌++◌, arith, any,
  Text, text_eq, ok, if◌then◌else◌, Bool-cases, inl, inr,
}
use mathlib.Core.List.{flat_map, zip}
use midnight_js.NetworkId.{NetworkId}
use midnight_js.Contracts.Runtime.{Runtime}
use midnight_js.Indexer.Streams.{
  Stream, skip_one, pending, next, prepend, from_list, skip_while, map_try, filter_try, concat_map,
  join, failure,
}
use midnight_js.Indexer.{
  Error, maybe_throw_errors, maybe_throw_graphql_errors, maybe_throw_apollo_error, Transaction,
  TransactionData, Block, ContractAction, height, Client,
}
use midnight_js.Indexer.Queries.{deserialize_contract_state, has_transactions, first_transaction}
use midnight_js.Indexer.Observables.{
  is_inclusive, transaction_to_contract_state, transaction_id_to_transaction, block_offset_to_block,
  contract_state_observable, tx_id,
}
use midnight_js.Indexer.Observables.Flattening.{select, map_try-ok, concat_map-prepend}

-- The pairs from the first with the identifier on.
unfoldable pub drop_until : Text → List (Text × ContractAction) → List (Text × ContractAction)
drop_until id [] = []
drop_until id (pair ∷ pairs) =
    let later = drop_until id pairs in if text_eq pair.0 id then pair ∷ pairs else later

unfoldable pub has_identifier : Text → Transaction → Bool
has_identifier id t = any (λ i. text_eq i id) t.identifiers

unfoldable pub pairs_from : Text → Transaction → List (Text × ContractAction)
unfolding zip drop_until
pairs_from id t = drop_until id (zip t.identifiers t.contract_actions)

skip_while-from_list :
    {E : Type 0} (id : Text) (pairs : List (Text × ContractAction))
    → skip_while (λ pair. not (text_eq pair.0 id)) (from_list {E = E} pairs)
      ≡ from_list (drop_until id pairs)
unfolding skip_while prepend drop_until
skip_while-from_list id [] = refl
skip_while-from_list {E = E} id (p ∷ pairs) = ground (arith, skip_while-from_list {E = E} id pairs)

drop_until_absent :
    (id : Text) (ids : List Text) (actions : List ContractAction)
    → any (λ i. text_eq i id) ids ≡ false
    → drop_until id (zip ids actions) ≡ []
unfolding drop_until zip
drop_until_absent id [] actions h = refl
drop_until_absent id (i ∷ ids) [] h = refl
drop_until_absent id (i ∷ ids) (a ∷ actions) h = ground (arith, drop_until_absent id ids actions)

pairs_from_absent :
    (id : Text) (t : Transaction) → has_identifier id t ≡ false → pairs_from id t ≡ []
unfolding has_identifier pairs_from
pairs_from_absent id t h = drop_until_absent id t.identifiers t.contract_actions h

flat_map-select :
    {A B : Type 0} (p : A → Bool) (g : A → List B) (as' : List A)
    → ((a : A) → p a ≡ false → g a ≡ [])
    → flat_map g as' ≡ flat_map g (select p as')
unfolding flat_map
flat_map-select p g [] h = refl
flat_map-select p g (a ∷ as') h = elim (Bool-cases (p a)) [
  | inl e ↦ rw e (ap (λ t. g a ++ t) (flat_map-select p g as' h))
  | inr e ↦ rw (e, h a e) (flat_map-select p g as' h)
]

join_pending :
    {E A : Type 0} (as' : List A) (s : Stream E A)
    → join none (prepend as' pending) s ≡ prepend as' pending
unfolding join prepend
join_pending [] s = refl
join_pending (a ∷ as') s = ap (next a) (join_pending as' s)

module _ {rt : Runtime} (network : NetworkId) where
  abbrev pub states_of_pairs :
      Stream (Error rt) (Text × ContractAction) → Stream (Error rt) rt.ContractState
  states_of_pairs =
      map_try (λ (pair : Text × ContractAction). deserialize_contract_state network pair.1.state)

  transaction_to_contract_state_lem :
      (id : Text) (t : Transaction)
      → transaction_to_contract_state network id t ≡ states_of_pairs (from_list (pairs_from id t))
  unfolding transaction_to_contract_state pairs_from
  transaction_to_contract_state_lem id t =
      ap states_of_pairs (skip_while-from_list id (zip t.identifiers t.contract_actions))

module _ {rt : Runtime} (client : Client rt) (id : Text) (t : TransactionData)
    (ts : List TransactionData) (blocks : List Block)
    (e : client.watch_tx_id id
      ≡ next (record { result_data = some (t ∷ ts); errors = []; error = none }) pending)
    (f : block_offset_to_block client (height t.block_height) ≡ prepend blocks pending) where
  transactions_sent :
      transaction_id_to_transaction client id
      ≡ prepend (flat_map (λ (block : Block). block.transactions) blocks) pending
  unfolding transaction_id_to_transaction map_try filter_try maybe_throw_errors
      maybe_throw_graphql_errors maybe_throw_apollo_error has_transactions first_transaction
      concat_map failure
  transactions_sent =
      rw (e, f, join_pending blocks pending)
        (concat_map-prepend _ ok (λ (block : Block). block.transactions)
            (λ block. sym (map_try-ok _)) blocks false
          ∙ map_try-ok _)

  -- Where the first poll has found the transaction and the server has sent these blocks from its block
  -- on, the observable of an identifier has emitted the states, as far as they can be deserialised, of
  -- the actions from the identifier's position on in the transactions that hold it, whatever the
  -- contract, without the first state if it is not inclusive: a later transaction without the
  -- identifier adds nothing.
  pub tx_id_observable_lem :
      (network : NetworkId) (address : Text) (inclusive : Option Bool)
      → let states = states_of_pairs network (
          prepend
            (flat_map (pairs_from id) (
              select (has_identifier id) (flat_map (λ (block : Block). block.transactions) blocks)))
            pending) in
        contract_state_observable client network address (tx_id id inclusive)
        ≡ (if is_inclusive inclusive then states else skip_one states)
  unfolding contract_state_observable
  tx_id_observable_lem network address inclusive =
      let transactions = flat_map (λ (block : Block). block.transactions) blocks in
      ap (λ s. if is_inclusive inclusive then s else skip_one s)
        (ap (concat_map (transaction_to_contract_state network id)) transactions_sent
          ∙ concat_map-prepend _ _ (pairs_from id) (transaction_to_contract_state_lem network id)
              transactions false
          ∙ ap (λ ps. states_of_pairs network (prepend ps pending))
              (flat_map-select (has_identifier id) (pairs_from id) transactions
                (pairs_from_absent id)))
