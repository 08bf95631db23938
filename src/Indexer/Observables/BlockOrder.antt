-- ===== src/Indexer/Observables/BlockOrder.antt =====
-- What the observables that start at a block emit, against the list of the contract's actions.
use midnight_js.Prelude.{
  ℕ, ◌≡◌, refl, sym, ap, ◌∙◌, Bool, true, false, Option, none, some, List, [], ◌∷◌, Text, text_eq,
  ok, if◌then◌else◌,
}
use mathlib.Core.List.{flat_map, tail}
use midnight_js.NetworkId.{NetworkId}
use midnight_js.Contracts.Runtime.{Runtime}
use midnight_js.Indexer.Streams.{
  Stream, take_one, filter_try, pending, next, prepend, from_list, keep_if, skip_one, map_try,
  concat_map, failure, join_complete,
}
use midnight_js.Indexer.{
  maybe_throw_errors, maybe_throw_graphql_errors, maybe_throw_apollo_error, QueryResult, Error,
  Transaction, Block, ContractAction, BlockOffset, height, Client,
}
use midnight_js.Indexer.Queries.{deserialize_contract_state}
use midnight_js.Indexer.Observables.{
  is_inclusive, block_to_contract_state, block_offset_to_block, wait_for_block_to_appear,
  states_from_block, contract_state_observable, block_height,
}
use midnight_js.Indexer.Observables.Flattening.{
  select, keep_if-prepend, map_try-ok, concat_map-prepend,
}

-- The actions of a contract in a block, in the order of the transactions.
unfoldable pub actions_at : Text → Block → List ContractAction
unfolding flat_map
actions_at address block =
    select (λ call. text_eq call.address address)
      (flat_map (λ (t : Transaction). t.contract_actions) block.transactions)

module _ {rt : Runtime} (network : NetworkId) (address : Text) where
  -- The deserialised states of actions
  abbrev pub states_of : Stream (Error rt) ContractAction → Stream (Error rt) rt.ContractState
  states_of = map_try (λ (call : ContractAction). deserialize_contract_state network call.state)

  pub block_to_contract_state_lem :
      (block : Block)
      → block_to_contract_state network address block
        ≡ states_of (from_list (actions_at address block))
  unfolding block_to_contract_state actions_at
  block_to_contract_state_lem block = ap states_of (
      ap (keep_if (λ call. text_eq call.address address)) (
        concat_map-prepend _ ok (λ (t : Transaction). t.contract_actions) (λ t. sym (map_try-ok _))
          block.transactions true
        ∙ map_try-ok _)
      ∙ keep_if-prepend _ _ true)

  states_of_blocks :
      (blocks : List Block)
      → concat_map (block_to_contract_state network address) (prepend blocks pending)
        ≡ states_of (prepend (flat_map (actions_at address) blocks) pending)
  states_of_blocks blocks =
      concat_map-prepend _ _ (actions_at address) block_to_contract_state_lem blocks false

-- The blocks that come once the first block is there.
appeared_blocks :
    {rt : Runtime} (client : Client rt) (offset : BlockOffset) (found : Text × ℕ)
    (blocks : List Block) (polls : Stream (Error rt) (QueryResult (Option (Text × ℕ))))
    → client.watch_block offset
      ≡ next (record { result_data = some (some found); errors = []; error = none }) polls
    → block_offset_to_block client offset ≡ prepend blocks pending
    → concat_map
        (λ answer. block_offset_to_block client offset)
        (wait_for_block_to_appear client offset)
      ≡ prepend blocks pending
unfolding wait_for_block_to_appear take_one filter_try map_try concat_map failure maybe_throw_errors
    maybe_throw_graphql_errors maybe_throw_apollo_error
appeared_blocks client offset found blocks polls e f =
    rw e (join_complete (block_offset_to_block client offset) ∙ f)

skipped_blocks :
    {E A : Type 0} (b : Bool) (blocks : List A)
    → (if b then prepend blocks pending else skip_one (prepend blocks pending))
      ≡ prepend {E = E} (if b then blocks else tail blocks) pending
unfolding prepend skip_one
skipped_blocks true blocks = refl
skipped_blocks false [] = refl
skipped_blocks false (x ∷ blocks) = refl

module _ {rt : Runtime} (client : Client rt) (network : NetworkId) (address : Text) where
  -- Where the first poll has found the block and the server has sent these blocks from it on, the
  -- observable of a block height has emitted the states of the contract's actions in the order of
  -- blocks, transactions and actions, without those of the first block if it is not inclusive, up to
  -- the first that cannot be deserialised.
  pub contract_state_observable_of_blocks :
      (n : ℕ) (inclusive : Option Bool) (found : Text × ℕ) (blocks : List Block)
      (polls : Stream (Error rt) (QueryResult (Option (Text × ℕ))))
      → client.watch_block (height n)
        ≡ next (record { result_data = some (some found); errors = []; error = none }) polls
      → block_offset_to_block client (height n) ≡ prepend blocks pending
      → contract_state_observable client network address (block_height n inclusive)
        ≡ states_of network address (
            prepend
              (flat_map
                (actions_at address)
                (if is_inclusive inclusive then blocks else tail blocks))
              pending)
  unfolding contract_state_observable states_from_block
  contract_state_observable_of_blocks n inclusive found blocks polls e f =
      ap
        (λ s.
          concat_map (block_to_contract_state network address)
            (if is_inclusive inclusive then s else skip_one s))
        (appeared_blocks client (height n) found blocks polls e f)
      ∙ ap (concat_map (block_to_contract_state network address))
          (skipped_blocks (is_inclusive inclusive) blocks)
      ∙ states_of_blocks network address (if is_inclusive inclusive then blocks else tail blocks)
