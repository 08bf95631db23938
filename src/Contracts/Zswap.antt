-- ===== src/Contracts/Zswap.antt =====
-- packages/contracts/src/utils/zswap-utils.ts: from the coins of a circuit run to a zswap offer.
pub mod Frames
pub mod Routing
use midnight_js.Prelude.{
  ℕ, ◌≡◌, Bool, true, false, Option, none, some, List, [], ◌∷◌, map, if◌then◌else◌, Text, text_eq,
  Entries, map_get, map_set, map_delete, Result,
}
use midnight_js.Prelude.Exec.{pure, throw, assert_defined, throw_when, ◌>>=◌, ◌>>◌}
use midnight_js.Contracts.Runtime.{
  Runtime, CoinInfo, QualifiedCoinInfo, Recipient, Output, ZswapLocalState,
}
use midnight_js.Contracts.World.{
  M, unexpected_coin_key, no_chain_state, unsupported_coin, outside_call, library_call,
  check_address, get_zswap_network_id, parse_coin_public_key_to_hex, parse_enc_public_key_to_hex,
}

abbrev pub default_segment_number : ℕ
default_segment_number = 0

-- The three maps that the loop over the inputs fills, with serialised coins as keys.
pub record Unproven (rt : Runtime) : Type 0 where
  pub outputs : Entries rt.UnprovenOutput
  pub inputs : Entries rt.UnprovenInput
  pub transients : Entries rt.UnprovenTransient

unfoldable pub entries_to_map : {V : Type 0} → Entries V → Entries V → Entries V
entries_to_map m [] = m
entries_to_map m ((k, v) ∷ rest) = entries_to_map (map_set k v m) rest

module _ (rt : Runtime) where
  check_key_list : List Text → M rt (Unit {0})
  check_key_list [] = pure tt
  check_key_list (key ∷ keys) = throw (unexpected_coin_key key)

  unfoldable pub check_keys : CoinInfo → M rt (Unit {0})
  unfolding check_key_list
  check_keys coin = check_key_list coin.extra_keys

  unfoldable pub serialize_coin_info : CoinInfo → M rt Text
  serialize_coin_info coin = do
    check_keys coin
    pure (rt.stringify_coin coin.type coin.nonce coin.value)

  unfoldable pub serialize_qualified_coin_info : QualifiedCoinInfo → M rt Text
  serialize_qualified_coin_info q = serialize_coin_info q.coin

  unfoldable pub deserialize_coin_info : Text → M rt CoinInfo
  deserialize_coin_info text = do
    coin ← library_call rt (rt.parse_coin text)
    check_keys coin
    pure coin

  unfoldable pub create_unproven_output : Output → Text → ℕ → M rt rt.UnprovenOutput
  create_unproven_output output encryption_public_key segment =
      if output.recipient.is_left
      then outside_call rt
          (rt.new_output output.coin_info segment output.recipient.left encryption_public_key)
      else outside_call rt (rt.new_contract_output output.coin_info segment output.recipient.right)

  module _ {U : Type 0} (f : U → Text → ℕ → Result rt.ExtError rt.UnprovenOffer) where
    -- `unprovenOfferFromCoinInfo` on each entry
    offers_from_entries : Entries U → M rt (List rt.UnprovenOffer)
    offers_from_entries [] = pure []
    offers_from_entries ((key, unproven) ∷ m) = do
      coin ← deserialize_coin_info key
      offer ← library_call rt (f unproven coin.type coin.value)
      rest ← offers_from_entries m
      pure (offer ∷ rest)

  merge_offers : rt.UnprovenOffer → List rt.UnprovenOffer → M rt rt.UnprovenOffer
  merge_offers acc [] = pure acc
  merge_offers acc (offer ∷ offers) = do
    merged ← library_call rt (rt.merge_offer acc offer)
    merge_offers merged offers

  unfoldable pub unproven_offer_from_map :
      {U : Type 0}
      → Entries U
      → (U → Text → ℕ → Result rt.ExtError rt.UnprovenOffer)
      → M rt rt.UnprovenOffer
  unfolding offers_from_entries merge_offers
  unproven_offer_from_map m f = do
    offers ← offers_from_entries f m
    merge_offers rt.new_offer offers

  -- `new Map(outputs.map(…))`
  unfoldable pub create_outputs : Text → List Output → M rt (Entries rt.UnprovenOutput)
  create_outputs encryption_public_key [] = pure []
  create_outputs encryption_public_key (output ∷ outputs) = do
    key ← serialize_coin_info output.coin_info
    unproven ← create_unproven_output output encryption_public_key default_segment_number
    rest ← create_outputs encryption_public_key outputs
    pure ((key, unproven) ∷ rest)

  -- One round of the loop over the inputs, by whether an output has the coin.
  unfoldable pub route_input :
      Option (Text × rt.ZswapChainState)
      → QualifiedCoinInfo
      → Text
      → Option rt.UnprovenOutput
      → Unproven rt
      → M rt (Unproven rt)
  route_input address_and_state q key (some output) maps = do
    transient ← outside_call rt (rt.new_transient q default_segment_number output)
    pure (record maps {
      transients = map_set key transient maps.transients;
      outputs = map_delete key maps.outputs;
    })
  route_input address_and_state q key none maps = do
    target ← assert_defined (λ _. true) no_chain_state address_and_state
    check_address rt target.0
    input ← outside_call rt (rt.new_contract_input q default_segment_number target.0 target.1)
    pure (record maps { inputs = map_set key input maps.inputs })

  unfoldable pub route_inputs :
      Option (Text × rt.ZswapChainState) → List QualifiedCoinInfo → Unproven rt → M rt (Unproven rt)
  route_inputs address_and_state [] maps = pure maps
  route_inputs address_and_state (q ∷ qs) maps = do
    key ← serialize_qualified_coin_info q
    maps' ← route_input address_and_state q key (map_get key maps.outputs) maps
    route_inputs address_and_state qs maps'

  unfoldable pub zswap_state_to_offer :
      ZswapLocalState → Text → Option (Text × rt.ZswapChainState) → M rt rt.UnprovenOffer
  zswap_state_to_offer state encryption_public_key address_and_state = do
    outputs ← create_outputs encryption_public_key state.outputs
    maps ←
        route_inputs address_and_state state.inputs
          (record { outputs = entries_to_map [] outputs; inputs = []; transients = [] })
    from_inputs ← unproven_offer_from_map maps.inputs rt.offer_from_input
    from_outputs ← unproven_offer_from_map maps.outputs rt.offer_from_output
    with_outputs ← library_call rt (rt.merge_offer from_inputs from_outputs)
    from_transients ← unproven_offer_from_map maps.transients rt.offer_from_transient
    library_call rt (rt.merge_offer with_outputs from_transients)

  unfoldable pub encryption_public_key_for_zswap_state : ZswapLocalState → Text → Text → M rt Text
  encryption_public_key_for_zswap_state state wallet_coin_key wallet_encryption_key = do
    id ← get_zswap_network_id rt
    wallet_key ← parse_coin_public_key_to_hex rt wallet_coin_key id
    id' ← get_zswap_network_id rt
    local_key ← parse_coin_public_key_to_hex rt state.coin_public_key id'
    throw_when (if text_eq local_key wallet_key then false else true) unsupported_coin
    id'' ← get_zswap_network_id rt
    parse_enc_public_key_to_hex rt wallet_encryption_key id''

new_coins_of : Text → List Output → List CoinInfo
new_coins_of key [] = []
new_coins_of key (output ∷ outputs) =
    let rest = new_coins_of key outputs in
    if text_eq output.recipient.left key then output.coin_info ∷ rest else rest

unfoldable pub zswap_state_to_new_coins : Text → ZswapLocalState → List CoinInfo
unfolding new_coins_of
zswap_state_to_new_coins key state = new_coins_of key state.outputs
