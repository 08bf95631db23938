-- ===== src/Contracts/Zswap/Frames.antt =====
-- Building a zswap offer: what is left of the private states and signing keys.
use midnight_js.Prelude.{ℕ, Option, none, some, List, [], ◌∷◌, Text, Entries, Result}
use midnight_js.Prelude.Exec.Frames.{frame_rules}
use midnight_js.Contracts.Runtime.{Runtime, CoinInfo, QualifiedCoinInfo, Output, ZswapLocalState}
use midnight_js.Contracts.World.Frames.{KeepsLocal, local_rules}
use midnight_js.Contracts.Zswap.{
  Unproven, check_key_list, check_keys, serialize_coin_info, serialize_qualified_coin_info,
  deserialize_coin_info, create_unproven_output, offers_from_entries, merge_offers,
  unproven_offer_from_map, create_outputs, route_input, route_inputs, zswap_state_to_offer,
  encryption_public_key_for_zswap_state,
}

module _ (rt : Runtime) where
  check_key_list-KeepsLocal : (keys : List Text) → KeepsLocal {rt = rt} (check_key_list rt keys)
  unfolding check_key_list
  check_key_list-KeepsLocal [] = search frame_rules
  check_key_list-KeepsLocal (k ∷ keys) = search frame_rules

  serialize_coin_info-KeepsLocal :
      (coin : CoinInfo) → KeepsLocal {rt = rt} (serialize_coin_info rt coin)
  unfolding serialize_coin_info check_keys
  serialize_coin_info-KeepsLocal coin = search (frame_rules, check_key_list-KeepsLocal)

  serialize_qualified_coin_info-KeepsLocal :
      (q : QualifiedCoinInfo) → KeepsLocal {rt = rt} (serialize_qualified_coin_info rt q)
  unfolding serialize_qualified_coin_info
  serialize_qualified_coin_info-KeepsLocal q = serialize_coin_info-KeepsLocal q.coin

  deserialize_coin_info-KeepsLocal :
      (text : Text) → KeepsLocal {rt = rt} (deserialize_coin_info rt text)
  unfolding deserialize_coin_info check_keys
  deserialize_coin_info-KeepsLocal text = search (local_rules, check_key_list-KeepsLocal)

  create_unproven_output-KeepsLocal :
      (output : Output) (key : Text) (segment : ℕ)
      → KeepsLocal {rt = rt} (create_unproven_output rt output key segment)
  unfolding create_unproven_output
  create_unproven_output-KeepsLocal output key segment = search local_rules

  module _ {U : Type 0} (f : U → Text → ℕ → Result rt.ExtError rt.UnprovenOffer) where
    offers_from_entries-KeepsLocal :
        (m : Entries U) → KeepsLocal {rt = rt} (offers_from_entries rt f m)
    unfolding offers_from_entries
    offers_from_entries-KeepsLocal [] = search frame_rules
    offers_from_entries-KeepsLocal ((key, u) ∷ m) =
        let rest = offers_from_entries-KeepsLocal m in
        search (frame_rules, deserialize_coin_info-KeepsLocal)

  merge_offers-KeepsLocal :
      (acc : rt.UnprovenOffer) (offers : List rt.UnprovenOffer)
      → KeepsLocal {rt = rt} (merge_offers rt acc offers)
  unfolding merge_offers
  merge_offers-KeepsLocal acc [] = search frame_rules
  merge_offers-KeepsLocal acc (o ∷ offers) =
      let rest = λ (a : rt.UnprovenOffer). merge_offers-KeepsLocal a offers in
      search (frame_rules, rest)

  unproven_offer_from_map-KeepsLocal :
      {U : Type 0} (m : Entries U) (f : U → Text → ℕ → Result rt.ExtError rt.UnprovenOffer)
      → KeepsLocal {rt = rt} (unproven_offer_from_map rt m f)
  unfolding unproven_offer_from_map
  unproven_offer_from_map-KeepsLocal m f =
      search (frame_rules, offers_from_entries-KeepsLocal, merge_offers-KeepsLocal)

  create_outputs-KeepsLocal :
      (key : Text) (outputs : List Output) → KeepsLocal {rt = rt} (create_outputs rt key outputs)
  unfolding create_outputs
  create_outputs-KeepsLocal key [] = search frame_rules
  create_outputs-KeepsLocal key (o ∷ outputs) =
      let rest = create_outputs-KeepsLocal key outputs in
      search (frame_rules, serialize_coin_info-KeepsLocal, create_unproven_output-KeepsLocal)

  route_input-KeepsLocal :
      (target : Option (Text × rt.ZswapChainState)) (q : QualifiedCoinInfo) (key : Text)
      (found : Option rt.UnprovenOutput) (maps : Unproven rt)
      → KeepsLocal {rt = rt} (route_input rt target q key found maps)
  unfolding route_input
  route_input-KeepsLocal target q key none maps = search local_rules
  route_input-KeepsLocal target q key (some o) maps = search local_rules

  route_inputs-KeepsLocal :
      (target : Option (Text × rt.ZswapChainState)) (qs : List QualifiedCoinInfo)
      (maps : Unproven rt)
      → KeepsLocal {rt = rt} (route_inputs rt target qs maps)
  unfolding route_inputs
  route_inputs-KeepsLocal target [] maps = search frame_rules
  route_inputs-KeepsLocal target (q ∷ qs) maps =
      let rest = λ (m : Unproven rt). route_inputs-KeepsLocal target qs m in
      search (frame_rules, serialize_qualified_coin_info-KeepsLocal, route_input-KeepsLocal, rest)

  pub zswap_state_to_offer-KeepsLocal :
      (state : ZswapLocalState) (key : Text) (target : Option (Text × rt.ZswapChainState))
      → KeepsLocal {rt = rt} (zswap_state_to_offer rt state key target)
  unfolding zswap_state_to_offer
  zswap_state_to_offer-KeepsLocal state key target =
      search
        (
          frame_rules, create_outputs-KeepsLocal, route_inputs-KeepsLocal,
          unproven_offer_from_map-KeepsLocal,
        )
        depth 12

  pub encryption_public_key_for_zswap_state-KeepsLocal :
      (state : ZswapLocalState) (coin_key encryption_key : Text)
      → KeepsLocal {rt = rt}
          (encryption_public_key_for_zswap_state rt state coin_key encryption_key)
  unfolding encryption_public_key_for_zswap_state
  encryption_public_key_for_zswap_state-KeepsLocal state coin_key encryption_key =
      search local_rules depth 12
