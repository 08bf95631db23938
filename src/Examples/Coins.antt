-- ===== src/Examples/Coins.antt =====
-- The routing of coins at concrete inputs.
use midnight_js.Prelude.{
  true, ◌≡◌, refl, some, [], ◌∷◌, Text, codes, text_eq, map_get, map_set, map_delete,
}
use midnight_js.Prelude.Exec.{◌>>=◌}
use midnight_js.Hex.{
  assert_is_contract_address, assert_is_hex, parse_hex, strip_prefix, split_bytes,
}
use midnight_js.Hex.Digits.{is_hex_digit, is_line_terminator}
use midnight_js.Contracts.Runtime.{QualifiedCoinInfo}
use midnight_js.Contracts.World.{outside_call}
use midnight_js.Contracts.Zswap.{
  Unproven, check_keys, serialize_coin_info, serialize_qualified_coin_info, route_input,
  route_inputs,
}
use midnight_js.Contracts.Zswap.Routing.{
  Routed, route_inputs-Routed, route_inputs_no_chain, is_input, has,
}
use midnight_js.Examples.Toy.{toy, address, start}

abbrev coin : Text → QualifiedCoinInfo
coin nonce = record {
  coin = record { type = codes "t"; nonce = nonce; value = 1; extra_keys = [] };
  mt_index = 0;
}

-- Outputs `a` and `b`, and inputs `a` and `c`: `a` becomes a transient.
abbrev before_routing : Unproven toy
before_routing = record {
  outputs = (codes "a", 1) ∷ (codes "b", 1) ∷ [];
  inputs = [];
  transients = [];
}

abbrev after_routing : Unproven toy
after_routing = record {
  outputs = (codes "b", 1) ∷ [];
  inputs = (codes "c", 3) ∷ [];
  transients = (codes "a", 4) ∷ [];
}

route_inputs-Routed_example :
    Routed toy (coin (codes "a") ∷ coin (codes "c") ∷ []) before_routing after_routing
unfolding ◌>>=◌ assert_is_contract_address assert_is_hex parse_hex strip_prefix split_bytes
    is_hex_digit is_line_terminator text_eq map_get map_set map_delete outside_call check_keys
    serialize_coin_info serialize_qualified_coin_info route_input route_inputs
route_inputs-Routed_example =
    route_inputs-Routed toy (some (address, 0)) (coin (codes "a") ∷ coin (codes "c") ∷ [])
      before_routing after_routing start (record start { ext = 2 }) refl

abbrev after_no_chain : Unproven toy
after_no_chain = record {
  outputs = (codes "b", 1) ∷ [];
  inputs = [];
  transients = (codes "a", 4) ∷ [];
}

route_inputs_no_chain_example :
    (after_no_chain.inputs ≡ [])
    × (is_input toy (coin (codes "a") ∷ []) (codes "a") ≡ true
        → has (codes "a") before_routing.outputs ≡ true)
unfolding ◌>>=◌ text_eq map_get map_set map_delete outside_call check_keys serialize_coin_info
    serialize_qualified_coin_info route_input route_inputs
route_inputs_no_chain_example =
    route_inputs_no_chain toy (coin (codes "a") ∷ []) before_routing after_no_chain start
      (record start { ext = 1 }) (codes "a") refl refl
