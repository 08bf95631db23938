-- ===== src/Platform/NetworkId/Laws.antt =====
-- The equality of identifiers, and the networks that a configuration can select.
use midnight_js.Prelude.{◌≡◌, refl, ◌↔◌, true, false, some, arith, Text, ok, text_eq_iff}
use midnight_js.Platform.NetworkId.{
  NetworkId, main_net, moniker, network_id_moniker, make, equals, to_text, is_main_net,
  configured_network,
}

pub equals_iff : (a b : NetworkId) → (equals a b ≡ true) ↔ (a ≡ b)
unfolding equals
equals_iff main_net main_net = (λ h. refl, λ h. refl)
equals_iff main_net (moniker b) = ground arith
equals_iff (moniker a) main_net = ground arith
equals_iff (moniker a) (moniker b) = ground (arith, text_eq_iff a b)

-- A configured network is not MainNet, whatever its name.
pub configured_network_not_main_net :
    (name : Text) (id : NetworkId)
    → configured_network (some name) ≡ ok id
    → (is_main_net id ≡ false) × (equals id main_net ≡ false) × (to_text id ≡ name)
unfolding configured_network network_id_moniker make is_main_net equals to_text
configured_network_not_main_net name id h = ground arith
