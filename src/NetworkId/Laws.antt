-- ===== src/NetworkId/Laws.antt =====
-- Conversions of network identifiers against each other and against the enum.
use midnight_js.Prelude.{
  ◌≡◌, refl, subst, Bool, true, false, ◌↔◌, some, arith, Text, codes, text_eq, text_eq_iff, ok,
}
use midnight_js.NetworkId.{
  NetworkId, undeployed, dev_net, test_net, main_net, other, to_text, string_to_network_id,
  network_id_to_hex, to_ledger_network_id, to_runtime_network_id, to_zswap_network_id,
}

-- An identifier that the enum has.
abbrev pub is_member : NetworkId → Bool
is_member (other id) = false
is_member _ = true

sound :
    (name : Text) (id : NetworkId)
    → string_to_network_id name ≡ some id
    → (to_text id ≡ name) × (is_member id ≡ true)
unfolding string_to_network_id to_text
sound name id h = ground (
  arith,
  text_eq_iff name (codes "Undeployed"),
  text_eq_iff name (codes "DevNet"),
  text_eq_iff name (codes "TestNet"),
  text_eq_iff name (codes "MainNet"),
)

string_to_network_id-to_text :
    (id : NetworkId) → is_member id ≡ true → string_to_network_id (to_text id) ≡ some id
unfolding string_to_network_id to_text text_eq
string_to_network_id-to_text (other name) h = cc
string_to_network_id-to_text undeployed h = refl
string_to_network_id-to_text dev_net h = refl
string_to_network_id-to_text test_net h = refl
string_to_network_id-to_text main_net h = refl

-- Parsing a name gives an identifier exactly when that identifier is a member with this name.
pub string_to_network_id_iff :
    (name : Text) (id : NetworkId)
    → (string_to_network_id name ≡ some id) ↔ ((to_text id ≡ name) × (is_member id ≡ true))
string_to_network_id_iff name id = (
  sound name id,
  λ h. subst (λ t. string_to_network_id t ≡ some id) h.0 (string_to_network_id-to_text id h.1),
)

-- Two identifiers with the same hex code are the same member.
pub network_id_to_hex_injective :
    (a b : NetworkId) (hex : Text)
    → network_id_to_hex a ≡ ok hex
    → network_id_to_hex b ≡ ok hex
    → a ≡ b
unfolding network_id_to_hex
network_id_to_hex_injective a b hex p q = ground arith

-- The three conversions return the same member, or all throw the same error.
pub conversions_agree :
    (id : NetworkId)
    → (to_ledger_network_id id ≡ to_runtime_network_id id)
      × (to_runtime_network_id id ≡ to_zswap_network_id id)
unfolding to_ledger_network_id to_runtime_network_id to_zswap_network_id
conversions_agree id = ground arith
