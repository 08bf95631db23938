-- ===== src/NetworkId.antt =====
-- packages/network-id/src: network identifiers and their conversions. The module-level variable
-- `currentNetworkId` is a value that `set_network_id` replaces and the other functions take.
pub mod Laws
use midnight_js.Prelude.{
  Option, none, some, [], ◌∷◌, if◌then◌else◌, Text, codes, text_eq, Result, ok, err,
}

-- `other` is a value that an untyped caller forced on the enum.
pub data NetworkId : Type 0 where
  undeployed dev_net test_net main_net : NetworkId
  other : Text → NetworkId

-- The enums of the ledger, runtime and zswap packages, with the members that the source names.
pub data TargetNetworkId : Type 0 where
  undeployed dev_net test_net main_net : TargetNetworkId

-- NetworkIdTypeError
pub data NetworkIdError : Type 0 where
  network_id_type_error : Text → NetworkIdError

unfoldable pub to_ledger_network_id : NetworkId → Result NetworkIdError TargetNetworkId
to_ledger_network_id NetworkId.undeployed = ok TargetNetworkId.undeployed
to_ledger_network_id NetworkId.dev_net = ok TargetNetworkId.dev_net
to_ledger_network_id NetworkId.test_net = ok TargetNetworkId.test_net
to_ledger_network_id NetworkId.main_net = ok TargetNetworkId.main_net
to_ledger_network_id (other id) = err (network_id_type_error id)

unfoldable pub to_runtime_network_id : NetworkId → Result NetworkIdError TargetNetworkId
to_runtime_network_id NetworkId.undeployed = ok TargetNetworkId.undeployed
to_runtime_network_id NetworkId.dev_net = ok TargetNetworkId.dev_net
to_runtime_network_id NetworkId.test_net = ok TargetNetworkId.test_net
to_runtime_network_id NetworkId.main_net = ok TargetNetworkId.main_net
to_runtime_network_id (other id) = err (network_id_type_error id)

unfoldable pub to_zswap_network_id : NetworkId → Result NetworkIdError TargetNetworkId
to_zswap_network_id NetworkId.undeployed = ok TargetNetworkId.undeployed
to_zswap_network_id NetworkId.dev_net = ok TargetNetworkId.dev_net
to_zswap_network_id NetworkId.test_net = ok TargetNetworkId.test_net
to_zswap_network_id NetworkId.main_net = ok TargetNetworkId.main_net
to_zswap_network_id (other id) = err (network_id_type_error id)

-- The initial value of `currentNetworkId`.
abbrev pub initial_network_id : NetworkId
initial_network_id = NetworkId.undeployed

-- The member values of the enum, as `String(id)` writes them.
pub to_text : NetworkId → Text
to_text NetworkId.undeployed = codes "Undeployed"
to_text NetworkId.dev_net = codes "DevNet"
to_text NetworkId.test_net = codes "TestNet"
to_text NetworkId.main_net = codes "MainNet"
to_text (other id) = id

unfoldable pub string_to_network_id : Text → Option NetworkId
string_to_network_id id =
    if text_eq id (codes "Undeployed")
    then some NetworkId.undeployed
    else if text_eq id (codes "DevNet")
    then some NetworkId.dev_net
    else if text_eq id (codes "TestNet")
    then some NetworkId.test_net
    else if text_eq id (codes "MainNet")
    then some NetworkId.main_net
    else none

unfoldable pub network_id_to_hex : NetworkId → Result NetworkIdError Text
network_id_to_hex NetworkId.undeployed = ok (codes "00")
network_id_to_hex NetworkId.dev_net = ok (codes "01")
network_id_to_hex NetworkId.test_net = ok (codes "02")
network_id_to_hex NetworkId.main_net = ok (codes "04")
network_id_to_hex (other id) = err (network_id_type_error id)
