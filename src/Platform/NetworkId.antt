-- ===== src/Platform/NetworkId.antt =====
-- platform-js/platform-js/src/effect: NetworkId.ts, NetworkIdMoniker.ts and the network of
-- Configuration.ts.
pub mod Laws
use midnight_js.Prelude.{
  ℕ, ◌≡◌, Bool, true, false, ◌||◌, ◌&&◌, ◌==◌, leb, Option, none, some, [], ◌∷◌, if◌then◌else◌,
  is_empty, not, all, Text, codes, text_eq, Result, ok, err,
}

-- `[MonikerSymbol]`: `true` for MainNet, else a string.
pub data NetworkId : Type 0 where
  main_net : NetworkId
  moniker : Text → NetworkId

pub data MonikerError : Type 0 where
  not_a_network_identifier : Text → MonikerError

-- `[a-zA-Z0-9-]`
unfoldable pub is_moniker_char : ℕ → Bool
is_moniker_char c =
    leb b'a' c && leb c b'z' || leb b'A' c && leb c b'Z' || leb b'0' c && leb c b'9' || c == b'-'

-- The constructor of a NetworkIdMoniker.
unfoldable pub network_id_moniker : Text → Result MonikerError Text
unfolding is_moniker_char
network_id_moniker source =
    if not (is_empty source) && all is_moniker_char source
    then ok source
    else err (not_a_network_identifier source)

-- `make` of a moniker; of an identifier it is a copy.
unfoldable pub make : Text → NetworkId
make name = moniker name

unfoldable pub make_copy : NetworkId → NetworkId
make_copy id = id

-- `equals`: `Equal.equals` of the monikers
unfoldable pub equals : NetworkId → NetworkId → Bool
equals main_net main_net = true
equals main_net (moniker b) = false
equals (moniker a) main_net = false
equals (moniker a) (moniker b) = text_eq a b

-- `toString()`
unfoldable pub to_text : NetworkId → Text
to_text main_net = codes "main"
to_text (moniker name) = name

unfoldable pub is_main_net : NetworkId → Bool
is_main_net main_net = true
is_main_net (moniker name) = false

-- The network that a configuration selects, by the value of its key `network`, if it has one.
abbrev configured : Result MonikerError Text → Result MonikerError NetworkId
configured (ok name) = ok (make name)
configured (err e) = err e

unfoldable pub configured_network : Option Text → Result MonikerError NetworkId
unfolding make network_id_moniker
configured_network none = ok main_net
configured_network (some name) = configured (network_id_moniker name)
