-- ===== src/Indexer/Wrapper/Guards.antt =====
-- Which contract addresses the wrapper of the provider passes on.
use midnight_js.Prelude.{
  ℕ, length-append, subst, codes, ◌≡◌, refl, ◌∙◌, inl, inr, Bool, true, ◌&&◌, Option, [], ◌∷◌, ◌++◌,
  arith, length, all, Text, ok, err, Result, Result-cases, ◌+◌,
}
use midnight_js.Hex.{HexError, assert_is_contract_address}
use midnight_js.Hex.Digits.{is_hex_digit}
use midnight_js.Hex.Accepts.{assert_is_contract_address_iff}
use midnight_js.NetworkId.{NetworkId, network_id_to_hex}
use midnight_js.Contracts.Runtime.{Runtime}
use midnight_js.Indexer.{hex_error, BlockOffset, Client, Deserializers}
use midnight_js.Indexer.Observables.{ObservableConfig}
use midnight_js.Indexer.Wrapper.{
  wrap, prepend_network_id_hex, contract_state_observable, query_contract_state,
  query_deploy_contract_state, watch_for_contract_state, query_zswap_and_contract_state,
  watch_for_deploy_tx_data,
}

all-append : (p : ℕ → Bool) (a b : Text) → all p (a ++ b) ≡ (all p a && all p b)
all-append p [] b = refl
all-append p (x ∷ a) b = ground (arith, all-append p a b)

-- The hex digits of a text, and how many there are.
abbrev IsDigits : ℕ → Text → Type 0
IsDigits n s = (length s ≡ n) × (all is_hex_digit s ≡ true)

IsDigits-append : (m n : ℕ) (a b : Text) → IsDigits m a → IsDigits n b → IsDigits (m + n) (a ++ b)
IsDigits-append m n a b h k =
    (omega (arith, length-append a b, h.0, k.0), all-append is_hex_digit a b ∙ rw (h.1, k.1))

ok_injective : {E A : Type 0} (a b : A) → Path (Result E A) (ok a) (ok b) → a ≡ b
ok_injective a b h = cc

network-IsDigits :
    (network : NetworkId) (id : Text) → network_id_to_hex network ≡ ok id → IsDigits 2 id
unfolding network_id_to_hex is_hex_digit
network-IsDigits NetworkId.undeployed id h =
    subst (IsDigits 2) (ok_injective (codes "00") id h) (refl, refl)
network-IsDigits NetworkId.dev_net id h =
    subst (IsDigits 2) (ok_injective (codes "01") id h) (refl, refl)
network-IsDigits NetworkId.test_net id h =
    subst (IsDigits 2) (ok_injective (codes "02") id h) (refl, refl)
network-IsDigits NetworkId.main_net id h =
    subst (IsDigits 2) (ok_injective (codes "04") id h) (refl, refl)
network-IsDigits (NetworkId.other t) id h = absurd (ground arith)

-- What a method of the wrapper passes on to the client is a network's two digits and the address, 70
-- hex digits in all.
pub wrap_digits :
    {rt : Runtime} (network : NetworkId) (address prefixed : Text)
    → wrap {rt = rt} network address ≡ ok prefixed
    → (length prefixed ≡ 70) × (all is_hex_digit prefixed ≡ true)
unfolding wrap prepend_network_id_hex
wrap_digits {rt = rt} network address prefixed h =
    elim (Result-cases (assert_is_contract_address address)) [
      | inl (e, q) ↦ absurd (ground arith)
      | inr (u, q) ↦ elim (Result-cases (network_id_to_hex network)) [
        | inl (e, r) ↦ absurd (ground arith)
        | inr (id, r) ↦
            let same : id ++ address ≡ prefixed = ground arith in
            subst (IsDigits 70) same (
              IsDigits-append 2 68 id address (network-IsDigits network id r)
                ((assert_is_contract_address_iff address).0 q))
      ]
    ]

module _ {rt : Runtime} (d : Deserializers rt) (client : Client rt) (network : NetworkId)
    (address : Text) (e : HexError) (refused : assert_is_contract_address address ≡ err e) where
  wrap_refused : wrap {rt = rt} network address ≡ err (hex_error e)
  unfolding wrap
  wrap_refused = rw refused

  -- Each method of the wrapper that takes a contract address refuses a malformed one with the
  -- assertion's error, whatever the network and the client.
  pub wrapper_refuses :
      (config : Option ObservableConfig) (offset : Option BlockOffset)
      → (contract_state_observable client network address config ≡ err (hex_error e))
        × (query_contract_state client network address offset ≡ err (hex_error e))
        × (query_deploy_contract_state client network address ≡ err (hex_error e))
        × (query_zswap_and_contract_state d client network address offset ≡ err (hex_error e))
        × (watch_for_contract_state client network address ≡ err (hex_error e))
        × (watch_for_deploy_tx_data d client network address ≡ err (hex_error e))
  unfolding contract_state_observable query_contract_state query_deploy_contract_state
      query_zswap_and_contract_state watch_for_contract_state watch_for_deploy_tx_data
  wrapper_refuses config offset = (
    rw wrap_refused,
    rw wrap_refused,
    rw wrap_refused,
    rw wrap_refused,
    rw wrap_refused,
    rw wrap_refused,
  )
