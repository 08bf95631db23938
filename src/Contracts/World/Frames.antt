-- ===== src/Contracts/World/Frames.antt =====
-- What the calls that only read, or that leave the program, do to the local state.
use midnight_js.Prelude.{ℕ, refl, List, [], ◌∷◌, Text, Result}
use midnight_js.Prelude.Exec.Frames.{Frames, frame_rules}
use midnight_js.NetworkId.{TargetNetworkId}
use midnight_js.Contracts.Runtime.{Runtime, Op}
use midnight_js.Contracts.World.{
  M, Providers, local_of, outside_call, get_zswap_network_id, get_ledger_network_id,
  get_runtime_network_id, parse_key_to_hex, parse_coin_public_key_to_hex,
  parse_enc_public_key_to_hex, get_private_state, get_signing_key, get_verifier_keys, get_zk_config,
}

-- Private states, signing keys and network identifier stay what they were.
abbrev pub KeepsLocal : {rt : Runtime} {A : Type 0} → M rt A → Type 0
KeepsLocal m = Frames local_of m

module _ (rt : Runtime) where
  pub outside_call-KeepsLocal :
      {A : Type 0} (op : Op rt.outside A) → KeepsLocal {rt = rt} (outside_call rt op)
  unfolding outside_call
  outside_call-KeepsLocal op = record { at = λ w. refl }

  pub get_zswap_network_id-KeepsLocal : KeepsLocal (get_zswap_network_id rt)
  unfolding get_zswap_network_id
  get_zswap_network_id-KeepsLocal = record { at = λ w. refl }

  pub get_ledger_network_id-KeepsLocal : KeepsLocal (get_ledger_network_id rt)
  unfolding get_ledger_network_id
  get_ledger_network_id-KeepsLocal = record { at = λ w. refl }

  pub get_runtime_network_id-KeepsLocal : KeepsLocal (get_runtime_network_id rt)
  unfolding get_runtime_network_id
  get_runtime_network_id-KeepsLocal = record { at = λ w. refl }

  parse_key_to_hex-KeepsLocal :
      (decode : TargetNetworkId → Text → Result rt.ExtError (List ℕ)) (key : Text)
      (id : TargetNetworkId)
      → KeepsLocal {rt = rt} (parse_key_to_hex rt decode key id)
  unfolding parse_key_to_hex
  parse_key_to_hex-KeepsLocal decode key id = search frame_rules

  pub parse_coin_public_key_to_hex-KeepsLocal :
      (key : Text) (id : TargetNetworkId)
      → KeepsLocal {rt = rt} (parse_coin_public_key_to_hex rt key id)
  unfolding parse_coin_public_key_to_hex
  parse_coin_public_key_to_hex-KeepsLocal key id =
      parse_key_to_hex-KeepsLocal rt.decode_coin_public_key key id

  pub parse_enc_public_key_to_hex-KeepsLocal :
      (key : Text) (id : TargetNetworkId)
      → KeepsLocal {rt = rt} (parse_enc_public_key_to_hex rt key id)
  unfolding parse_enc_public_key_to_hex
  parse_enc_public_key_to_hex-KeepsLocal key id =
      parse_key_to_hex-KeepsLocal rt.decode_enc_public_key key id

module _ (rt : Runtime) (p : Providers rt) where
  pub get_private_state-KeepsLocal : (id : Text) → KeepsLocal (get_private_state rt p id)
  unfolding get_private_state
  get_private_state-KeepsLocal id = search (frame_rules, outside_call-KeepsLocal)

  pub get_signing_key-KeepsLocal : (address : Text) → KeepsLocal (get_signing_key rt p address)
  unfolding get_signing_key
  get_signing_key-KeepsLocal address = search (frame_rules, outside_call-KeepsLocal)

  pub get_verifier_keys-KeepsLocal : (ids : List Text) → KeepsLocal (get_verifier_keys rt p ids)
  unfolding get_verifier_keys
  get_verifier_keys-KeepsLocal [] = search frame_rules
  get_verifier_keys-KeepsLocal (id ∷ ids) =
      let rest = get_verifier_keys-KeepsLocal ids in search (frame_rules, outside_call-KeepsLocal)

  pub get_zk_config-KeepsLocal : (id : Text) → KeepsLocal (get_zk_config rt p id)
  unfolding get_zk_config
  get_zk_config-KeepsLocal id = search (frame_rules, outside_call-KeepsLocal)

pub ruleset local_rules = (
  frame_rules, outside_call-KeepsLocal, get_zswap_network_id-KeepsLocal,
  get_ledger_network_id-KeepsLocal, get_runtime_network_id-KeepsLocal,
  parse_coin_public_key_to_hex-KeepsLocal, parse_enc_public_key_to_hex-KeepsLocal,
  get_private_state-KeepsLocal, get_signing_key-KeepsLocal, get_verifier_keys-KeepsLocal,
  get_zk_config-KeepsLocal,
)
