-- ===== src/Contracts/Submit.antt =====
-- packages/contracts/src/submit-tx.ts: proving, balancing and submitting a transaction.
pub mod Frames
use midnight_js.Prelude.{
  ℕ, Bool, true, false, not, ◌&&◌, Option, none, some, List, [], ◌∷◌, if◌then◌else◌, Text, map_get,
}
use midnight_js.Prelude.Exec.{pure, throw, throw_when, assert_defined, ◌>>=◌, ◌>>◌}
use midnight_js.Contracts.Runtime.{Runtime, CoinInfo, Contract}
use midnight_js.Contracts.World.{
  M, Providers, FinalizedTxData, ZkConfig, is_success, call_tx, tx_failed, circuit_undefined,
  no_public_state, no_private_state, incomplete_call_tx_private_state_config, outside_call,
  check_address, get_zswap_network_id, parse_coin_public_key_to_hex, get_private_state,
  set_private_state, get_zk_config,
}

pub record SubmitTxOptions (rt : Runtime) : Type 0 where
  pub unproven_tx : rt.UnprovenTransaction
  pub new_coins : List CoinInfo
  pub circuit_id : Option Text

module _ (rt : Runtime) (p : Providers rt) where
  -- `options.circuitId ? {zkConfig: …} : undefined`: the empty identifier is falsy too.
  prove_config : Option Text → M rt (Option ZkConfig)
  prove_config none = pure none
  prove_config (some []) = pure none
  prove_config (some (c ∷ id)) = do config ← get_zk_config rt p (c ∷ id); pure (some config)

  unfoldable pub submit_tx : SubmitTxOptions rt → M rt (FinalizedTxData rt)
  unfolding prove_config
  submit_tx options = do
    config ← prove_config options.circuit_id
    unbalanced ← outside_call rt (p.prove_tx options.unproven_tx config)
    balanced ← outside_call rt (p.balance_tx unbalanced options.new_coins)
    tx_id ← outside_call rt (p.submit_tx balanced)
    outside_call rt (p.watch_for_tx_data tx_id)
