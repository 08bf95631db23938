-- ===== src/Contracts/LedgerTx/Frames.antt =====
-- Building a ledger transaction: what is left of the private states and signing keys.
use midnight_js.Prelude.{ℕ, Option, List, [], ◌∷◌, Text}
use midnight_js.Prelude.Exec.Frames.{frame_rules}
use midnight_js.Contracts.Runtime.{Runtime, ZswapLocalState}
use midnight_js.Contracts.World.Frames.{KeepsLocal, local_rules}
use midnight_js.Contracts.Zswap.Frames.{zswap_state_to_offer-KeepsLocal}
use midnight_js.Contracts.LedgerTx.{
  to_ledger_contract_state, from_ledger_contract_state, add_verifier_keys,
  create_unproven_ledger_deploy_tx, create_unproven_ledger_call_tx,
  unproven_tx_from_contract_updates, create_unproven_replace_authority_tx,
  create_unproven_remove_verifier_key_tx, create_unproven_insert_verifier_key_tx,
}

module _ (rt : Runtime) where
  to_ledger_contract_state-KeepsLocal :
      (state : rt.ContractState) → KeepsLocal {rt = rt} (to_ledger_contract_state rt state)
  unfolding to_ledger_contract_state
  to_ledger_contract_state-KeepsLocal state = search local_rules depth 8

  from_ledger_contract_state-KeepsLocal :
      (state : rt.LedgerContractState) → KeepsLocal {rt = rt} (from_ledger_contract_state rt state)
  unfolding from_ledger_contract_state
  from_ledger_contract_state-KeepsLocal state = search local_rules depth 8

  add_verifier_keys-KeepsLocal :
      (keys : List (Text × List ℕ)) (state : rt.LedgerContractState)
      → KeepsLocal {rt = rt} (add_verifier_keys rt keys state)
  unfolding add_verifier_keys
  add_verifier_keys-KeepsLocal [] state = search frame_rules
  add_verifier_keys-KeepsLocal ((id, key) ∷ keys) state =
      let rest = λ (s : rt.LedgerContractState). add_verifier_keys-KeepsLocal keys s in
      search (frame_rules, rest)

  pub create_unproven_ledger_deploy_tx-KeepsLocal :
      (keys : List (Text × List ℕ)) (signing_key : Text) (state : rt.ContractState)
      (zswap_state : ZswapLocalState) (encryption_key : Text)
      → KeepsLocal {rt = rt}
          (create_unproven_ledger_deploy_tx rt keys signing_key state zswap_state encryption_key)
  unfolding create_unproven_ledger_deploy_tx
  create_unproven_ledger_deploy_tx-KeepsLocal keys signing_key state zswap_state encryption_key =
      search
        (
          local_rules, to_ledger_contract_state-KeepsLocal, from_ledger_contract_state-KeepsLocal,
          add_verifier_keys-KeepsLocal, zswap_state_to_offer-KeepsLocal,
        )
        depth 10

  pub create_unproven_ledger_call_tx-KeepsLocal :
      (id address : Text) (state : rt.ContractState) (chain_state : rt.ZswapChainState)
      (partitioned : Option rt.Transcript × Option rt.Transcript) (outputs : List rt.AlignedValue)
      (input output : rt.AlignedValue) (zswap_state : ZswapLocalState) (encryption_key : Text)
      → KeepsLocal {rt = rt} (
          create_unproven_ledger_call_tx rt id address state chain_state partitioned outputs input
            output zswap_state encryption_key)
  unfolding create_unproven_ledger_call_tx
  create_unproven_ledger_call_tx-KeepsLocal id address state chain_state partitioned outputs input
        output zswap_state encryption_key =
      search (local_rules, to_ledger_contract_state-KeepsLocal, zswap_state_to_offer-KeepsLocal)
        depth 10

  unproven_tx_from_contract_updates-KeepsLocal :
      (address : Text) (updates : List rt.SingleUpdate) (state : rt.ContractState) (key : Text)
      → KeepsLocal {rt = rt} (unproven_tx_from_contract_updates rt address updates state key)
  unfolding unproven_tx_from_contract_updates
  unproven_tx_from_contract_updates-KeepsLocal address updates state key = search local_rules

  pub create_unproven_replace_authority_tx-KeepsLocal :
      (address new_key : Text) (state : rt.ContractState) (key : Text)
      → KeepsLocal {rt = rt} (create_unproven_replace_authority_tx rt address new_key state key)
  unfolding create_unproven_replace_authority_tx
  create_unproven_replace_authority_tx-KeepsLocal address new_key state key =
      unproven_tx_from_contract_updates-KeepsLocal address _ state key

  pub create_unproven_remove_verifier_key_tx-KeepsLocal :
      (address id : Text) (state : rt.ContractState) (key : Text)
      → KeepsLocal {rt = rt} (create_unproven_remove_verifier_key_tx rt address id state key)
  unfolding create_unproven_remove_verifier_key_tx
  create_unproven_remove_verifier_key_tx-KeepsLocal address id state key =
      unproven_tx_from_contract_updates-KeepsLocal address _ state key

  pub create_unproven_insert_verifier_key_tx-KeepsLocal :
      (address id : Text) (new_key : List ℕ) (state : rt.ContractState) (key : Text)
      → KeepsLocal {rt = rt}
          (create_unproven_insert_verifier_key_tx rt address id new_key state key)
  unfolding create_unproven_insert_verifier_key_tx
  create_unproven_insert_verifier_key_tx-KeepsLocal address id new_key state key =
      unproven_tx_from_contract_updates-KeepsLocal address _ state key
