-- ===== src/Contracts/Find/KeyCheck.antt =====
-- The check of a found contract's verifier keys against the local ones.
use midnight_js.Prelude.{
  ℕ, ◌≡◌, refl, ◌↔◌, true, Option, none, some, List, [], ◌∷◌, Text, ok, arith, length, All, ==_iff,
  text_eq_iff, Bool-cases, inl, inr,
}
use midnight_js.Prelude.Exec.{◌>>=◌}
use midnight_js.Hex.RoundTrip.{IsByte, to_hex_injective}
use midnight_js.Contracts.Runtime.{Runtime}
use midnight_js.Contracts.World.{World}
use midnight_js.Contracts.Find.{
  verifier_keys_equal, key_matches, mismatched_circuit_ids, throw_mismatched, verify_contract_state,
}

-- On byte arrays the comparison of lengths and hex strings is equality.
pub verifier_keys_equal_iff :
    (a b : List ℕ) → All IsByte a → All IsByte b → (verifier_keys_equal a b ≡ true) ↔ (a ≡ b)
unfolding verifier_keys_equal
verifier_keys_equal_iff a b ha hb = (
  λ e. to_hex_injective a b ha hb ((text_eq_iff _ _).0 (ground arith)),
  λ e. rw e (rw ((==_iff (length b) (length b)).1 refl) ((text_eq_iff _ _).1 refl)),
)

module _ (rt : Runtime) where
  -- The contract state has the circuit with this very key.
  pub data HasKey (state : rt.ContractState) (entry : Text × List ℕ) : Type 0 where
    has_key :
        (operation : rt.Operation)
        → rt.operation state entry.0 ≡ some operation
        → entry.1 ≡ rt.verifier_key operation
        → HasKey state entry

  module _ (state : rt.ContractState)
      (deployed_bytes : (id : Text) (operation : rt.Operation)
        → rt.operation state id ≡ some operation
        → All IsByte (rt.verifier_key operation)) where
    key_matches_sound :
        (id : Text) (key : List ℕ) (found : Option rt.Operation)
        → All IsByte key
        → rt.operation state id ≡ found
        → key_matches rt found key ≡ true
        → HasKey state (id, key)
    unfolding key_matches
    key_matches_sound id key none b o e = cc
    key_matches_sound id key (some operation) b o e =
        has_key operation o ((verifier_keys_equal_iff _ _ b (deployed_bytes id operation o)).0 e)

    key_matches_complete :
        (entry : Text × List ℕ)
        → All IsByte entry.1
        → HasKey state entry
        → key_matches rt (rt.operation state entry.0) entry.1 ≡ true
    unfolding key_matches
    key_matches_complete entry b (has_key operation o e) =
        rw o ((verifier_keys_equal_iff _ _ b (deployed_bytes entry.0 operation o)).1 e)

    mismatched_nil_sound :
        (keys : List (Text × List ℕ))
        → All (λ entry. All IsByte entry.1) keys
        → mismatched_circuit_ids rt keys state ≡ []
        → All (HasKey state) keys
    unfolding mismatched_circuit_ids
    mismatched_nil_sound [] b e = tt
    mismatched_nil_sound ((id, key) ∷ keys) (b, bs) e =
        elim (Bool-cases (key_matches rt (rt.operation state id) key)) [
          | inl m ↦ (
            key_matches_sound id key (rt.operation state id) b refl m,
            mismatched_nil_sound keys bs (ground arith),
          )
          | inr m ↦ absurd (ground arith)
        ]

    mismatched_nil_complete :
        (keys : List (Text × List ℕ))
        → All (λ entry. All IsByte entry.1) keys
        → All (HasKey state) keys
        → mismatched_circuit_ids rt keys state ≡ []
    unfolding mismatched_circuit_ids
    mismatched_nil_complete [] b h = refl
    mismatched_nil_complete (entry ∷ keys) (b, bs) (h, hs) =
        rw (key_matches_complete entry b h) (mismatched_nil_complete keys bs hs)

    throw_mismatched_iff :
        (ids : List Text) (w : World rt)
        → (throw_mismatched rt state ids w ≡ (ok tt, w)) ↔ (ids ≡ [])
    unfolding throw_mismatched ◌>>=◌
    throw_mismatched_iff ids w = ground arith

    -- The check passes exactly when the contract state has every circuit of the local contract with
    -- the very key that the client has for it. Keys are arrays of bytes.
    pub verify_contract_state_iff :
        (keys : List (Text × List ℕ)) (w : World rt)
        → All (λ entry. All IsByte entry.1) keys
        → (verify_contract_state rt keys state w ≡ (ok tt, w)) ↔ All (HasKey state) keys
    unfolding verify_contract_state
    verify_contract_state_iff keys w b =
        let (to, from) = throw_mismatched_iff (mismatched_circuit_ids rt keys state) w in
        (λ e. mismatched_nil_sound keys b (to e), λ h. from (mismatched_nil_complete keys b h))
