-- ===== src/Contracts/Zswap/Routing.antt =====
-- How the coins of a circuit run are routed to the three parts of an offer: outputs, inputs, and
-- transients, coins that the run both created and spent.
use midnight_js.Prelude.{
  ◌∙◌, ◌≡◌, refl, subst, Bool, true, false, ◌&&◌, ◌||◌, Option, none, some, List, [], ◌∷◌, Text, ok,
  arith, text_eq, text_eq_iff, if◌then◌else◌, Entries, map_get, map_set, map_delete,
  map_get-map_set, map_get-map_delete,
}
use midnight_js.Prelude.Exec.Triples.{
  Triple, Triple-bind, Triple-pure, Triple-resolves, Triple-weaken, Triple-then, Triple-given,
  Triple-assert_defined,
}
use midnight_js.Contracts.Runtime.{Runtime, CoinInfo, QualifiedCoinInfo}
use midnight_js.Contracts.World.{World}
use midnight_js.Contracts.Zswap.{
  Unproven, serialize_coin_info, serialize_qualified_coin_info, route_input, route_inputs,
}

abbrev pub has : {V : Type 0} → Text → Entries V → Bool
has k m = elim (map_get k m) [ some v ↦ true | none ↦ false ]

module _ (rt : Runtime) where
  -- The key of a coin in the maps.
  abbrev pub key_of : CoinInfo → Text
  key_of coin = rt.stringify_coin coin.type coin.nonce coin.value

  -- Whether one of the inputs is the coin with key `k`.
  unfoldable pub is_input : List QualifiedCoinInfo → Text → Bool
  is_input [] k = false
  is_input (q ∷ qs) k = text_eq (key_of q.coin) k || is_input qs k

  -- The maps after the inputs `qs` have been routed, from the maps before.
  pub record Routed (qs : List QualifiedCoinInfo) (a b : Unproven rt) : Type 0 where
    pub outputs :
        (k : Text) → map_get k b.outputs ≡ (if is_input qs k then none else map_get k a.outputs)
    pub transients :
        (k : Text) → has k b.transients ≡ (has k a.transients || is_input qs k && has k a.outputs)
    pub spent : (k : Text) → is_input qs k ≡ true → has k a.outputs ≡ false → has k b.inputs ≡ true
    pub kept : (k : Text) → has k a.inputs ≡ true → has k b.inputs ≡ true
    pub only : (k : Text) → has k b.inputs ≡ true → (has k a.inputs || is_input qs k) ≡ true

  Routed-nil : (a : Unproven rt) → Routed [] a a
  unfolding is_input
  Routed-nil a = record {
    outputs = λ k. refl;
    transients = λ k. ground arith;
    spent = λ k i o. cc;
    kept = λ k h. h;
    only = λ k h. ground arith;
  }

  Routed-cons :
      (q : QualifiedCoinInfo) (qs : List QualifiedCoinInfo) (a b c : Unproven rt)
      → Routed (q ∷ []) a b
      → Routed qs b c
      → Routed (q ∷ qs) a c
  unfolding is_input
  Routed-cons q qs a b c s r = record {
    outputs = λ k. ground (arith, s.outputs k, r.outputs k);
    transients = λ k. ground (arith, s.outputs k, s.transients k, r.transients k);
    spent = λ k i o. ground (arith, s.outputs k, s.spent k, r.spent k, r.kept k);
    kept = λ k h. r.kept k (s.kept k h);
    only = λ k h. ground (arith, s.only k, r.only k);
  }

  Routed-transient :
      (q : QualifiedCoinInfo) (a : Unproven rt) (output : rt.UnprovenOutput)
      (t : rt.UnprovenTransient)
      → map_get (key_of q.coin) a.outputs ≡ some output
      → Routed (q ∷ []) a (record a {
        transients = map_set (key_of q.coin) t a.transients;
        outputs = map_delete (key_of q.coin) a.outputs;
      })
  unfolding is_input
  Routed-transient q a output t e = record {
    outputs = λ k. ground (arith, map_get-map_delete (key_of q.coin) k a.outputs);
    transients = λ k.
        ground
          (arith, text_eq_iff (key_of q.coin) k, map_get-map_set (key_of q.coin) k t a.transients);
    spent = λ k i o. ground (arith, text_eq_iff (key_of q.coin) k);
    kept = λ k h. h;
    only = λ k h. ground arith;
  }

  Routed-input :
      (q : QualifiedCoinInfo) (a : Unproven rt) (i : rt.UnprovenInput)
      → map_get (key_of q.coin) a.outputs ≡ none
      → Routed (q ∷ []) a (record a { inputs = map_set (key_of q.coin) i a.inputs })
  unfolding is_input
  Routed-input q a i e = record {
    outputs = λ k. ground (arith, text_eq_iff (key_of q.coin) k);
    transients = λ k. ground (arith, text_eq_iff (key_of q.coin) k);
    spent = λ k h o. ground (arith, map_get-map_set (key_of q.coin) k i a.inputs);
    kept = λ k h. ground (arith, map_get-map_set (key_of q.coin) k i a.inputs);
    only = λ k h. ground (arith, map_get-map_set (key_of q.coin) k i a.inputs);
  }

module _ (rt : Runtime) (target : Option (Text × rt.ZswapChainState)) where
  route_input_triple :
      (q : QualifiedCoinInfo) (a : Unproven rt) (found : Option rt.UnprovenOutput)
      → map_get (key_of rt q.coin) a.outputs ≡ found
      → Triple
          (λ _. Unit {0})
          (route_input rt target q (key_of rt q.coin) found a)
          (λ b _. Routed rt (q ∷ []) a b)
          (λ _ _. Unit {0})
  unfolding route_input
  route_input_triple q a (some output) e =
      Triple-then _ _ λ t. Triple-pure _ λ w _. Routed-transient rt q a output t e
  route_input_triple q a none e =
      Triple-then _ _
        λ t. Triple-then _ _ λ _. Triple-then _ _ λ i. Triple-pure _ λ w _. Routed-input rt q a i e

  serialize_triple :
      (q : QualifiedCoinInfo)
      → Triple
          (λ _. Unit {0})
          (serialize_qualified_coin_info rt q)
          (λ key _. key_of rt q.coin ≡ key)
          (λ _ _. Unit {0})
  unfolding serialize_qualified_coin_info serialize_coin_info
  serialize_triple q = Triple-then _ _ λ _. Triple-pure _ λ w _. refl

  route_inputs_triple :
      (qs : List QualifiedCoinInfo) (a : Unproven rt)
      → Triple
          (λ _. Unit {0})
          (route_inputs rt target qs a)
          (λ b _. Routed rt qs a b)
          (λ _ _. Unit {0})
  unfolding route_inputs
  route_inputs_triple [] a = Triple-pure _ λ w _. Routed-nil rt a
  route_inputs_triple (q ∷ qs) a =
      let rest = route_inputs_triple qs in
      Triple-bind _ _ (serialize_triple q) λ key. Triple-given _ λ e.
        Triple-bind _ _
          (subst
            (λ k.
              Triple (λ _. Unit {0}) (route_input rt target q k (map_get k a.outputs) a)
                (λ b _. Routed rt (q ∷ []) a b) (λ _ _. Unit {0}))
            e (route_input_triple q a (map_get (key_of rt q.coin) a.outputs) refl))
          λ b.
            Triple-given _
              λ s. Triple-weaken _ (λ w u. u) (rest b) λ c w r. Routed-cons rt q qs a b c s r

  -- Where the loop over the inputs resolves, a coin of an input and of an output is a transient and
  -- no longer an output, a coin of an output alone is an output still, a coin of an input that no
  -- output has is an input, and nothing else has been added to the three maps.
  pub route_inputs-Routed :
      (qs : List QualifiedCoinInfo) (a b : Unproven rt) (w w' : World rt)
      → route_inputs rt target qs a w ≡ (ok b, w')
      → Routed rt qs a b
  route_inputs-Routed qs a b w w' e = Triple-resolves (route_inputs_triple qs a) tt e

module _ (rt : Runtime) where
  route_input_no_chain_triple :
      (q : QualifiedCoinInfo) (key : Text) (a : Unproven rt) (found : Option rt.UnprovenOutput)
      → Triple
          (λ _. Unit {0})
          (route_input rt none q key found a)
          (λ b _. b.inputs ≡ a.inputs)
          (λ _ _. Unit {0})
  unfolding route_input
  route_input_no_chain_triple q key a (some output) = Triple-then _ _ λ t. Triple-pure _ λ w _. refl
  route_input_no_chain_triple q key a none =
      Triple-bind {R = λ _ _. ⊥} _ _
        (Triple-assert_defined _ _ none (λ target w e t u. cc e) (λ w u. tt))
        λ target. Triple-given _ λ impossible. absurd impossible

  route_inputs_no_chain_triple :
      (qs : List QualifiedCoinInfo) (a : Unproven rt)
      → Triple
          (λ _. Unit {0})
          (route_inputs rt none qs a)
          (λ b _. b.inputs ≡ a.inputs)
          (λ _ _. Unit {0})
  unfolding route_inputs
  route_inputs_no_chain_triple [] a = Triple-pure _ λ w _. refl
  route_inputs_no_chain_triple (q ∷ qs) a =
      let rest = route_inputs_no_chain_triple qs in
      Triple-then _ _ λ key.
        Triple-bind _ _ (route_input_no_chain_triple q key a (map_get key a.outputs))
          λ b. Triple-given _ λ e. Triple-weaken _ (λ w u. u) (rest b) λ c w e'. e' ∙ e

  -- Without a chain state, as in a deployment, the loop resolves only with no input added: every
  -- input that it was given is the coin of some output.
  pub route_inputs_no_chain :
      (qs : List QualifiedCoinInfo) (a b : Unproven rt) (w w' : World rt) (k : Text)
      → a.inputs ≡ []
      → route_inputs rt none qs a w ≡ (ok b, w')
      → (b.inputs ≡ []) × (is_input rt qs k ≡ true → has k a.outputs ≡ true)
  unfolding map_get
  route_inputs_no_chain qs a b w w' k empty e =
      let none_added : b.inputs ≡ [] =
        Triple-resolves (route_inputs_no_chain_triple qs a) tt e ∙ empty in
      let routed = route_inputs-Routed rt none qs a b w w' e in
      (none_added, λ i. ground (arith, routed.spent k))
