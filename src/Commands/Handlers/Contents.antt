-- ===== src/Commands/Handlers/Contents.antt =====
-- What the handlers of compact-js-command write to a file.
use midnight_js.Prelude.{◌≡◌, refl, List, ◌∷◌, Text, Result, ok, err}
use midnight_js.Prelude.Exec.Triples.{Post, Triple, Triple-bind, Triple-weaken, Triple-fact}
use midnight_js.Executable
use midnight_js.Executable.{Machine, E}
use midnight_js.Commands.Files.{Bytes, CommandKit, World, write_bytes, execute, executed}
use midnight_js.Commands.Handlers.{
  write_result, write_intent, write_private_state, write_zswap_state,
}
use midnight_js.Commands.Handlers.Writes.{
  writes, Triple-write_bytes, Triple-dies_of, Triple-by_schema, WritesOne, Still,
}

module _ (ck : CommandKit) where
  -- The entries that the commands write: a path, and the bytes of what it holds.
  abbrev pub IsResult : Text → ck.kit.ReturnValue → Text × Bytes → Type 0
  IsResult path value entry =
      (text : Text) × (ck.stringify_json (ck.json_of_result value) ≡ ok text)
      × (entry ≡ (path, ck.bytes_of_text text))

  abbrev pub IsIntent : Text → ck.Intent → Text × Bytes → Type 0
  IsIntent path intent entry =
      (bytes : Bytes) × (ck.serialize intent ≡ ok bytes) × (entry ≡ (path, bytes))

  abbrev pub IsPrivateState : Text → ck.kit.PrivateState → Text × Bytes → Type 0
  IsPrivateState path state entry =
      (text : Text) × (ck.stringify_json (ck.json_of_private_state state) ≡ ok text)
      × (entry ≡ (path, ck.bytes_of_text text))

  abbrev pub IsZswapState : Text → ck.kit.ZswapLocalState → Text × Bytes → Type 0
  IsZswapState path state entry =
      (encoded : ck.kit.EncodedZswapState) × (json : ck.Json) × (text : Text)
      × (ck.kit.encode_zswap_state state ≡ ok encoded)
      × (ck.encode_zswap_object encoded ≡ ok json)
      × (ck.stringify_json json ≡ ok text)
      × (entry ≡ (path, ck.bytes_of_text text))

  module _ (before : List (Text × Bytes)) (path : Text) where
    -- Bytes that are at hand, with a fact about them.
    write_fact :
        {F : Type 0} (P : Text × Bytes → Type 0) (bytes : Bytes)
        → (F → P (path, bytes))
        → Triple
            (λ w. F × (writes w ≡ before))
            (write_bytes {ck = ck} path bytes)
            (λ _ w. (entry : Text × Bytes) × P entry × (writes w ≡ entry ∷ before))
            (Still before)
    write_fact P bytes k =
        Triple-weaken _ (λ _ h. h) (Triple-fact _ (Triple-write_bytes before path bytes))
          (λ _ w (f, h). ((path, bytes), k f, h))

    pub write_result-WritesOne :
        (value : ck.kit.ReturnValue)
        → WritesOne (IsResult path value) before (write_result {ck = ck} path value)
    unfolding write_result
    write_result-WritesOne value =
        Triple-bind _ _ (Triple-dies_of before _)
          λ text. write_fact (IsResult path value) (ck.bytes_of_text text) λ f. (text, f, refl)

    pub write_intent-WritesOne :
        (intent : ck.Intent)
        → WritesOne (IsIntent path intent) before (write_intent {ck = ck} path intent)
    unfolding write_intent
    write_intent-WritesOne intent =
        Triple-bind _ _ (Triple-dies_of before _)
          λ bytes. write_fact (IsIntent path intent) bytes λ f. (bytes, f, refl)

    pub write_private_state-WritesOne :
        (state : ck.kit.PrivateState)
        → WritesOne (IsPrivateState path state) before (write_private_state {ck = ck} path state)
    unfolding write_private_state
    write_private_state-WritesOne state =
        Triple-bind _ _ (Triple-dies_of before _) λ text.
          write_fact (IsPrivateState path state) (ck.bytes_of_text text) λ f. (text, f, refl)

    pub write_zswap_state-WritesOne :
        (state : ck.kit.ZswapLocalState)
        → WritesOne (IsZswapState path state) before (write_zswap_state {ck = ck} path state)
    unfolding write_zswap_state
    write_zswap_state-WritesOne state = Triple-bind _ _ (Triple-dies_of before _) λ encoded.
        Triple-bind _ _ (Triple-fact _ (Triple-by_schema before _)) λ json.
          Triple-bind _ _ (Triple-fact _ (Triple-fact _ (Triple-dies_of before _))) λ text.
            Triple-weaken _ (λ w (e, (j, (t, h))). ((e, j, t), h))
              (write_fact
                {F = (ck.kit.encode_zswap_state state ≡ ok encoded)
                  × (ck.encode_zswap_object encoded ≡ ok json)
                  × (ck.stringify_json json ≡ ok text)}
                (IsZswapState path state) (ck.bytes_of_text text)
                λ (e, j, t). (encoded, json, text, e, j, t, refl))
              (λ _ _ q. q)

  pub execute_returns :
      {A : Type 0} (before : List (Text × Bytes)) (op : E ck.kit A)
      → Triple
          (λ w. writes w ≡ before)
          (execute {ck = ck} op)
          (λ a w.
            ((mach : Machine ck.kit) × (mach' : Machine ck.kit) × (op mach ≡ (ok a, mach')))
            × (writes w ≡ before))
          (Still before)
  unfolding execute
  execute_returns {A} before op = record {
    at = λ w h. go w h (op w.machine).0 (op w.machine).1 refl;
  }
    where
      go :
          (w : World ck)
          → writes w ≡ before
          → (r : Result (Executable.Failure ck.kit) A) (mach' : Machine ck.kit)
          → op w.machine ≡ (r, mach')
          → Post
              (λ a v.
                ((x : Machine ck.kit) × (y : Machine ck.kit) × (op x ≡ (ok a, y)))
                × (writes v ≡ before))
              (Still before)
              (executed {ck = ck} r)
              (record w { machine = mach' })
      go w h (ok a) mach' e = ((w.machine, mach', e), h)
      go w h (err x) mach' e = h
