-- ===== src/Commands/Handlers/Writes.antt =====
-- What the handlers of compact-js-command write, in order, as far as they get.
use midnight_js.Prelude.{
  ◌≡◌, refl, ap, ◌⊎◌, inl, inr, Option, none, some, List, [], ◌∷◌, arith, Text, Result, ok, err,
}
use midnight_js.Prelude.Exec.{◌>>=◌}
use midnight_js.Prelude.Exec.Frames.{Frames, frame_rules, Frames-bind}
use midnight_js.Prelude.Exec.Triples.{Post, Triple, Triple-bind, Triple-lift, Triple-weaken_rejects}
use midnight_js.Executable.{E}
use midnight_js.Executable.Parameters.{Op}
use midnight_js.Reflection
use midnight_js.Reflection.{Values}
use midnight_js.Commands.Handlers.{Label, mapped}
use midnight_js.Commands.Files.{
  Bytes, CommandKit, Stop, World, Cmd, read_bytes, write_bytes, dies_of, as_ledger_contract_state,
  as_ledger_contract_state_from_bytes, as_contract_state, by_schema, execute, call_outside, ttl,
  log, create_argument_parser, parsed_arguments, after_write, accessed, with_ext, or_dies, or_fails,
  schema_failed, died_of, died_of_undefined, fs_failed, declaration_unreadable, bad_arguments,
  contract_failed, conversion_failed, not_implemented,
}

-- The entries that were written after `before`, one for each predicate, in order.
abbrev pub Written :
    List (Text × Bytes → Type 0) → List (Text × Bytes) → List (Text × Bytes) → Type 0
Written [] now before = now ≡ before
Written (P ∷ Ps) now before = (entry : Text × Bytes) × P entry × Written Ps now (entry ∷ before)

-- Only some of them, from the first on.
abbrev pub WrittenSome :
    List (Text × Bytes → Type 0) → List (Text × Bytes) → List (Text × Bytes) → Type 0
WrittenSome [] now before = ⊥
WrittenSome (P ∷ Ps) now before =
    (now ≡ before) ⊎ ((entry : Text × Bytes) × P entry × WrittenSome Ps now (entry ∷ before))

module _ {ck : CommandKit} where
  abbrev pub writes : World ck → List (Text × Bytes)
  writes w = w.writes

  pub Frames-read_bytes : (path : Text) → Frames writes (read_bytes path)
  unfolding read_bytes
  Frames-read_bytes path = record { at = λ w. refl }

  pub Frames-dies_of : {A : Type 0} (r : Result ck.kit.Thrown A) → Frames writes (dies_of r)
  unfolding dies_of
  Frames-dies_of r = search frame_rules

  pub Frames-by_schema : {A : Type 0} (r : Result ck.kit.Thrown A) → Frames writes (by_schema r)
  unfolding by_schema
  Frames-by_schema r = search frame_rules

  pub Frames-as_ledger : (b : Bytes) → Frames writes (as_ledger_contract_state_from_bytes b)
  unfolding as_ledger_contract_state_from_bytes
  Frames-as_ledger b = search frame_rules

  pub Frames-as_contract_state : (s : ck.LedgerState) → Frames writes (as_contract_state s)
  unfolding as_contract_state
  Frames-as_contract_state s = search frame_rules

  pub Frames-as_ledger_contract_state :
      (s : ck.kit.ContractState) → Frames writes (as_ledger_contract_state s)
  unfolding as_ledger_contract_state
  Frames-as_ledger_contract_state s = search frame_rules

  pub Frames-execute : {A : Type 0} (m : E ck.kit A) → Frames writes (execute m)
  unfolding execute
  Frames-execute m = record { at = λ w. refl }

  pub Frames-call_outside : {A : Type 0} (op : Op ck.kit A) → Frames writes (call_outside op)
  unfolding call_outside
  Frames-call_outside op = record { at = λ w. refl }

  pub Frames-ttl : Frames writes ttl
  unfolding ttl
  Frames-ttl = record { at = λ w. refl }

  pub Frames-log : (s : Text) → Frames writes (log s)
  unfolding log
  Frames-log s = record { at = λ w. refl }

  pub Frames-create_argument_parser :
      (base assets : Text) → Frames writes (create_argument_parser base assets)
  unfolding create_argument_parser
  Frames-create_argument_parser base assets = record { at = λ w. refl }

  pub Frames-parsed_arguments :
      (r : Result Reflection.Failure Values) → Frames writes (parsed_arguments r)
  unfolding parsed_arguments
  Frames-parsed_arguments r = search frame_rules

  pub ruleset command_rules = (
    frame_rules, Frames-read_bytes, Frames-dies_of, Frames-by_schema, Frames-as_ledger,
    Frames-as_contract_state, Frames-as_ledger_contract_state, Frames-execute, Frames-call_outside,
    Frames-ttl, Frames-log, Frames-create_argument_parser, Frames-parsed_arguments,
  )

  pub Triple-write_bytes :
      (before : List (Text × Bytes)) (path : Text) (b : Bytes)
      → Triple
          (λ w. writes w ≡ before)
          (write_bytes path b)
          (λ _ w. writes w ≡ (path, b) ∷ before)
          (λ _ w. writes w ≡ before)
  unfolding write_bytes
  Triple-write_bytes before path b = record { at = λ w h. go (ck.access w.machine.ext).0 w h }
    where
      go :
          (failed : Option ck.FsError) (w : World ck)
          → writes w ≡ before
          → Post
              (λ _ v. writes v ≡ (path, b) ∷ before)
              (λ _ v. writes v ≡ before)
              (accessed {ck = ck} failed (ok tt))
              (after_write failed (path, b) (with_ext w (ck.access w.machine.ext).1))
      go none w h = ap (λ ws. (path, b) ∷ ws) h
      go (some e) w h = h

  or_dies-ok :
      {A : Type 0} (r : Result ck.kit.Thrown A) {a : A} → or_dies {ck = ck} r ≡ ok a → r ≡ ok a
  or_dies-ok (ok b) h = cc
  or_dies-ok (err e) h = ground arith

  or_fails-ok :
      {A : Type 0} (f : ck.kit.Thrown → Stop ck) (r : Result ck.kit.Thrown A) {a : A}
      → or_fails f r ≡ ok a
      → r ≡ ok a
  or_fails-ok f (ok b) h = cc
  or_fails-ok f (err e) h = ground arith

  abbrev pub Still : {B : Type 0} → List (Text × Bytes) → B → World ck → Type 0
  Still before _ w = writes w ≡ before

  module _ (before : List (Text × Bytes)) {A : Type 0} where
    pub Triple-dies_of :
        (r : Result ck.kit.Thrown A)
        → Triple
            (λ w. writes w ≡ before)
            (dies_of r)
            (λ a w. (r ≡ ok a) × (writes w ≡ before))
            (Still before)
    unfolding dies_of
    Triple-dies_of r = Triple-lift _ (λ a w e h. (or_dies-ok r e, h)) (λ _ w _ h. h)

    pub Triple-by_schema :
        (r : Result ck.kit.Thrown A)
        → Triple
            (λ w. writes w ≡ before)
            (by_schema r)
            (λ a w. (r ≡ ok a) × (writes w ≡ before))
            (Still before)
    unfolding by_schema
    Triple-by_schema r =
        Triple-lift _ (λ a w e h. (or_fails-ok schema_failed r e, h)) (λ _ w _ h. h)

  pub Triple-as_contract_state :
      (before : List (Text × Bytes)) (ledger : ck.LedgerState)
      → Triple
          (λ w. writes w ≡ before)
          (as_contract_state {ck = ck} ledger)
          (λ state w. (ck.state_of_ledger ledger ≡ ok state) × (writes w ≡ before))
          (Still before)
  unfolding as_contract_state
  Triple-as_contract_state before ledger =
      Triple-lift _ (λ a w e h. (or_fails-ok conversion_failed _ e, h)) (λ _ w _ h. h)

  pub Triple-as_ledger :
      (before : List (Text × Bytes)) (state : ck.kit.ContractState)
      → Triple
          (λ w. writes w ≡ before)
          (as_ledger_contract_state {ck = ck} state)
          (λ ledger w. (ck.ledger_of_state state ≡ ok ledger) × (writes w ≡ before))
          (Still before)
  unfolding as_ledger_contract_state
  Triple-as_ledger before state =
      Triple-lift _ (λ a w e h. (or_fails-ok conversion_failed _ e, h)) (λ _ w _ h. h)

  -- A step that completes one write, of an entry with `P`, or none.
  abbrev pub WritesOne : (Text × Bytes → Type 0) → List (Text × Bytes) → Cmd ck (Unit {0}) → Type 0
  WritesOne P before m =
      Triple (λ w. writes w ≡ before) m
        (λ _ w. (entry : Text × Bytes) × P entry × (writes w ≡ entry ∷ before))
        (λ _ w. writes w ≡ before)

  -- A block that writes the entries of `Ps` in order, or only the first of them.
  abbrev pub WritesAll :
      List (Text × Bytes → Type 0) → List (Text × Bytes) → Cmd ck (Unit {0}) → Type 0
  WritesAll Ps before m =
      Triple (λ w. writes w ≡ before) m (λ _ w. Written Ps (writes w) before)
        (λ _ w. WrittenSome Ps (writes w) before)

  pub last_write :
      (P : Text × Bytes → Type 0) (before : List (Text × Bytes)) (m : Cmd ck (Unit {0}))
      → WritesOne P before m
      → WritesAll (P ∷ []) before m
  last_write P before m one = Triple-weaken_rejects m one (λ _ w h. inl h)

  pub next_write :
      (P : Text × Bytes → Type 0) (Ps : List (Text × Bytes → Type 0)) (before : List (Text × Bytes))
      (m n : Cmd ck (Unit {0}))
      → WritesOne P before m
      → ((entry : Text × Bytes) → WritesAll Ps (entry ∷ before) n)
      → WritesAll (P ∷ Ps) before (m >>= λ _. n)
  next_write P Ps before m n one rest =
      Triple-bind m (λ _. n) (Triple-weaken_rejects m one (λ _ w h. inl h))
        λ _. record { at = λ w (entry, p, h). go entry p (n w).0 (n w).1 ((rest entry).at w h) }
    where
      go :
          (entry : Text × Bytes)
          → P entry
          → (r : Result (Stop ck) (Unit {0})) (w : World ck)
          → Post
              (λ _ v. Written Ps (writes v) (entry ∷ before))
              (λ _ v. WrittenSome Ps (writes v) (entry ∷ before))
              r
              w
          → Post
              (λ _ v. Written (P ∷ Ps) (writes v) before)
              (λ _ v. WrittenSome (P ∷ Ps) (writes v) before)
              r
              w
      go entry p (ok tt) w h = (entry, p, h)
      go entry p (err e) w h = inr (entry, p, h)

  -- The label that a handler puts on a failure says nothing of the files.
  pub Post-mapped :
      {A : Type 0} (Q : A → World ck → Type 0) (X : World ck → Type 0) (label : Label)
      (r : Result (Stop ck) A) (w : World ck)
      → Post Q (λ _ v. X v) r w
      → Post Q (λ _ v. X v) (mapped label r) w
  Post-mapped Q X label (ok a) w h = h
  Post-mapped Q X label (err (died_of cause)) w h = h
  Post-mapped Q X label (err died_of_undefined) w h = h
  Post-mapped Q X label (err (fs_failed e)) w h = h
  Post-mapped Q X label (err (declaration_unreadable e)) w h = h
  Post-mapped Q X label (err (bad_arguments e)) w h = h
  Post-mapped Q X label (err (contract_failed e)) w h = h
  Post-mapped Q X label (err (conversion_failed e)) w h = h
  Post-mapped Q X label (err (schema_failed e)) w h = h
  Post-mapped Q X label (err not_implemented) w h = h
