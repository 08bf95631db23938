-- ===== src/Reflection/Parser/Laws.antt =====
-- The arguments that the parser of compiledContractReflection.ts accepts.
use midnight_js.Prelude.{
  ◌≡◌, inl, inr, some, List, [], ◌∷◌, arith, Bool-cases, Option-cases, All, Text, text_eq, ok,
  of_ok,
}
use midnight_js.Reflection.{Values, Host}
use midnight_js.Reflection.Params.Typing.{HaveTypes, AllSupported}
use midnight_js.Reflection.Params.Typing.Sound.{transform_params-HaveTypes}
use midnight_js.Reflection.Parser.{
  Method, ArgumentParser, find_circuit, own_parameters, parse_circuit_args,
}

-- The parameters of each method in the list have types that are read.
abbrev pub ParametersSupported : List Method → Type 0
ParametersSupported = All (λ m. AllSupported (own_parameters m))

find_circuit-IsSupported :
    (name : Text) (ms : List Method) (m : Method)
    → ParametersSupported ms
    → find_circuit name ms ≡ some m
    → AllSupported (own_parameters m)
unfolding find_circuit
find_circuit-IsSupported name [] m w h = ground arith
find_circuit-IsSupported name (n ∷ ms) m w h = elim (Bool-cases (text_eq n.name name)) [
  | inl hit ↦ grind (arith, w.0)
  | inr miss ↦ find_circuit-IsSupported name ms m w.1 (grind arith)
]

-- Where the parameters of the circuits have types that the parser reads (numbers, integers, strings,
-- booleans, Uint8Array, and arrays, tuples and literal types with different member names of these): if
-- it accepts arguments for a circuit, the declaration has that circuit, and there is one value of the
-- declared type for each of its parameters after the first.
pub parse_circuit_args-HaveTypes :
    (host : Host) (parser : ArgumentParser) (circuit_id : Text) (args : List Text) (vs : Values)
    → ParametersSupported parser.circuits
    → parse_circuit_args host parser circuit_id args ≡ ok vs
    → (m : Method) × (find_circuit circuit_id parser.circuits ≡ some m)
      × HaveTypes (own_parameters m) vs
unfolding parse_circuit_args
parse_circuit_args-HaveTypes host parser circuit_id args vs w h =
    elim (Option-cases (find_circuit circuit_id parser.circuits)) [
      | inl missing ↦ ground arith
      | inr (m, found) ↦ (
        m,
        found,
        of_ok (rw found at h) (
            transform_params-HaveTypes host (own_parameters m) args
              (find_circuit-IsSupported circuit_id parser.circuits m w found)),
      )
    ]
