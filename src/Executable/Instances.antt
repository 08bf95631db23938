-- ===== src/Executable/Instances.antt =====
-- How often the operations of an executable contract instantiate its class.
use midnight_js.Prelude.{◌≡◌, Option, some, List, [], ◌∷◌, Text, Result}
use midnight_js.Executable.Parameters.{Toolkit, Instance, CompiledContract}
use midnight_js.Executable.{Machine, KeyConfig, ContractContext}
use midnight_js.Executable.Operations.{
  CircuitContext, initialize, circuit, replace_contract_maintenance_authority,
  remove_contract_operation, add_or_replace_contract_operation,
}
use midnight_js.Executable.Keeps.{
  initialize-Keeps, circuit-Keeps, replace-Keeps, remove-Keeps, add-Keeps,
}

-- A call of one of the executable's operations.
pub data OperationCall (kit : Toolkit) : Type 0 where
  to_initialize : KeyConfig → kit.PrivateState → kit.Args → OperationCall kit
  to_call : KeyConfig → Text → CircuitContext kit → kit.Args → OperationCall kit
  to_replace : KeyConfig → Option Text → ContractContext kit → OperationCall kit
  to_remove : KeyConfig → Text → ContractContext kit → OperationCall kit
  to_add : KeyConfig → Text → kit.VerifierKey → ContractContext kit → OperationCall kit

module _ {kit : Toolkit} (compiled : CompiledContract kit) where
  -- The machine after a request, however it ends.
  abbrev pub after : OperationCall kit → Machine kit → Machine kit
  after (to_initialize config initial args) w = (initialize compiled config initial args w).1
  after (to_call config id context args) w = (circuit compiled config id context args w).1
  after (to_replace config key context) w =
      (replace_contract_maintenance_authority config key context w).1
  after (to_remove config id context) w = (remove_contract_operation config id context w).1
  after (to_add config id key context) w =
      (add_or_replace_contract_operation config id key context w).1

  unfoldable pub after_all : List (OperationCall kit) → Machine kit → Machine kit
  after_all [] w = w
  after_all (q ∷ qs) w = after_all qs (after q w)

  after_keeps :
      (q : OperationCall kit) (w : Machine kit) (r : Result kit.Thrown (Instance kit))
      → w.contract ≡ some r
      → (after q w).contract ≡ some r
  after_keeps (to_initialize config initial args) w r h =
      (initialize-Keeps compiled config initial args).at w h
  after_keeps (to_call config id context args) w r h =
      (circuit-Keeps compiled config id context args).at w h
  after_keeps (to_replace config key context) w r h = (replace-Keeps config key context).at w h
  after_keeps (to_remove config id context) w r h = (remove-Keeps config id context).at w h
  after_keeps (to_add config id key context) w r h = (add-Keeps config id key context).at w h

  -- Once the contract's class has been instantiated, or has thrown, its outcome is that of every later
  -- use, whatever operations are called and however they end.
  pub after_all_keeps :
      (qs : List (OperationCall kit)) (w : Machine kit) (r : Result kit.Thrown (Instance kit))
      → w.contract ≡ some r
      → (after_all qs w).contract ≡ some r
  unfolding after_all
  after_all_keeps [] w r h = h
  after_all_keeps (q ∷ qs) w r h = after_all_keeps qs (after q w) r (after_keeps q w r h)
