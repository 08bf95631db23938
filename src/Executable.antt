-- ===== src/Executable.antt =====
-- compact-js/compact-js/src/effect/ContractExecutable.ts: the executable form of a compiled contract.
-- An effect that fails carries an error; one that throws where nothing catches dies.
pub mod Parameters
pub mod Operations
pub mod Keeps
pub mod Instances
use midnight_js.Prelude.{
  ℕ, ◌+◌, Bool, Option, none, some, List, [], ◌∷◌, length, if◌then◌else◌, Text, Result, ok, err,
  map,
}
use midnight_js.Prelude.Exec.{Exec, pure, throw, lift, ◌>>=◌, ◌>>◌}
use midnight_js.Platform.Hex.{BrandError}
use midnight_js.Platform.Keys.{signing_key}
use Parameters.{Toolkit, Op, Instance, CompiledContract}

pub data Cause (kit : Toolkit) : Type 0 where
  thrown : kit.Thrown → Cause kit
  brand : BrandError → Cause kit
  circuit_not_found : Text → Cause kit
  partition_count : ℕ → Cause kit

-- ContractRuntimeError, ContractConfigurationError and ZKConfigurationReadError, by their messages,
-- and the death of an effect.
pub data Failure (kit : Toolkit) : Type 0 where
  initialization_failed : Cause kit → Failure kit
  constructor_context_failed : Cause kit → Failure kit
  circuit_undefined : Text → kit.ContractState → Failure kit
  verifier_key_refused : Text → kit.ContractState → Cause kit → Failure kit
  circuit_failed : Text → Cause kit → Failure kit
  signing_key_required : kit.ContractState → Failure kit
  bad_signing_key : Text → Option kit.ContractState → Cause kit → Failure kit
  read_failed : Cause kit → Failure kit
  died : Cause kit → Failure kit

-- The executable's backing field `contract`, once its effect has run, and what is outside.
pub record Machine (kit : Toolkit) : Type 0 where
  pub contract : Option (Result kit.Thrown (Instance kit))
  pub ext : kit.Ext

-- Configuration.Keys
pub record KeyConfig : Type 0 where
  pub coin_public_key : Text
  pub configured_signing_key : Option Text

pub record ContractContext (kit : Toolkit) : Type 0 where
  pub address : Text
  pub contract_state : kit.ContractState

abbrev pub E : Toolkit → Type 0 → Type 0
E kit A = Exec (Failure kit) (Machine kit) A

abbrev pub map_thrown : {T F A : Type 0} → (T → F) → Result T A → Result F A
map_thrown f (ok a) = ok a
map_thrown f (err e) = err (f e)

-- Nothing catches what is thrown here.
abbrev pub dies : (kit : Toolkit) → kit.Thrown → Failure kit
dies kit e = died (thrown e)

module _ {kit : Toolkit} {A : Type 0} where
  -- A call outside, with what becomes of an exception.
  unfoldable pub call_out : (kit.Thrown → Failure kit) → Op kit A → E kit A
  call_out on_throw op w =
      let (r, ext') = op w.ext in (map_thrown on_throw r, record w { ext = ext' })

  -- A function that may throw.
  abbrev pub library : (kit.Thrown → Failure kit) → Result kit.Thrown A → E kit A
  library on_throw r = lift (map_thrown on_throw r)

-- `DEFAULT_CMA_THRESHOLD` and `DEFAULT_SIGNATURE_INDEX`
abbrev pub default_cma_threshold : ℕ
default_cma_threshold = 1

abbrev pub default_signature_index : ℕ
default_signature_index = 0

abbrev pub next_counter : (kit : Toolkit) → Option kit.ContractState → ℕ
next_counter kit none = 0
next_counter kit (some state) = kit.authority_counter state + 1

module _ {kit : Toolkit} where
  abbrev first_run :
      Result kit.Thrown (Instance kit) × kit.Ext → Result (Failure kit) (Instance kit) × Machine kit
  first_run (r, ext') = (map_thrown (dies kit) r, record { contract = some r; ext = ext' })

  abbrev cached :
      CompiledContract kit
      → Option (Result kit.Thrown (Instance kit))
      → Machine kit
      → Result (Failure kit) (Instance kit) × Machine kit
  cached compiled (some r) w = (map_thrown (dies kit) r, w)
  cached compiled none w = first_run (compiled w.ext)

  -- `createContract`: the cached effect runs the constructor at its first use, and `Effect.sync` turns
  -- an exception into a death, which `mapError` does not see.
  unfoldable pub create_contract : CompiledContract kit → E kit (Instance kit)
  create_contract compiled w = cached compiled w.contract w

  unfoldable pub sampled : Result BrandError Text → E kit Text
  sampled (ok key) = pure key
  sampled (err e) = throw (died (brand e))

  -- `Option.match(key, { onSome: identity, onNone: ... })`
  unfoldable pub key_or_sample : Option Text → E kit Text
  key_or_sample (some key) = pure key
  key_or_sample none = do
    key ← call_out (dies kit) kit.sample_signing_key
    sampled (signing_key key)

  unfoldable pub create_maintenance_authority :
      Option Text → Option kit.ContractState → E kit (kit.Authority × Text)
  unfolding key_or_sample
  create_maintenance_authority key state = do
    signing_key ← key_or_sample key
    verifying_key ←
        library (λ e. bad_signing_key signing_key state (thrown e))
          (kit.signature_verifying_key signing_key)
    authority ←
        library (λ e. bad_signing_key signing_key state (thrown e))
          (kit.new_authority (verifying_key ∷ []) default_cma_threshold (next_counter kit state))
    pure (authority, signing_key)

  unfoldable pub signed_by :
      Result kit.Thrown kit.SingleUpdate
      → ContractContext kit
      → Option Text
      → E kit (kit.MaintenanceUpdate × Text)
  signed_by create_update context none = throw (signing_key_required context.contract_state)
  signed_by create_update context (some key) = do
    single ← library (dies kit) create_update
    update ← library (dies kit) (
        kit.new_maintenance_update context.address (single ∷ [])
          (kit.authority_counter context.contract_state))
    signed ← call_out (dies kit) (kit.sign_update update default_signature_index key)
    pure (signed, key)

  -- The signed update, and the key that has signed it. `create_update` is what `createUpdateFn`
  -- returns, or throws, where it is called.
  unfoldable pub create_signed_maintenance_update :
      Result kit.Thrown kit.SingleUpdate
      → KeyConfig
      → ContractContext kit
      → E kit (kit.MaintenanceUpdate × Text)
  create_signed_maintenance_update create_update config context =
      signed_by create_update context config.configured_signing_key
