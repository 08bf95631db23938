-- ===== src/Commands/Config/Resolves.antt =====
-- When ConfigCompiler.ts of compact-js-command resolves.
use midnight_js.Prelude.{◌≡◌, false, Option, none, some, Text, text_eq, ok}
use midnight_js.Commands.Config.{File, Toolchain, Disk, ConfigCause}
use midnight_js.Commands.Config.Sources.{source_path, import_path, ReadsOthers, CompilesTo}

module _ (chain : Toolchain) (file_path : Text) (base : Text → Option File)
    (apart : text_eq (import_path chain file_path) (source_path chain file_path) ≡ false)
    (works : (e : chain.Ext) → (chain.access e).0 ≡ none) (reads : ReadsOthers chain file_path)
    (created : (files : Text → Option File)
      → chain.create files (chain.dir (source_path chain file_path)) ≡ ok tt)
    (compiles : (files : Text → Option File) (source : Text)
      → (code : Text) × CompilesTo chain file_path files source code)
    (imports : (files : Text → Option File) (code : Text)
      → (m : chain.Module) × (chain.import_module files code ≡ ok m)) where
  abbrev HasSource : Disk chain → Type 0
  HasSource s = (f : File) × (s.files (source_path chain file_path) ≡ some f)

  abbrev HasOutput : Disk chain → Type 0
  HasOutput s = (f : File) × (s.files (import_path chain file_path) ≡ some f)

  abbrev Never : ConfigCause chain → Disk chain → Type 0
  Never e s = ⊥
