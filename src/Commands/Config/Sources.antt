-- ===== src/Commands/Config/Sources.antt =====
-- The source and the output of ConfigCompiler.ts of compact-js-command, and what is kept true of them.
use midnight_js.Prelude.{ℕ, ◌≤◌, ◌<◌, ◌≡◌, false, Option, some, ◌++◌, Text, codes, text_eq, ok}
use midnight_js.Commands.Config.{File, Toolchain, ModuleSpec}

module _ (chain : Toolchain) (file_path : Text) where
  abbrev pub source_path : Text
  source_path = chain.resolve file_path

  abbrev pub import_path : Text
  import_path =
      chain.join_paths (chain.dir source_path) (chain.base_name source_path ++ codes ".js")

  -- The files are these but for the source and the output.
  abbrev pub OthersAre : (Text → Option File) → (Text → Option File) → Type 0
  OthersAre base files =
      (path : Text)
      → text_eq source_path path ≡ false
      → text_eq import_path path ≡ false
      → files path ≡ base path

  -- The compiler is given the source's text, and the import the output's. Of the files, what they
  -- give depends on others than these two only.
  pub record ReadsOthers : Type 0 where
    pub compiles :
        (base files : Text → Option File)
        → OthersAre base files
        → (source : Text)
        → chain.compile files (chain.dir source_path) source source_path
          ≡ chain.compile base (chain.dir source_path) source source_path
    pub imports :
        (base files : Text → Option File)
        → OthersAre base files
        → (code : Text) → chain.import_module files code ≡ chain.import_module base code

module _ (chain : Toolchain) (file_path : Text) (base : Text → Option File) where
  -- The code that the compiler makes of a source.
  abbrev pub CompilesTo : Text → Text → Type 0
  CompilesTo source code =
      chain.compile base (chain.dir (source_path chain file_path)) source
        (source_path chain file_path)
      ≡ ok code

  -- No file is from the future, and an output that is newer than the source is that of the source.
  pub record Fresh (files : Text → Option File) (now : ℕ) : Type 0 where
    pub source_past : (f : File) → files (source_path chain file_path) ≡ some f → f.modified ≤ now
    pub output_past : (t : File) → files (import_path chain file_path) ≡ some t → t.modified ≤ now
    pub others : OthersAre chain file_path base files
    pub newer :
        (f t : File)
        → files (source_path chain file_path) ≡ some f
        → files (import_path chain file_path) ≡ some t
        → f.modified < t.modified
        → CompilesTo f.content t.content

  -- The output is that of the source.
  abbrev pub Current : (Text → Option File) → ℕ → Type 0
  Current files now =
      (f : File) × (t : File) × (files (source_path chain file_path) ≡ some f)
      × (files (import_path chain file_path) ≡ some t)
      × CompilesTo f.content t.content

  -- The module is that of the source's code.
  abbrev pub Loaded : (Text → Option File) → ModuleSpec chain → Type 0
  Loaded files spec =
      (f : File) × (code : Text) × (files (source_path chain file_path) ≡ some f)
      × CompilesTo f.content code
      × (chain.import_module base code ≡ ok spec.loaded)
