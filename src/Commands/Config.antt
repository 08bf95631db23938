-- ===== src/Commands/Config.antt =====
-- compact-js/compact-js-command/src/effect/ConfigCompiler.ts: the configuration file is compiled to
-- JavaScript beside it, if that is not newer, and then imported. Paths, the compiler and the import
-- are parameters. One compilation is one process, so that no import is cached.
pub mod Accesses
pub mod Sources
pub mod Fresh
pub mod Edits
pub mod Resolves
use midnight_js.Prelude.{
  ℕ, zero, suc, ◌+◌, ◌-◌, ◌*◌, ◌/◌, ◌%◌, ◌≤◌, ◌<◌, ◌≡◌, refl, sym, ap, subst, ◌∙◌, ◌≢◌, ◌↔◌, ◌⊎◌,
  inl, inr, Bool, true, false, not, ◌&&◌, ◌||◌, Option, none, some, List, [], ◌∷◌, ◌++◌, map, arith,
  ltb, leb, ◌==◌, if◌then◌else◌, ==_iff, Bool-cases, Option-cases, length, get_elem?, is_empty, any,
  all, length-append, All, Text, codes, text_eq, text_eq_iff, text_eq_refl, Result, ok, err,
  throw_if, Result-cases, Returns, returns, throws, ◌⟫◌, weaken, of_ok, if-Returns, anything,
  Entries, map_get, map_set, map_delete, keys, map_get-map_set, map_get-map_delete, update,
}
use midnight_js.Prelude.Exec.{Exec, pure, throw, lift, gets, ◌>>=◌, ◌>>◌}

-- A file with the time of its last change.
pub record File : Type 0 where
  pub content : Text
  pub modified : ℕ

pub record Toolchain : Type 1 where
  -- Everything else outside, errors of the file system, what is thrown, and modules.
  pub Ext : Type 0
  pub FsError : Type 0
  pub Thrown : Type 0
  pub Module : Type 0
  -- An access of the medium, which may fail; a missing file is an error of its own.
  pub access : Ext → Option FsError × Ext
  pub no_such_file : Text → FsError
  pub resolve : Text → Text
  pub dir : Text → Text
  pub base_name : Text → Text
  pub join_paths : Text → Text → Text
  -- What a write of this content that failed left in its file, after what the file held before.
  pub torn : Ext → Text → Option File → Option File
  -- `create({ cwd })`, its `compile(content, fileName)`, and `err?.name === 'TSError'`. The files are
  -- those that ts-node finds, such as tsconfig.json and what the content imports.
  pub create : (Text → Option File) → Text → Result Thrown (Unit {0})
  pub compile : (Text → Option File) → Text → Text → Text → Result Thrown Text
  pub is_ts_error : Thrown → Bool
  -- The first import of a module with this code in a process, among these files.
  pub import_module : (Text → Option File) → Text → Result Thrown Module
  -- what an import of a file that cannot be read throws
  pub import_error : FsError → Thrown

-- The files, what else is outside, and the clock.
pub record Disk (chain : Toolchain) : Type 0 where
  pub files : Text → Option File
  pub ext : chain.Ext
  pub now : ℕ

-- The cause of the ConfigError that loading fails with.
pub data ConfigCause (chain : Toolchain) : Type 0 where
  platform : chain.FsError → ConfigCause chain
  compilation_failed unexpected import_failed : chain.Thrown → ConfigCause chain

pub record ConfigError (chain : Toolchain) : Type 0 where
  pub file_path : Text
  pub cause : ConfigCause chain

pub record ModuleSpec (chain : Toolchain) : Type 0 where
  pub module_import_directory_path : Text
  pub loaded : chain.Module

pub record FilePathProperties : Type 0 where
  pub absolute_file_path : Text
  pub absolute_working_directory : Text
  pub absolute_file_import_path : Text
  pub requires_compilation : Bool

module _ (chain : Toolchain) where
  abbrev pub C : Type 0 → Type 0
  C A = Exec (ConfigCause chain) (Disk chain) A

  abbrev answered :
      {A : Type 0}
      → Option chain.FsError
      → Result (ConfigCause chain) A
      → Result (ConfigCause chain) A
  answered none r = r
  answered (some e) r = err (platform e)

  abbrev found : Text → Option File → Result (ConfigCause chain) File
  found path none = err (platform (chain.no_such_file path))
  found path (some file) = ok file

  -- `fs.stat` and `fs.readFileString`
  unfoldable pub read_file : Text → C File
  read_file path disk =
      let (failed, ext') = chain.access disk.ext in
      (answered failed (found path (disk.files path)), record disk { ext = ext' })

  abbrev present : Option File → Bool
  present none = false
  present (some file) = true

  unfoldable pub exists : Text → C Bool
  exists path disk =
      let (failed, ext') = chain.access disk.ext in
      (answered failed (ok (present (disk.files path))), record disk { ext = ext' })

  abbrev stored : Option chain.FsError → Text → Text → Disk chain → Disk chain
  stored none path content disk = record disk {
    files = update disk.files path (record { content = content; modified = disk.now });
  }
  stored (some e) path content disk = record disk {
    files =
        λ p. if text_eq path p then chain.torn disk.ext content (disk.files p) else disk.files p;
  }

  unfoldable pub write_file : Text → Text → C (Unit {0})
  write_file path content disk =
      let (failed, ext') = chain.access disk.ext in
      (answered failed (ok tt), stored failed path content (record disk { ext = ext' }))

  -- The modification times are there.
  unfoldable pub import_time : Bool → Text → ℕ → C ℕ
  import_time false path source_time = pure source_time
  import_time true path source_time = do file ← read_file path; pure file.modified

  unfoldable pub get_file_path_properties : Text → C FilePathProperties
  unfolding import_time
  get_file_path_properties file_path = do
    let path = chain.resolve file_path
    let import_path = chain.join_paths (chain.dir path) (chain.base_name path ++ codes ".js")
    source ← read_file path
    there ← exists import_path
    time ← import_time there import_path source.modified
    pure (record {
      absolute_file_path = path;
      absolute_working_directory = chain.dir path;
      absolute_file_import_path = import_path;
      requires_compilation = leb time source.modified;
    })

  abbrev caught : {A : Type 0} → Result chain.Thrown A → Result (ConfigCause chain) A
  caught (ok s) = ok s
  caught (err e) = err (if chain.is_ts_error e then compilation_failed e else unexpected e)

  unfoldable pub create_compiler : Text → C (Unit {0})
  create_compiler directory disk = (caught (chain.create disk.files directory), disk)

  unfoldable pub compile_source : FilePathProperties → Text → C Text
  compile_source properties content disk = (
    caught (
        chain.compile disk.files properties.absolute_working_directory content
          properties.absolute_file_path),
    disk,
  )

  unfoldable pub transpile : FilePathProperties → C (Unit {0})
  unfolding create_compiler compile_source
  transpile properties = do
    create_compiler properties.absolute_working_directory
    source ← read_file properties.absolute_file_path
    compiled ← compile_source properties source.content
    write_file properties.absolute_file_import_path compiled

  unfoldable pub transpile_type_script : FilePathProperties → C Text
  unfolding transpile
  transpile_type_script properties =
      (if properties.requires_compilation then transpile properties else pure tt)
      >> pure properties.absolute_file_import_path

  abbrev imported : Result chain.Thrown chain.Module → Result (ConfigCause chain) chain.Module
  imported (ok m) = ok m
  imported (err e) = err (import_failed e)

  abbrev pub refused : Result (ConfigCause chain) File → Result (ConfigCause chain) File
  refused (ok file) = ok file
  refused (err (platform e)) = err (import_failed (chain.import_error e))
  refused (err e) = err e

  unfoldable pub read_module : Text → C File
  unfolding read_file
  read_module path disk = let (r, disk') = read_file path disk in (refused r, disk')

  unfoldable pub import_code : Text → C chain.Module
  import_code code disk = (imported (chain.import_module disk.files code), disk)

  unfoldable pub load : Text → C (ModuleSpec chain)
  unfolding import_code
  load import_path = do
    file ← read_module import_path
    m ← import_code file.content
    pure (record { module_import_directory_path = chain.dir import_path; loaded = m })

  abbrev map_error :
      {A : Type 0} → Text → Result (ConfigCause chain) A → Result (ConfigError chain) A
  map_error file_path (ok a) = ok a
  map_error file_path (err e) = err (record { file_path = file_path; cause = e })

  unfoldable pub compile_and_load : Text → C (ModuleSpec chain)
  unfolding get_file_path_properties transpile_type_script load
  compile_and_load file_path = do
    properties ← get_file_path_properties file_path
    import_path ← transpile_type_script properties
    load import_path

  -- `compile(filePath)`
  unfoldable pub compile : Text → Exec (ConfigError chain) (Disk chain) (ModuleSpec chain)
  unfolding compile_and_load
  compile file_path disk =
      let (r, disk') = compile_and_load file_path disk in (map_error file_path r, disk')
