-- ===== src/Commands/Config/Fresh.antt =====
-- The module that ConfigCompiler.ts of compact-js-command imports is that of the current source,
-- however the source is edited between the compilations.
use midnight_js.Prelude.{
  ℕ, ◌<◌, ◌≡◌, refl, sym, ◌∙◌, Bool, true, false, Option, none, some, arith, leb, Text, text_eq,
  text_eq_refl, ok, update,
}
use midnight_js.Prelude.Exec.Triples.{
  Triple, Triple-bind, Triple-pure, Triple-if, Triple-weaken, Triple-weaken_rejects,
}
use midnight_js.Commands.Config.{
  File, Toolchain, Disk, ConfigCause, FilePathProperties, import_time, get_file_path_properties,
  create_compiler, compile_source, transpile, transpile_type_script, import_code, load,
  compile_and_load, present,
}
use midnight_js.Commands.Config.Accesses.{
  caught-ok, imported-ok, On, Triple-read_file, Triple-read_module, Triple-exists,
  Triple-write_file, Triple-reads,
}
use midnight_js.Commands.Config.Sources.{
  source_path, import_path, ReadsOthers, CompilesTo, Fresh, Current, Loaded,
}

module _ (chain : Toolchain) (file_path : Text) (base : Text → Option File)
    (apart : text_eq (import_path chain file_path) (source_path chain file_path) ≡ false)
    (works : (e : chain.Ext) → (chain.access e).0 ≡ none)
    (reads : ReadsOthers chain file_path) where
  Fresh-update :
      (f : File) (code : Text) (files : Text → Option File) (now : ℕ)
      → CompilesTo chain file_path base f.content code
      → Fresh chain file_path base files now × (files (source_path chain file_path) ≡ some f)
      → Fresh chain file_path base
          (update files (import_path chain file_path) (record { content = code; modified = now }))
          now
        × Current chain file_path base
            (update files (import_path chain file_path) (record { content = code; modified = now }))
            now
  Fresh-update f code files now compiled (fresh, e) =
      let written : File = record { content = code; modified = now } in
      let here : update files (import_path chain file_path) written (import_path chain file_path)
          ≡ some written =
        rw (text_eq_refl (import_path chain file_path)) refl in
      let there : update files (import_path chain file_path) written (source_path chain file_path)
          ≡ files (source_path chain file_path) =
        rw apart refl in
      (
        record {
          source_past = λ g h. fresh.source_past g (sym there ∙ h);
          output_past = λ t h. grind (arith, here, h);
          others = λ path x y. rw y (fresh.others path x y);
          newer = λ g t h k lt. grind (arith, here, there, h, k, e, compiled);
        },
        (f, written, there ∙ e, here, compiled),
      )

  abbrev pub located : Bool → FilePathProperties
  located b = record {
    absolute_file_path = (source_path chain file_path);
    absolute_working_directory = chain.dir (source_path chain file_path);
    absolute_file_import_path = (import_path chain file_path);
    requires_compilation = b;
  }

  abbrev UpToDate : (Text → Option File) → Type 0
  UpToDate files =
      (f : File) × (t : File) × (files (source_path chain file_path) ≡ some f)
      × (files (import_path chain file_path) ≡ some t)
      × (f.modified < t.modified)

  abbrev Rejects : ConfigCause chain → Disk chain → Type 0
  Rejects e s = Fresh chain file_path base s.files s.now

  import_time_lem :
      (there : Bool) (f : File)
      → Triple
          (λ s.
            (Fresh chain file_path base s.files s.now
              × (s.files (source_path chain file_path) ≡ some f))
            × (present chain (s.files (import_path chain file_path)) ≡ there))
          (import_time chain there (import_path chain file_path) f.modified)
          (λ time s.
            Fresh chain file_path base s.files s.now
            × (leb time f.modified ≡ false → UpToDate s.files))
          Rejects
  unfolding import_time
  import_time_lem false f = Triple-pure f.modified λ s h. (h.0.0, λ newer. absurd (grind arith))
  import_time_lem true f =
      Triple-weaken _ (λ s h. h.0)
        (Triple-bind _ _
          (Triple-weaken_rejects _
            (Triple-read_file
              (λ files now.
                Fresh chain file_path base files now
                × (files (source_path chain file_path) ≡ some f))
              (import_path chain file_path))
            (λ _ s h. h.0))
          λ t. Triple-pure t.modified λ s h. (h.0.0, λ newer. (f, t, h.0.1, h.1, grind arith)))
        λ _ _ h. h

  get_file_path_properties_lem :
      Triple
        (On (Fresh chain file_path base))
        (get_file_path_properties chain file_path)
        (λ props s.
          Fresh chain file_path base s.files s.now
          × ((b : Bool) × (props ≡ located b) × (b ≡ false → UpToDate s.files)))
        Rejects
  unfolding get_file_path_properties
  get_file_path_properties_lem =
      Triple-bind _ _ (Triple-read_file (Fresh chain file_path base) (source_path chain file_path))
        λ f.
          Triple-bind _ _
            (Triple-weaken_rejects _
              (Triple-exists
                (λ files now.
                  Fresh chain file_path base files now
                  × (files (source_path chain file_path) ≡ some f))
                (import_path chain file_path))
              (λ _ s h. h.0))
            λ there.
              Triple-bind _ _ (import_time_lem there f)
                λ time. Triple-pure _ λ s h. (h.0, (leb time f.modified, refl, h.1))

  transpile_lem :
      (b : Bool)
      → Triple
          (On (Fresh chain file_path base))
          (transpile chain (located b))
          (λ _ s.
            Fresh chain file_path base s.files s.now × Current chain file_path base s.files s.now)
          Rejects
  unfolding transpile create_compiler compile_source
  transpile_lem b = Triple-bind _ _ (Triple-reads _ (λ _ s _ h. h) (λ _ s h. h)) λ _.
      Triple-bind _ _ (Triple-read_file (Fresh chain file_path base) (source_path chain file_path))
        λ f.
          Triple-bind _ _
            (Triple-reads
              {P = λ s.
                Fresh chain file_path base s.files s.now
                × (s.files (source_path chain file_path) ≡ some f)}
              {Q = λ code s.
                CompilesTo chain file_path base f.content code
                × Fresh chain file_path base s.files s.now
                × (s.files (source_path chain file_path) ≡ some f)}
              {X = Rejects} _
              (λ code s e h.
                (sym (reads.compiles base s.files h.0.others f.content) ∙ caught-ok _ e, h.0, h.1))
              (λ _ s h. h.0))
            λ code.
              Triple-weaken_rejects _
                (Triple-write_file
                  (λ files now.
                    CompilesTo chain file_path base f.content code
                    × Fresh chain file_path base files now
                    × (files (source_path chain file_path) ≡ some f))
                  (λ files now.
                    Fresh chain file_path base files now × Current chain file_path base files now)
                  (import_path chain file_path) code
                  (λ files now h. Fresh-update f code files now h.0 (h.1, h.2)) works)
                λ _ s h. h.1

  transpile_type_script_lem :
      (b : Bool)
      → Triple
          (λ s. Fresh chain file_path base s.files s.now × (b ≡ false → UpToDate s.files))
          (transpile_type_script chain (located b))
          (λ path s.
            (path ≡ (import_path chain file_path))
            × Fresh chain file_path base s.files s.now
            × Current chain file_path base s.files s.now)
          Rejects
  unfolding transpile_type_script
  transpile_type_script_lem b =
      Triple-bind
        {R = λ _ s.
          Fresh chain file_path base s.files s.now × Current chain file_path base s.files s.now}
        _ _
        (Triple-if b _ _ (λ _. Triple-weaken _ (λ s h. h.0) (transpile_lem b) (λ _ _ h. h))
          (λ h. Triple-pure tt λ s p. (p.0, up_to_date s.files s.now p.0 (p.1 h))))
        λ _. Triple-pure _ λ s h. (refl, h.0, h.1)
    where
      up_to_date :
          (files : Text → Option File) (now : ℕ)
          → Fresh chain file_path base files now
          → UpToDate files
          → Current chain file_path base files now
      up_to_date files now fresh (f, t, source, output, lt) =
          (f, t, source, output, fresh.newer f t source output lt)

  loaded_lem :
      (file : File) (m : chain.Module) (files : Text → Option File) (now : ℕ)
      → chain.import_module base file.content ≡ ok m
      → Current chain file_path base files now
      → files (import_path chain file_path) ≡ some file
      → Loaded chain file_path base files (record {
        module_import_directory_path = chain.dir (import_path chain file_path);
        loaded = m;
      })
  loaded_lem file m files now e (f, t, source, output, compiled) read =
      (f, t.content, source, compiled, grind (arith, e, output, read))

  load_lem :
      Triple
        (λ s. Fresh chain file_path base s.files s.now × Current chain file_path base s.files s.now)
        (load chain (import_path chain file_path))
        (λ spec s.
          Fresh chain file_path base s.files s.now × Loaded chain file_path base s.files spec)
        Rejects
  unfolding load import_code
  load_lem =
      Triple-bind _ _
        (Triple-weaken_rejects _
          (Triple-read_module
            (λ files now.
              Fresh chain file_path base files now × Current chain file_path base files now)
            (import_path chain file_path))
          (λ _ _ h. h.0))
        λ file.
          Triple-bind _ _
            (Triple-reads
              {P = λ s.
                (Fresh chain file_path base s.files s.now
                  × Current chain file_path base s.files s.now)
                × (s.files (import_path chain file_path) ≡ some file)}
              {Q = λ m s.
                (chain.import_module base file.content ≡ ok m)
                × ((Fresh chain file_path base s.files s.now
                      × Current chain file_path base s.files s.now)
                    × (s.files (import_path chain file_path) ≡ some file))}
              _
              (λ m s e h.
                (sym (reads.imports base s.files h.0.0.others file.content) ∙ imported-ok _ e, h))
              (λ _ s h. h.0.0))
            λ m. Triple-pure _ λ s h. (h.1.0.0, loaded_lem file m s.files s.now h.0 h.1.0.1 h.1.1)

  pub compile_and_load_lem :
      Triple
        (On (Fresh chain file_path base))
        (compile_and_load chain file_path)
        (λ spec s.
          Fresh chain file_path base s.files s.now × Loaded chain file_path base s.files spec)
        Rejects
  unfolding compile_and_load
  compile_and_load_lem = Triple-bind _ _ get_file_path_properties_lem λ props.
      Triple-bind
        {R = λ path s.
          (path ≡ (import_path chain file_path))
          × Fresh chain file_path base s.files s.now
          × Current chain file_path base s.files s.now}
        _ _
        (record {
          at = λ s (fresh, (b, e, up)). rw e ((transpile_type_script_lem b).at s (fresh, up));
        })
        λ path. record { at = λ s (e, fresh, current). rw e (load_lem.at s (fresh, current)) }
