-- ===== src/Examples/Configurations.antt =====
-- A configuration file that is edited between two compilations.
use midnight_js.Prelude.{
  refl, true, none, some, List, [], ◌∷◌, arith, if◌then◌else◌, Text, codes, text_eq, ok, update,
}
use midnight_js.Prelude.Exec.{pure, ◌>>=◌}
use midnight_js.Commands.Config.{
  Toolchain, Disk, ModuleSpec, compile_and_load, compile, read_file, read_module, exists,
  write_file, import_time, get_file_path_properties, create_compiler, compile_source, transpile,
  transpile_type_script, import_code, load,
}
use midnight_js.Commands.Config.Sources.{Loaded, ReadsOthers}
use midnight_js.Commands.Config.Edits.{edit, wait, run, Event, compile_loads_current}

-- A compiler that copies, and an import that gives the content.
abbrev copying : Toolchain
copying = record {
  Ext = Unit {0};
  FsError = Text;
  Thrown = Text;
  Module = Text;
  access = λ e. (none, e);
  no_such_file = λ path. path;
  resolve = λ path. path;
  dir = λ path. [];
  base_name = λ path. codes "c";
  join_paths = λ d name. name;
  torn = λ ext content before. before;
  create = λ files d. ok tt;
  compile = λ files d content path. ok content;
  is_ts_error = λ e. true;
  import_module = λ files code. ok code;
  import_error = λ e. e;
}

copying_reads : ReadsOthers copying (codes "c.ts")
copying_reads = record {
  compiles = λ base files same source. refl;
  imports = λ base files same code. refl;
}

abbrev first_source : Disk copying
first_source = record {
  files = λ path.
      if text_eq path (codes "c.ts")
      then some (record { content = codes "one"; modified = 3 })
      else none;
  ext = tt;
  now = 5;
}

abbrev two_runs : List Event
two_runs = run ∷ edit (codes "c.ts") (codes "two") ∷ run ∷ wait 4 ∷ []

abbrev two : ModuleSpec copying
two = record { module_import_directory_path = []; loaded = codes "two" }

compile_loads_current_example :
    Loaded copying
      (codes "c.ts")
      first_source.files
      (compile copying (codes "c.ts") (record {
        files =
            update
              (update
                (update first_source.files
                  (codes "c.js")
                  (record { content = codes "one"; modified = 5 }))
                (codes "c.ts")
                (record { content = codes "two"; modified = 5 }))
              (codes "c.js")
              (record { content = codes "two"; modified = 5 });
        ext = tt;
        now = 9;
      })).1.files
      two
unfolding text_eq compile compile_and_load read_file read_module exists write_file import_time
    get_file_path_properties create_compiler compile_source transpile transpile_type_script
    import_code load pure ◌>>=◌
compile_loads_current_example =
    compile_loads_current copying (codes "c.ts") refl (λ e. refl) copying_reads first_source
      (refl, λ f h. grind (arith, h)) two_runs (tt, (refl, (tt, (tt, tt)))) two _ refl
