-- ===== src/Commands/Config/Edits.antt =====
-- Compilations by ConfigCompiler.ts of compact-js-command between edits of the files.
use midnight_js.Prelude.{
  ℕ, ◌+◌, ◌≤◌, ◌≡◌, Option, refl, sym, ap, subst, ◌∙◌, false, none, some, List, [], ◌∷◌, arith, All,
  Text, text_eq, text_eq_iff, text_eq_refl, Result, ok, err, update,
}
use midnight_js.Prelude.Exec.Triples.{Post}
use midnight_js.Commands.Config.{
  File, Toolchain, Disk, ConfigCause, ModuleSpec, compile_and_load, compile, map_error,
}
use midnight_js.Commands.Config.Sources.{
  source_path, import_path, OthersAre, ReadsOthers, Fresh, Loaded,
}
use midnight_js.Commands.Config.Fresh.{compile_and_load_lem}

-- Files are edited, time passes, and the configuration is compiled.
pub data Event : Type 0 where
  edit : Text → Text → Event
  wait : ℕ → Event
  run : Event

module _ (chain : Toolchain) (file_path : Text) where
  abbrev pub after_event : Event → Disk chain → Disk chain
  after_event (edit path content) disk = record disk {
    files = update disk.files path (record { content = content; modified = disk.now });
  }
  after_event (wait n) disk = record disk { now = disk.now + n }
  after_event run disk = (compile chain file_path disk).1

  abbrev pub after : List Event → Disk chain → Disk chain
  after [] disk = disk
  after (event ∷ events) disk = after events (after_event event disk)

  -- Only the source is edited.
  abbrev pub EditsSource : Event → Type 0
  EditsSource (edit path content) = path ≡ source_path chain file_path
  EditsSource (wait n) = Unit
  EditsSource run = Unit

  -- There is no output yet, and the source is not from the future.
  abbrev pub Initial : Disk chain → Type 0
  Initial disk =
      (disk.files (import_path chain file_path) ≡ none)
      × ((f : File) → disk.files (source_path chain file_path) ≡ some f → f.modified ≤ disk.now)

text_eq-sym : (s t : Text) → text_eq t s ≡ false → text_eq s t ≡ false
text_eq-sym s t h = ground (arith, text_eq_iff s t, text_eq_iff t s)

module _ (chain : Toolchain) (file_path : Text) (base : Text → Option File) where
  abbrev FreshDisk : Disk chain → Type 0
  FreshDisk disk = Fresh chain file_path base disk.files disk.now

  Fresh-Initial :
      (disk : Disk chain)
      → OthersAre chain file_path base disk.files
      → Initial chain file_path disk
      → FreshDisk disk
  Fresh-Initial disk others (absent, past) = record {
    others = others;
    source_past = past;
    output_past = λ t h. grind (arith, absent, h);
    newer = λ f t h k lt. grind (arith, absent, k);
  }

  fresh_wait :
      (n : ℕ) (disk : Disk chain)
      → FreshDisk disk
      → FreshDisk (after_event chain file_path (wait n) disk)
  fresh_wait n disk fresh = record {
    others = fresh.others;
    source_past = λ f h. omega (arith, fresh.source_past f h);
    output_past = λ t h. omega (arith, fresh.output_past t h);
    newer = fresh.newer;
  }

  module _ (apart : text_eq (import_path chain file_path) (source_path chain file_path) ≡ false)
      (works : (e : chain.Ext) → (chain.access e).0 ≡ none)
      (reads : ReadsOthers chain file_path) where
    fresh_edit :
        (path content : Text) (disk : Disk chain)
        → path ≡ source_path chain file_path
        → FreshDisk disk
        → FreshDisk (after_event chain file_path (edit path content) disk)
    fresh_edit path content disk same fresh =
        let written : File = record { content = content; modified = disk.now } in
        let source : update disk.files path written (source_path chain file_path) ≡ some written =
          rw (same, text_eq_refl (source_path chain file_path)) refl in
        let output : update disk.files path written (import_path chain file_path)
            ≡ disk.files (import_path chain file_path) =
          rw (same, text_eq-sym (source_path chain file_path) (import_path chain file_path) apart)
            refl in
        record {
          others = λ other x y. rw (same, x) (fresh.others other x y);
          source_past = λ f h. grind (arith, source, h);
          output_past = λ t h. fresh.output_past t (sym output ∙ h);
          newer =
              λ f t h k lt. absurd (grind (arith, source, h, fresh.output_past t (sym output ∙ k)));
        }

    fresh_event :
        (event : Event) (disk : Disk chain)
        → EditsSource chain file_path event
        → FreshDisk disk
        → FreshDisk (after_event chain file_path event disk)
    unfolding compile
    fresh_event (edit path content) disk h fresh = fresh_edit path content disk h fresh
    fresh_event (wait n) disk h fresh = fresh_wait n disk fresh
    fresh_event run disk h fresh =
        kept (compile_and_load chain file_path disk).0 (compile_and_load chain file_path disk).1
          ((compile_and_load_lem chain file_path base apart works reads).at disk fresh)
      where
        kept :
            (r : Result (ConfigCause chain) (ModuleSpec chain)) (s : Disk chain)
            → Post
                (λ spec t. FreshDisk t × Loaded chain file_path base t.files spec)
                (λ _ t. FreshDisk t)
                r
                s
            → FreshDisk s
        kept (ok spec) s h = h.0
        kept (err e) s h = h

    fresh_after :
        (events : List Event) (disk : Disk chain)
        → All (EditsSource chain file_path) events
        → FreshDisk disk
        → FreshDisk (after chain file_path events disk)
    fresh_after [] disk h fresh = fresh
    fresh_after (event ∷ events) disk h fresh =
        fresh_after events (after_event chain file_path event disk) h.1
          (fresh_event event disk h.0 fresh)

-- On a medium that never fails, with a compiler and an import that read, of the files, others than the
-- source and the output only, each compilation in a process of its own: from files without an output,
-- after any edits of the source, other compilations and time, where a compilation resolves, its module
-- is what importing the compiler's code of the source that is then on disk gives, whether the compiler
-- ran this time or not.
pub compile_loads_current :
    (chain : Toolchain) (file_path : Text)
    → text_eq (import_path chain file_path) (source_path chain file_path) ≡ false
    → ((e : chain.Ext) → (chain.access e).0 ≡ none)
    → ReadsOthers chain file_path
    → (disk : Disk chain) → Initial chain file_path disk
    → (events : List Event) → All (EditsSource chain file_path) events
    → (spec : ModuleSpec chain) (disk' : Disk chain)
    → compile chain file_path (after chain file_path events disk) ≡ (ok spec, disk')
    → Loaded chain file_path disk.files disk'.files spec
unfolding compile
compile_loads_current chain file_path apart works reads disk initial events edits spec disk' h =
    let before = after chain file_path events disk in
    let fresh =
      fresh_after chain file_path disk.files apart works reads events disk edits
        (Fresh-Initial chain file_path disk.files disk (λ path x y. refl) initial) in
    go (compile_and_load chain file_path before).0 (compile_and_load chain file_path before).1
      ((compile_and_load_lem chain file_path disk.files apart works reads).at before fresh)
      (ap (λ o. o.0) h) (ap (λ o. o.1) h)
  where
    go :
        (r : Result (ConfigCause chain) (ModuleSpec chain)) (s : Disk chain)
        → Post
            (λ m t.
              Fresh chain file_path disk.files t.files t.now
              × Loaded chain file_path disk.files t.files m)
            (λ _ t. Fresh chain file_path disk.files t.files t.now)
            r
            s
        → map_error chain file_path r ≡ ok spec
        → s ≡ disk'
        → Loaded chain file_path disk.files disk'.files spec
    go (ok m) s p e same =
        let loads : m ≡ spec = grind (arith, e) in
        subst (λ x. Loaded chain file_path disk.files disk'.files x) loads
          (subst (λ (t : Disk chain). Loaded chain file_path disk.files t.files m) same p.1)
    go (err x) s p e same = absurd (grind (arith, e))
