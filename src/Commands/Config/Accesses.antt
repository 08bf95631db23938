-- ===== src/Commands/Config/Accesses.antt =====
-- What each access of the files by ConfigCompiler.ts of compact-js-command leaves true.
use midnight_js.Prelude.{ℕ, ◌≡◌, refl, Option, none, some, arith, Text, Result, ok, err, update}
use midnight_js.Prelude.Exec.Triples.{Post, Triple}
use midnight_js.Commands.Config.{
  File, Toolchain, Disk, read_file, read_module, refused, ConfigCause, platform, compilation_failed,
  unexpected, import_failed, exists, write_file, caught, imported, present, found, answered, stored,
}

module _ {chain : Toolchain} where
  pub caught-ok :
      (r : Result chain.Thrown Text) {code : Text} → caught chain r ≡ ok code → r ≡ ok code
  caught-ok (ok s) h = cc
  caught-ok (err e) h = ground arith

  pub imported-ok :
      (r : Result chain.Thrown chain.Module) {m : chain.Module} → imported chain r ≡ ok m → r ≡ ok m
  imported-ok (ok m) h = cc
  imported-ok (err e) h = ground arith

-- A predicate of the files and the clock, whatever else is outside.
abbrev pub On : {chain : Toolchain} → ((Text → Option File) → ℕ → Type 0) → Disk chain → Type 0
On P disk = P disk.files disk.now

module _ {chain : Toolchain} (P : (Text → Option File) → ℕ → Type 0) where
  pub Triple-read_file :
      (path : Text)
      → Triple
          (On P)
          (read_file chain path)
          (λ f s. On P s × (s.files path ≡ some f))
          (λ _ s. On P s)
  unfolding read_file
  Triple-read_file path = record { at = λ s p. go (chain.access s.ext).0 (s.files path) s refl p }
    where
      go :
          (failed : Option chain.FsError) (o : Option File) (s : Disk chain)
          → s.files path ≡ o
          → On P s
          → Post
              (λ f t. On P t × (t.files path ≡ some f))
              (λ _ t. On P t)
              (answered chain failed (found chain path o))
              (record s { ext = (chain.access s.ext).1 })
      go none none s e p = p
      go none (some f) s e p = (p, e)
      go (some x) o s e p = p

  pub Triple-read_module :
      (path : Text)
      → Triple
          (On P)
          (read_module chain path)
          (λ f s. On P s × (s.files path ≡ some f))
          (λ _ s. On P s)
  unfolding read_module
  Triple-read_module path = record {
    at = λ s p.
        go (read_file chain path s).0 (read_file chain path s).1 ((Triple-read_file path).at s p);
  }
    where
      go :
          (r : Result (ConfigCause chain) File) (s : Disk chain)
          → Post (λ f t. On P t × (t.files path ≡ some f)) (λ _ t. On P t) r s
          → Post (λ f t. On P t × (t.files path ≡ some f)) (λ _ t. On P t) (refused chain r) s
      go (ok f) s h = h
      go (err (platform e)) s h = h
      go (err (compilation_failed e)) s h = h
      go (err (unexpected e)) s h = h
      go (err (import_failed e)) s h = h

  pub Triple-exists :
      (path : Text)
      → Triple
          (On P)
          (exists chain path)
          (λ b s. On P s × (present chain (s.files path) ≡ b))
          (λ _ s. On P s)
  unfolding exists
  Triple-exists path = record { at = λ s p. go (chain.access s.ext).0 s p }
    where
      go :
          (failed : Option chain.FsError) (s : Disk chain)
          → On P s
          → Post
              (λ b t. On P t × (present chain (t.files path) ≡ b))
              (λ _ t. On P t)
              (answered chain failed (ok (present chain (s.files path))))
              (record s { ext = (chain.access s.ext).1 })
      go none s p = (p, refl)
      go (some x) s p = p

  pub Triple-write_file :
      (Q : (Text → Option File) → ℕ → Type 0) (path content : Text)
      → ((files : Text → Option File) (now : ℕ)
          → P files now
          → Q (update files path (record { content = content; modified = now })) now)
      → ((e : chain.Ext) → (chain.access e).0 ≡ none)
      → Triple (On P) (write_file chain path content) (λ _ s. On Q s) (λ _ s. On P s)
  unfolding write_file
  Triple-write_file Q path content k works = record {
    at = λ s p. go (chain.access s.ext).0 s (works s.ext) p;
  }
    where
      go :
          (failed : Option chain.FsError) (s : Disk chain)
          → failed ≡ none
          → On P s
          → Post
              (λ _ t. On Q t)
              (λ _ t. On P t)
              (answered chain failed (ok tt))
              (stored chain failed path content (record s { ext = (chain.access s.ext).1 }))
      go none s h p = k s.files s.now p
      go (some x) s h p = absurd (grind arith)

-- A step that only reads the disk.
pub Triple-reads :
    {chain : Toolchain} {A : Type 0} {P : Disk chain → Type 0} {Q : A → Disk chain → Type 0}
    {X : ConfigCause chain → Disk chain → Type 0} (r : Disk chain → Result (ConfigCause chain) A)
    → ((a : A) (s : Disk chain) → r s ≡ ok a → P s → Q a s)
    → ((e : ConfigCause chain) (s : Disk chain) → P s → X e s)
    → Triple P (λ s. (r s, s)) Q X
Triple-reads {chain} {A} {P} {Q} {X} r h k = record { at = λ s p. go s p (r s) refl }
  where
    go : (s : Disk chain) → P s → (o : Result (ConfigCause chain) A) → r s ≡ o → Post Q X o s
    go s p (ok a) e = h a s e p
    go s p (err x) e = k x s p
