-- ===== src/Nginx/Writes.antt =====
-- manager.go: what the manager's operations do to the files and to what NGINX has loaded.
use mathlib.Core.Option.{some-ne-none}
use notyetanotherenvoybacken.Common.{
  String, ◌≡◌, ◌≢◌, refl, Option, none, some, Error, ok, arith, lookup, insert, lookup-insert,
  lookup-erase, string_eq, Option-cases, Result-cases, inl, inr,
}
use notyetanotherenvoybacken.Nginx.{
  Env, Files, Manager, spoil, write_text, write_config, delete_config, signal, reload,
}
use notyetanotherenvoybacken.Nginx.Directive.{Directives}

lookup-spoil :
    (f g : String) (left : Option String) (files : Files)
    → g ≢ f
    → lookup g (spoil f left files) ≡ lookup g files
lookup-spoil f g none files h = refl
lookup-spoil f g (some t) files h = ground (arith, lookup-insert g f t files)

module _ (env : Env) (m : Manager) (f : String) where
  files-write_text :
      (text : String) (g : String)
      → g ≢ f
      → lookup g (write_text env m f text).1.files ≡ lookup g m.files
  unfolding write_text
  files-write_text text g h = elim (Option-cases (env.write_file m.clock f text)) [
    | inl e ↦ rw (e, write_text) (ground (arith, lookup-insert g f text m.files))
    | inr ((er, left), e) ↦ rw (e, write_text) (lookup-spoil f g left m.files h)
  ]

  -- Only the file named is written, also where the write fails.
  pub files-write_config :
      (config : Directives) (g : String)
      → g ≢ f
      → lookup g (write_config env m f config).1.files ≡ lookup g m.files
  unfolding write_config
  files-write_config config g h = elim (Result-cases (env.build config)) [
    | inl (text, e) ↦ rw (e, write_config) (files-write_text text g h)
    | inr (x, e) ↦ rw (e, write_config)
  ]

  write_text-succeeds :
      (text : String)
      → (write_text env m f text).0 ≡ none
      → (write_text env m f text).1.files ≡ insert f text m.files
  unfolding write_text
  write_text-succeeds text h = ground arith

  -- A write without an error leaves in the file the text that crossplane builds.
  pub write_config-succeeds :
      (config : Directives)
      → (write_config env m f config).0 ≡ none
      → (text : String) × (env.build config ≡ ok text)
        × (lookup f (write_config env m f config).1.files ≡ some text)
  unfolding write_config
  write_config-succeeds config h = elim (Result-cases (env.build config)) [
    | inl (text, e) ↦ (
      text,
      e,
      rw (e, write_config)
          (ground (
            arith,
            write_text-succeeds text (rw (e, write_config) at h),
            lookup-insert f f text m.files,
          )),
    )
    | inr (x, e) ↦ absurd (some-ne-none _ (rw (e, write_config) at h))
  ]

  pub files-delete_config :
      (g : String) → g ≢ f → lookup g (delete_config env m f).1.files ≡ lookup g m.files
  unfolding delete_config
  files-delete_config g h = ground (arith, lookup-erase g f m.files)

-- `Reload` changes no file; without an error NGINX was told to load the files that stand there, and
-- with one it keeps what it had.
pub reload_lem :
    (env : Env) (m : Manager)
    → ((reload env m).1.files ≡ m.files)
      × ((reload env m).0 ≡ none → (reload env m).1.loaded ≡ some m.files)
      × ((e : Error) → (reload env m).0 ≡ some e → (reload env m).1.loaded ≡ m.loaded)
unfolding reload signal
reload_lem env m = (ground arith, λ h. ground arith, λ e h. ground arith)
