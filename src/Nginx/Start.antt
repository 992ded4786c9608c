-- ===== src/Nginx/Start.antt =====
-- manager.go: `NewManager` and `Start`.
use mathlib.Core.Path.{subst}
use mathlib.Core.Option.{some-injective}
use notyetanotherenvoybacken.Common.{
  String, Bool, true, false, Bool-cases, ◌≡◌, refl, Option, none, some, List, [], ◌∷◌, Error,
  message, because, with_output, Result, ok, err, sprintf, map, ◌==◌, if◌then◌else◌, string_eq,
  Option-cases, inl, inr, sym, ◌↔◌, arith,
}
use notyetanotherenvoybacken.Nginx.{Manager}

-- What the operating system answers when the manager is set up.
pub record Host : Type 0 where
  -- the error of `os.MkdirAll`
  pub mkdir_all : String → Option Error
  -- `nginx -t`: none is success
  pub config_test : String → Option (Error × String)
  -- the error of `Start` of the command `nginx -g "daemon off;"`
  pub start_command : String → Option Error
  -- the field `ProcessState` of the command after the pause: nil, or whether the process exited
  pub process_state : String → Option Bool

-- The directories made so far, and what `NewManager` returns.
abbrev pub Made : Type 0
Made = List String × Result Manager

abbrev pub or_default : String → String → String
or_default s default = if s == "" then default else s

abbrev pub manager_of : String → String → Manager
manager_of config_path nginx_binary = record {
  config_path = config_path;
  nginx_binary = nginx_binary;
  files = [];
  loaded = none;
  clock = 0;
}

-- the subdirectories; the path is joined by a slash, as `filepath.Join` does for a clean path
unfoldable pub directories : String → List (String × String)
directories config_path =
    ("failed to create config directory", config_path)
    ∷ ("failed to create endpoints directory", sprintf (config_path ∷ "/endpoints" ∷ []))
    ∷ ("failed to create servers directory", sprintf (config_path ∷ "/servers" ∷ []))
    ∷ ("failed to create routes directory", sprintf (config_path ∷ "/routes" ∷ []))
    ∷ ("failed to create certs directory", sprintf (config_path ∷ "/certs" ∷ []))
    ∷ ("failed to create /tmp/nginx directory", "/tmp/nginx")
    ∷ []

abbrev pub note_directory : String → Made → Made
note_directory path (paths, r) = (path ∷ paths, r)

module _ (host : Host) where
  -- the calls of `os.MkdirAll`, up to the first that fails
  unfoldable pub make_directories : List (String × String) → Manager → Made
  make_directories [] m = ([], ok m)
  make_directories ((why, path) ∷ rest) m =
      let later = make_directories rest m in
      elim (host.mkdir_all path) [
        | some e ↦ ([], err (because why e))
        | none ↦ note_directory path later
      ]

  -- `NewManager`
  unfoldable pub new_manager : String → String → Made
  unfolding make_directories directories
  new_manager config_path nginx_binary =
      let path = or_default config_path "/etc/nginx" in
      make_directories (directories path)
        (manager_of path (or_default nginx_binary "/usr/sbin/nginx"))

-- the test of `ProcessState`
abbrev pub exited : Option Bool → Bool
exited none = false
exited (some b) = b

-- the check after the pause, and the goroutine that waits for the process
unfoldable pub check_process : Option Bool → Option Error
check_process state =
    if exited state then some (message "nginx process exited immediately") else none

error_absent : (e : Error) → Path (Option Error) none (some e) → ⊥
error_absent e h = cc

err_inj : (x y : Error) → Path (Result Manager) (err x) (err y) → x ≡ y
err_inj x y h = cc

module _ (host : Host) where
  -- the command is started, and looked at after the pause
  unfoldable pub start_process : Manager → Option Error
  unfolding check_process
  start_process m = elim (host.start_command m.nginx_binary) [
    | some e ↦ some (because "failed to start nginx" e)
    | none ↦ check_process (host.process_state m.nginx_binary)
  ]

  -- `Start`
  unfoldable pub start_nginx : Manager → Option Error
  unfolding start_process
  start_nginx m = elim (host.config_test m.nginx_binary) [
    | some (e, output) ↦ some (with_output "nginx config test failed" e output)
    | none ↦ start_process m
  ]

  -- what an error of `Start` tells
  pub data StartFails (m : Manager) : Error → Type 0 where
    test_fails :
        {e : Error} {output : String}
        → host.config_test m.nginx_binary ≡ some (e, output)
        → StartFails m (with_output "nginx config test failed" e output)
    start_fails :
        {e : Error}
        → host.config_test m.nginx_binary ≡ none
        → host.start_command m.nginx_binary ≡ some e
        → StartFails m (because "failed to start nginx" e)
    exits :
        host.config_test m.nginx_binary ≡ none
        → host.start_command m.nginx_binary ≡ none
        → exited (host.process_state m.nginx_binary) ≡ true
        → StartFails m (message "nginx process exited immediately")

  start_nginx-StartFails : (m : Manager) (e : Error) → start_nginx m ≡ some e → StartFails m e
  unfolding start_nginx start_process check_process
  start_nginx-StartFails m e h = elim (Option-cases (host.config_test m.nginx_binary)) [
    | inr ((x, output), t) ↦
        subst (StartFails m) (some-injective _ _ (rw (t, start_nginx) at h)) (test_fails t)
    | inl t ↦ elim (Option-cases (host.start_command m.nginx_binary)) [
      | inr (x, c) ↦
          subst (StartFails m) (some-injective _ _ (rw (t, start_nginx, start_process, c) at h))
            (start_fails t c)
      | inl c ↦ elim (Bool-cases (exited (host.process_state m.nginx_binary))) [
        | inl x ↦
            subst (StartFails m)
              (some-injective _ _ (rw (t, start_nginx, start_process, c, check_process, x) at h))
              (exits t c x)
        | inr x ↦
            absurd (error_absent e (rw (t, start_nginx, start_process, c, check_process, x) at h))
      ]
    ]
  ]

  -- `Start` returns no error exactly if `nginx -t` succeeds, the command starts, and its
  -- `ProcessState` is nil or tells of no exit. An error is that of the test with its output, that of
  -- the start, or, where both succeed, the one that tells of the exit.
  pub start_nginx_lem :
      (m : Manager)
      → ((start_nginx m ≡ none) ↔ (
          (host.config_test m.nginx_binary ≡ none)
          × (host.start_command m.nginx_binary ≡ none)
          × (exited (host.process_state m.nginx_binary) ≡ false)))
        × ((e : Error) → start_nginx m ≡ some e → StartFails m e)
  unfolding start_nginx start_process check_process
  start_nginx_lem m = (
    (
      λ h. (ground (arith, h), ground (arith, h), ground (arith, h)),
      λ (tested, started, alive).
          rw (tested, start_nginx, start_process, started, check_process, alive) refl,
    ),
    start_nginx-StartFails m,
  )

  make_directories-all :
      (ds : List (String × String)) (m : Manager)
      → ((path : String) → host.mkdir_all path ≡ none)
      → make_directories host ds m ≡ (map (λ d. d.1) ds, ok m)
  unfolding make_directories
  make_directories-all [] m h = refl
  make_directories-all ((why, path) ∷ rest) m h =
      rw (h path, make_directories, make_directories-all rest m h) refl

  make_directories-refused :
      (ds : List (String × String)) (m : Manager) (e : Error)
      → (make_directories host ds m).1 ≡ err e
      → (why : String) × (path : String) × (cause : Error) × (host.mkdir_all path ≡ some cause)
        × (e ≡ because why cause)
  unfolding make_directories
  make_directories-refused [] m e h = absurd cc
  make_directories-refused ((why, path) ∷ rest) m e h = elim (Option-cases (host.mkdir_all path)) [
    | inl n ↦ make_directories-refused rest m e (rw (n, make_directories) at h)
    | inr (cause, n) ↦ (why, path, cause, n, sym (err_inj _ _ (rw (n, make_directories) at h)))
  ]

  -- Where every directory can be made, `NewManager` makes, in this order, the configuration path, the
  -- four directories for the kinds of files, and the one for the PID file, and returns a manager with
  -- the path and the binary told, or with the defaults in place of empty ones. An error that it
  -- returns is that of a directory that could not be made.
  pub new_manager_lem :
      (config_path nginx_binary : String)
      → (((path : String) → host.mkdir_all path ≡ none)
          → new_manager host config_path nginx_binary ≡ (
            map (λ d. d.1) (directories (or_default config_path "/etc/nginx")),
            ok (
                manager_of
                  (or_default config_path "/etc/nginx")
                  (or_default nginx_binary "/usr/sbin/nginx")),
          ))
        × ((e : Error)
            → (new_manager host config_path nginx_binary).1 ≡ err e
            → (why : String) × (path : String) × (cause : Error) × (host.mkdir_all path
                ≡ some cause)
              × (e ≡ because why cause))
  unfolding new_manager
  new_manager_lem config_path nginx_binary =
      let path = or_default config_path "/etc/nginx" in
      let m = manager_of path (or_default nginx_binary "/usr/sbin/nginx") in
      (make_directories-all (directories path) m, make_directories-refused (directories path) m)
