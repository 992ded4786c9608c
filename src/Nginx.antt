-- ===== src/Nginx.antt =====
-- nginxbackend/pkg/nginx/manager.go: the manager of the NGINX process and of its configuration
-- files. What the operating system, the NGINX binary and the crossplane library answer is the
-- record `Env` of parameters.
pub mod Directive
pub mod Names
pub mod Writes
pub mod Start
mod Tests
use notyetanotherenvoybacken.Common.{
  ℕ, suc, String, Bool, Option, none, some, List, Dict, insert, erase, Error, Result, ok, err,
  because, with_output,
}
use mathlib.Core.List.{Perm}
use Directive.{Directives}

-- The files below the configuration path, by their path relative to it.
abbrev pub Files : Type 0
Files = Dict String

-- What code outside the repository answers. The number is the manager's clock, so that an answer
-- may change from one call to the next.
pub record Env : Type 0 where
  -- `crossplane.Build` of the crossplane library
  pub build : Directives → Result String
  -- `os.WriteFile`: none is success; a failure may leave something in the file
  pub write_file : ℕ → String → String → Option (Error × Option String)
  -- `os.Remove` of a file that may exist: none is success
  pub remove_file : ℕ → String → Option Error
  -- `nginx -t`: none is success
  pub config_test : ℕ → Files → Option (Error × String)
  -- `nginx -s reload`: none is success
  pub signal_reload : ℕ → Files → Option (Error × String)
  -- the order in which `range` visits the keys of a map, which Go leaves open
  pub visits : List String → List String
  pub visits_perm : (keys : List String) → Perm (visits keys) keys

pub record Manager : Type 0 where
  pub config_path : String
  pub nginx_binary : String
  pub files : Files
  -- the files of the last reload that NGINX was told to do
  pub loaded : Option Files
  pub clock : ℕ

abbrev pub tick : Manager → Manager
tick m = record m { clock = suc m.clock }

-- what a failed write leaves behind
abbrev pub spoil : String → Option String → Files → Files
spoil filename none files = files
spoil filename (some left) files = insert filename left files

module _ (env : Env) where
  unfoldable pub write_text : Manager → String → String → Option Error × Manager
  write_text m filename text = elim (env.write_file m.clock filename text) [
    | none ↦ (none, record (tick m) { files = insert filename text m.files })
    | some (e, left) ↦ (
      some (because "failed to write config file" e),
      record (tick m) { files = spoil filename left m.files },
    )
  ]

  -- `WriteConfig`
  unfoldable pub write_config : Manager → String → Directives → Option Error × Manager
  unfolding write_text
  write_config m filename config = elim (env.build config) [
    | err e ↦ (some (because "failed to build nginx config" e), m)
    | ok text ↦ write_text m filename text
  ]

  -- `DeleteConfig`; a file that does not exist is no error
  unfoldable pub delete_config : Manager → String → Option Error × Manager
  delete_config m filename = elim (env.remove_file m.clock filename) [
    | none ↦ (none, record (tick m) { files = erase filename m.files })
    | some e ↦ (some (because "failed to delete config file" e), tick m)
  ]

  unfoldable pub signal : Manager → Option Error × Manager
  signal m = elim (env.signal_reload m.clock m.files) [
    | none ↦ (none, record (tick m) { loaded = some m.files })
    | some (e, output) ↦ (some (with_output "nginx reload failed" e output), tick m)
  ]

  -- `Reload`
  unfoldable pub reload : Manager → Option Error × Manager
  unfolding signal
  reload m = elim (env.config_test m.clock m.files) [
    | none ↦ signal (tick m)
    | some (e, output) ↦ (some (with_output "nginx config test failed" e output), tick m)
  ]
