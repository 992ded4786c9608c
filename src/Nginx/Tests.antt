-- ===== src/Nginx/Tests.antt =====
-- The NGINX manager on a concrete outside.
use mathlib.Core.List.Perm
use notyetanotherenvoybacken.Common.{
  false, String, ◌≡◌, ◌↔◌, refl, none, some, [], ◌∷◌, map, Error, external, because, ok, err,
  string_dec,
}
use notyetanotherenvoybacken.Nginx.{Env, Manager}
use notyetanotherenvoybacken.Nginx.Start.{
  Host, directories, manager_of, new_manager, start_nginx, start_nginx_lem, new_manager_lem, exited,
  StartFails,
}

-- NGINX fails when it is told to reload.
abbrev outside : Env
outside = record {
  build = λ config. ok "config";
  write_file = λ n f text. none;
  remove_file = λ n f. none;
  config_test = λ n files. none;
  signal_reload = λ n files. some (external 1, "nginx: [error]");
  visits = λ keys. keys;
  visits_perm = Perm.refl;
}

abbrev manager : Manager
manager = record {
  config_path = "/etc/nginx";
  nginx_binary = "/usr/sbin/nginx";
  files = ("endpoints/a.conf", "config") ∷ [];
  loaded = some [];
  clock = 0;
}

abbrev host : Host
host = record {
  mkdir_all = λ path. none;
  config_test = λ binary. none;
  start_command = λ binary. none;
  process_state = λ binary. none;
}

-- with the defaults
new_manager_lem_example :
    (((path : String) → host.mkdir_all path ≡ none)
      → new_manager host "" "" ≡ (
        map (λ d. d.1) (directories "/etc/nginx"),
        ok (manager_of "/etc/nginx" "/usr/sbin/nginx"),
      ))
    × ((e : Error)
        → (new_manager host "" "").1 ≡ err e
        → (why : String) × (path : String) × (cause : Error) × (host.mkdir_all path ≡ some cause)
          × (e ≡ because why cause))
unfolding string_dec
new_manager_lem_example = new_manager_lem host "" ""

default_directories :
    map (λ d. d.1) (directories "/etc/nginx")
    ≡ "/etc/nginx" ∷ "/etc/nginx/endpoints" ∷ "/etc/nginx/servers" ∷ "/etc/nginx/routes"
      ∷ "/etc/nginx/certs" ∷ "/tmp/nginx" ∷ []
unfolding directories
default_directories = refl

start_nginx_lem_example :
    ((start_nginx host manager ≡ none) ↔ (
      (host.config_test manager.nginx_binary ≡ none)
      × (host.start_command manager.nginx_binary ≡ none)
      × (exited (host.process_state manager.nginx_binary) ≡ false)))
    × ((e : Error) → start_nginx host manager ≡ some e → StartFails host manager e)
start_nginx_lem_example = start_nginx_lem host manager
