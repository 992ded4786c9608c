-- ===== src/Resource/Remove.antt =====
-- resource.go: `Remove`, with the files that it deletes and writes again. An error of these is
-- logged only.
use notyetanotherenvoybacken.Common.{
  ℕ, String, Bool, false, ◌||◌, not, Option, none, some, List, [], ◌∷◌, Outcome, returned, ◌>>=◌,
  lookup, erase, is_empty, if◌then◌else◌,
}
use notyetanotherenvoybacken.Nginx.{Env, Manager, delete_config, reload}
use notyetanotherenvoybacken.Resource.Names.{server_file, route_file}
use notyetanotherenvoybacken.Resource.State.{Route, ServerFileConfig, ResourceStore}
use notyetanotherenvoybacken.Resource.Removals.{unchanged, remove_all}
use notyetanotherenvoybacken.Resource.Server.{delete_tls_files, generate_server_file}

abbrev pub has_routes : Option ServerFileConfig → Bool
has_routes none = false
has_routes (some config) = not (is_empty config.route_keys)

module _ (env : Env) where
  -- `deleteServerFile`
  abbrev pub delete_server_file : Manager → String → Manager
  delete_server_file m key = (delete_config env m (server_file key)).1

  -- a server without routes goes, with its files
  unfoldable pub drop_server_files : ResourceStore → String → ResourceStore
  drop_server_files r key = record r {
    nginx = delete_tls_files env (delete_server_file r.nginx key) key;
    server_files = erase key r.server_files;
  }

  unfoldable pub settle_server : ℕ → ResourceStore → String → Outcome ResourceStore
  unfolding drop_server_files
  settle_server https r key =
      if has_routes (lookup key r.server_files)
      then (generate_server_file env https r key >>= λ (e, b). returned b)
      else returned (drop_server_files r key)

  -- the loop over the affected servers
  unfoldable pub settle_servers : ℕ → ResourceStore → List String → Outcome ResourceStore
  unfolding settle_server
  settle_servers https r [] = returned r
  settle_servers https r (key ∷ keys) =
      settle_server https r key >>= λ b. settle_servers https b keys

  -- `deleteRouteFile`, by the route that the store has under the key
  unfoldable pub delete_route_file : ResourceStore → String → Option Route → ResourceStore
  delete_route_file r key none = r
  delete_route_file r key (some route) = record r {
    nginx = (delete_config env r.nginx (route_file key route.listener_key)).1;
  }

  -- the loop over the deleted routes
  unfoldable pub delete_route_files : ResourceStore → List String → ResourceStore
  unfolding delete_route_file
  delete_route_files r [] = r
  delete_route_files r (key ∷ keys) =
      delete_route_files (delete_route_file r key (lookup key r.routes)) keys

  abbrev pub reload_if_changed : Bool → ResourceStore → ResourceStore
  reload_if_changed changed r = if changed then record r { nginx = (reload env r.nginx).1 } else r

  -- `Remove`, while it has the mutex; it returns no error
  unfoldable pub remove_from_store : ℕ → ResourceStore → List String → Outcome ResourceStore
  unfolding settle_servers delete_route_files
  remove_from_store https r names =
      let c = remove_all (unchanged r) names in
      settle_servers https c.store (env.visits c.servers) >>= λ b. returned (
        reload_if_changed (not (is_empty c.servers) || not (is_empty c.routes))
          (delete_route_files b (env.visits c.routes)))
