-- ===== src/Resource/Tests.antt =====
-- The resource store on concrete messages, and the theorems at inputs that meet their hypotheses.
use notyetanotherenvoybacken.Common.{
  String, ◌≡◌, ◌≤◌, ◌<◌, ◌^◌, ◌%◌, ◌++◌, refl, Option, none, some, List, map, decimal, [], ◌∷◌,
  panicked, returned, Error, Result, ok, err, external, lookup, insert, contains, add, has_char,
  string_dec, ℕ_discrete, ◌==◌, if◌then◌else◌, string_eq, nat_eq,
}
use notyetanotherenvoybacken.Address.Samples.{calm, nginx, resource}
use notyetanotherenvoybacken.Resource.Names.{
  make_server_file_key, parse_server_file_key, route_file, sanitize_filename, route_file_key,
}
use notyetanotherenvoybacken.Resource.Weights.{ValidBackend, total_weight, split_directives}
use notyetanotherenvoybacken.Resource.Shares.{
  sum_weights, total_weight_lem, names_of, arguments_of, but_last, percentage, partial_sums, label,
  split_directives_lem,
}
use notyetanotherenvoybacken.System.Samples.{fixed}
use notyetanotherenvoybacken.Resource.State.{
  Bind, Listener, Route, ResourceStore, new_resource_store, values_of, add_to_reverse_map,
}
use notyetanotherenvoybacken.Resource.Book.{
  Changes, mark_listeners, mark_hostnames, matching_routes, update_bind, update_listener,
  update_route,
}
use notyetanotherenvoybacken.Resource.Removals.{
  Kind, bind_kind, listener_kind, route_kind, categorize, update_binds, update_listeners,
  update_routes, unchanged, record_resources, remove_route, remove_all,
}
use notyetanotherenvoybacken.Resource.Server.{generate_server_file}
use notyetanotherenvoybacken.Resource.ServerBlock.{serving}
use notyetanotherenvoybacken.Resource.Written.{Generated, generate_server_file-Generated}
use notyetanotherenvoybacken.Resource.Stale.{NoStale}
use notyetanotherenvoybacken.Resource.Steady.{
  IsSteady, Exact-NoStale, record_resources-Exact, new-Exact,
}
use notyetanotherenvoybacken.Resource.Remove.{delete_route_files}
use notyetanotherenvoybacken.Resource.Leftovers.{remove_keeps_route_files}
use notyetanotherenvoybacken.Resource.Listed.{Listed}
use notyetanotherenvoybacken.Resource.History.{new, updates, removes, History-Listed}
use notyetanotherenvoybacken.Resource.Servers.{parse-make_server_file_key, moved_route_panics}

abbrev heavy : List ValidBackend
heavy =
    record { upstream_name = "a"; weight = 1 }
    ∷ record { upstream_name = "b"; weight = 3 }
    ∷ record { upstream_name = "c"; weight = 2147483647 }
    ∷ []

total_weight_lem_example :
    (total_weight 0 heavy ≡ sum_weights heavy % 2 ^ 32)
    × (sum_weights heavy < 2 ^ 31 → total_weight 0 heavy ≡ sum_weights heavy)
    × (2 ^ 31 ≤ sum_weights heavy → sum_weights heavy < 2 ^ 32 → 2 ^ 31 ≤ total_weight 0 heavy)
total_weight_lem_example = total_weight_lem heavy

abbrev light : List ValidBackend
light = record { upstream_name = "b"; weight = 3 } ∷ []

split_directives_lem_example :
    (names_of (split_directives fixed 4 0 (record { upstream_name = "a"; weight = 1 } ∷ light))
      ≡ map (label fixed) (
          partial_sums fixed 0 (
            map
              (percentage fixed 4)
              (but_last (record { upstream_name = "a"; weight = 1 } ∷ light))))
        ++ ("*" ∷ []))
    × (arguments_of
          (split_directives fixed 4 0 (record { upstream_name = "a"; weight = 1 } ∷ light))
        ≡ map (λ d. d.upstream_name ∷ []) (record { upstream_name = "a"; weight = 1 } ∷ light))
split_directives_lem_example =
    split_directives_lem fixed 4 (record { upstream_name = "a"; weight = 1 }) light

split_names :
    names_of (split_directives fixed 4 0 (record { upstream_name = "a"; weight = 1 } ∷ light))
    ≡ "25.00%" ∷ "*" ∷ []
unfolding split_directives decimal ℕ_discrete
split_names = refl

abbrev web : Bind
web = record { key = "80/default/gw"; port = 80 }

abbrev http : Listener
http = record {
  key = "default/gw.http";
  name = none;
  bind_key = "80/default/gw";
  hostname = "*";
  protocol = 0;
  tls = none;
}

abbrev echo : Route
echo = record {
  key = "default/echo.0";
  name = none;
  listener_key = "default/gw.http";
  hostnames = "a.example" ∷ [];
  matches = [];
  backends = [];
}

abbrev moved : Route
moved = record echo { listener_key = "default/gw.https" }

abbrev decode : String → Result Kind
decode body =
    if body == "web"
    then ok (bind_kind web)
    else if body == "http"
    then ok (listener_kind http)
    else if body == "echo"
    then ok (route_kind echo)
    else err (external 0)

-- a bind, a listener and a route, in another order than their layers
abbrev filled : Changes
filled =
    record_resources calm decode (new_resource_store nginx)
      (resource "echo" ∷ resource "web" ∷ resource "bad" ∷ resource "http" ∷ [])

filled_servers : filled.servers ≡ "default/gw.http:*" ∷ "default/gw.http:a.example" ∷ []
unfolding record_resources categorize update_binds update_listeners update_routes update_bind
    update_listener update_route new_resource_store mark_listeners mark_hostnames add lookup insert
    string_dec values_of make_server_file_key
filled_servers = refl

filled_file : route_file echo.key echo.listener_key ≡ "routes/default-echo.0-default-gw.http.conf"
unfolding route_file sanitize_filename route_file_key ℕ_discrete
filled_file = refl

History-Listed_example : Listed (remove_all (unchanged filled.store) ("default/gw.http" ∷ [])).store
History-Listed_example =
    History-Listed calm decode (remove_all (unchanged filled.store) ("default/gw.http" ∷ [])).store
      (removes ("default/gw.http" ∷ []) (
        updates (resource "echo" ∷ resource "web" ∷ resource "bad" ∷ resource "http" ∷ [])
          (new nginx)))

parse-make_server_file_key_example :
    parse_server_file_key (make_server_file_key "default/gw.http" "a.example")
    ≡ ("default/gw.http", "a.example")
unfolding has_char ℕ_discrete
parse-make_server_file_key_example = parse-make_server_file_key "default/gw.http" "a.example" refl

moved_route_panics_example :
    matching_routes
      (remove_route (update_route (update_route filled echo) moved) moved).store
      (values_of
        (remove_route
          (update_route (update_route filled echo) moved)
          moved).store.listener_to_routes
        "default/gw.http")
      "a.example"
    ≡ panicked
moved_route_panics_example = moved_route_panics filled echo moved "a.example" refl (λ e. cc)

remove_keeps_route_files_example :
    delete_route_files calm
      (remove_all (unchanged filled.store) (echo.key ∷ [])).store
      (calm.visits (remove_all (unchanged filled.store) (echo.key ∷ [])).routes)
    ≡ (remove_all (unchanged filled.store) (echo.key ∷ [])).store
remove_keeps_route_files_example =
    remove_keeps_route_files calm filled.store
      (remove_all (unchanged filled.store) (echo.key ∷ [])).store (echo.key ∷ []) refl

filled-IsSteady :
    IsSteady calm decode
      (new_resource_store nginx)
      (resource "echo" ∷ resource "web" ∷ resource "bad" ∷ resource "http" ∷ [])
unfolding categorize update_binds update_listeners update_bind update_listener lookup
    new_resource_store string_dec
filled-IsSteady = (λ old h. absurd cc, tt)

filled-NoStale : NoStale filled.store
filled-NoStale = Exact-NoStale filled.store (
    record_resources-Exact calm decode (new_resource_store nginx)
      (resource "echo" ∷ resource "web" ∷ resource "bad" ∷ resource "http" ∷ []) (new-Exact nginx)
      filled-IsSteady)

generate_server_file-Generated_example :
    (e : Option Error) × (b : ResourceStore) × (generate_server_file calm 1 filled.store
        "default/gw.http:a.example"
      ≡ returned (e, b))
    × Generated calm 1 filled.store "default/gw.http:a.example" e b
generate_server_file-Generated_example =
    generate_server_file-Generated calm 1 filled.store "default/gw.http:a.example" filled-NoStale

-- the listener and its bind are there
filled_known :
    (lookup "default/gw.http" filled.store.listeners ≡ some http)
    × (lookup http.bind_key filled.store.binds ≡ some web)
    × (serving filled.store "a.example"
          (values_of filled.store.listener_to_routes "default/gw.http")
        ≡ echo.key ∷ [])
unfolding record_resources categorize update_binds update_listeners update_routes update_bind
    update_listener update_route new_resource_store lookup insert string_dec values_of
    add_to_reverse_map contains
filled_known = (refl, refl, refl)
