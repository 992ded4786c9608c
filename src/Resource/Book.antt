-- ===== src/Resource/Book.antt =====
-- resource.go: the book-keeping of the handlers, `updateBind` to `removeRoute`.
use notyetanotherenvoybacken.Common.{
  ℕ, String, Bool, false, not, ◌||◌, Option, none, some, List, [], ◌∷◌, Set, lookup, insert,
  Outcome, returned, panicked, ◌>>=◌, erase, contains, add, is_empty, length, sprintf, decimal,
  ◌==◌, if◌then◌else◌, string_eq, nat_eq,
}
use notyetanotherenvoybacken.Nginx.{Env, delete_config}
use notyetanotherenvoybacken.Nginx.Names.{service_key_to_upstream_name}
use notyetanotherenvoybacken.Resource.Names.{make_server_file_key, server_file}
use notyetanotherenvoybacken.Resource.State.{
  Bind, Listener, BackendKind, service_backend, other_backend, no_kind, BackendReference,
  RouteBackend, Route, ReverseMap, ResourceStore, values_of, add_to_reverse_map,
  remove_from_reverse_map,
}

-- The variables of `Update` and of `Remove`: the store, the affected server files, and the affected
-- or the deleted routes.
pub record Changes : Type 0 where
  pub store : ResourceStore
  pub servers : Set
  pub routes : Set

-- `backendToUpstreamName`: the upstream name and the service key
unfoldable pub backend_names : BackendKind → ℕ → String × String
backend_names (service_backend namespace hostname) port =
    let service_key = sprintf (namespace ∷ "/" ∷ hostname ∷ "/" ∷ decimal port ∷ []) in
    (service_key_to_upstream_name service_key, service_key)
backend_names other_backend port = ("", "")
backend_names no_kind port = ("", "")

unfoldable pub backend_to_upstream_name : Option BackendReference → String × String
unfolding backend_names
backend_to_upstream_name none = ("", "")
backend_to_upstream_name (some b) = backend_names b.kind b.port

-- `routeMatchesHostname`
abbrev pub matches_any : List String → String → Bool
matches_any [] hostname = false
matches_any (h ∷ hs) hostname = h == hostname || h == "*" || matches_any hs hostname

unfoldable pub route_matches_hostname : Route → String → Bool
route_matches_hostname route hostname =
    is_empty route.hostnames || matches_any route.hostnames hostname

-- the servers of the listeners that the store has among these
unfoldable pub mark_listeners : ResourceStore → List String → Set → Set
mark_listeners r [] servers = servers
mark_listeners r (key ∷ keys) servers = elim (lookup key r.listeners) [
  | none ↦ mark_listeners r keys servers
  | some l ↦ mark_listeners r keys (add (make_server_file_key key l.hostname) servers)
]

-- `updateBind`
unfoldable pub update_bind : Changes → Bind → Changes
update_bind c bind = record c {
  store = record c.store { binds = insert bind.key bind c.store.binds };
  servers = mark_listeners c.store (values_of c.store.bind_to_listeners bind.key) c.servers;
}

-- the servers of a listener with each of these hostnames
unfoldable pub mark_hostnames : String → List String → Set → Set
mark_hostnames listener_key [] servers = servers
mark_hostnames listener_key (h ∷ hs) servers =
    mark_hostnames listener_key hs (add (make_server_file_key listener_key h) servers)

-- the old server file of a listener goes, if its hostname or its bind changed
unfoldable pub drop_server : Env → ResourceStore → Listener → Option Listener → ResourceStore
drop_server env r new none = r
drop_server env r new (some old) =
    if not (old.hostname == new.hostname) || not (old.bind_key == new.bind_key)
    then (let key = make_server_file_key new.key old.hostname in
        let (e, m) = delete_config env r.nginx (server_file key) in
        record r { server_files = erase key r.server_files; nginx = m })
    else r

-- `updateListener`
unfoldable pub update_listener : Env → Changes → Listener → Changes
unfolding drop_server
update_listener env c new =
    let old = lookup new.key c.store.listeners in
    let stored = record c.store {
      listeners = insert new.key new c.store.listeners;
      bind_to_listeners = add_to_reverse_map c.store.bind_to_listeners new.bind_key new.key;
    } in
    record c {
      store = drop_server env stored new old;
      servers = add (make_server_file_key new.key new.hostname) c.servers;
    }

-- the loops that take a route from the services of its backends
unfoldable pub forget_backends : String → List RouteBackend → ReverseMap → ReverseMap
unfolding backend_to_upstream_name
forget_backends route_key [] m = m
forget_backends route_key (b ∷ bs) m =
    let service_key = (backend_to_upstream_name b.backend).1 in
    forget_backends route_key bs
      (if service_key == "" then m else remove_from_reverse_map m service_key route_key)

-- whether a hostname is new
unfoldable pub any_new : List String → List String → Bool
any_new old [] = false
any_new old (h ∷ hs) = not (contains h old) || any_new old hs

-- `hostnamesChanged`
unfoldable pub hostnames_changed : List String → List String → Bool
unfolding any_new
hostnames_changed old new = not (length old == length new) || any_new old new

-- the servers of a route: of its hostnames, or of its listener's hostname; none without a listener
unfoldable pub mark_route : Route → Option Listener → Set → Set
mark_route route none servers = servers
mark_route route (some l) servers =
    if is_empty route.hostnames
    then add (make_server_file_key route.listener_key l.hostname) servers
    else mark_hostnames route.listener_key route.hostnames servers

abbrev pub old_backends : Option Route → List RouteBackend
old_backends none = []
old_backends (some old) = old.backends

-- the servers of the old hostnames, if they changed
unfoldable pub mark_old : Route → Option Route → Set → Set
unfolding hostnames_changed
mark_old route none servers = servers
mark_old route (some old) servers =
    if hostnames_changed old.hostnames route.hostnames
    then mark_hostnames route.listener_key old.hostnames servers
    else servers

-- `updateRoute`
unfoldable pub update_route : Changes → Route → Changes
unfolding mark_route mark_old
update_route c route =
    let old = lookup route.key c.store.routes in
    record {
      store = record c.store {
        service_to_routes = forget_backends route.key (old_backends old) c.store.service_to_routes;
        routes = insert route.key route c.store.routes;
        listener_to_routes =
            add_to_reverse_map c.store.listener_to_routes route.listener_key route.key;
      };
      servers =
          mark_route route (lookup route.listener_key c.store.listeners)
            (mark_old route old c.servers);
      routes = add route.key c.routes;
    }

-- The loop of `generateServerFile` over the routes of a listener. A key without a route gives a nil
-- route, on which `routeMatchesHostname` panics.
unfoldable pub matching_routes : ResourceStore → List String → String → Outcome (List String)
unfolding route_matches_hostname
matching_routes r [] hostname = returned []
matching_routes r (key ∷ keys) hostname =
    let rest = matching_routes r keys hostname in
    elim (lookup key r.routes) [
      | none ↦ panicked
      | some route ↦
          if route_matches_hostname route hostname
          then (rest >>= λ found. returned (key ∷ found))
          else rest
    ]
