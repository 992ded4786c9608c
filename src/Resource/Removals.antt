-- ===== src/Resource/Removals.antt =====
-- resource.go: the book-keeping of `Remove`, and both handlers up to the files they write.
use notyetanotherenvoybacken.Common.{
  String, Option, none, some, List, [], ◌∷◌, Result, ok, err, lookup, erase, add,
}
use notyetanotherenvoybacken.Nginx.{Env}
use notyetanotherenvoybacken.Address.State.{Resource}
use notyetanotherenvoybacken.Resource.Names.{make_server_file_key}
use notyetanotherenvoybacken.Resource.State.{
  Bind, Listener, Route, ResourceStore, values_of, remove_from_reverse_map,
}
use notyetanotherenvoybacken.Resource.Book.{
  Changes, mark_listeners, mark_hostnames, mark_route, forget_backends, update_bind,
  update_listener, update_route,
}

-- `removeBind`
unfoldable pub remove_bind : Changes → Bind → Changes
remove_bind c bind = record c {
  store = record c.store {
    binds = erase bind.key c.store.binds;
    bind_to_listeners = erase bind.key c.store.bind_to_listeners;
  };
  servers = mark_listeners c.store (values_of c.store.bind_to_listeners bind.key) c.servers;
}

-- a route of a listener that is removed
unfoldable pub drop_route : String → Changes → String → Option Route → Changes
drop_route listener_key c route_key none = c
drop_route listener_key c route_key (some route) = record {
  store = record c.store { routes = erase route_key c.store.routes };
  servers = mark_hostnames listener_key route.hostnames c.servers;
  routes = add route_key c.routes;
}

unfoldable pub drop_routes : String → Changes → List String → Changes
unfolding drop_route
drop_routes listener_key c [] = c
drop_routes listener_key c (key ∷ keys) =
    drop_routes listener_key (drop_route listener_key c key (lookup key c.store.routes)) keys

-- `removeListener`
unfoldable pub remove_listener : Changes → Listener → Changes
unfolding drop_routes
remove_listener c l =
    let d = drop_routes l.key c (values_of c.store.listener_to_routes l.key) in
    let server_key = make_server_file_key l.key l.hostname in
    record d {
      store = record d.store {
        server_files = erase server_key d.store.server_files;
        listeners = erase l.key d.store.listeners;
        listener_to_routes = erase l.key d.store.listener_to_routes;
        bind_to_listeners = remove_from_reverse_map d.store.bind_to_listeners l.bind_key l.key;
      };
      servers = add server_key d.servers;
    }

-- `removeRoute`
unfoldable pub remove_route : Changes → Route → Changes
remove_route c route = record {
  store = record c.store {
    service_to_routes = forget_backends route.key route.backends c.store.service_to_routes;
    routes = erase route.key c.store.routes;
    listener_to_routes =
        remove_from_reverse_map c.store.listener_to_routes route.listener_key route.key;
  };
  servers = mark_route route (lookup route.listener_key c.store.listeners) c.servers;
  routes = add route.key c.routes;
}

-- `resourceapi.Resource`, a oneof
pub data Kind : Type 0 where
  bind_kind : Bind → Kind
  listener_kind : Listener → Kind
  route_kind : Route → Kind
  ignored_kind : Kind

-- The messages of a response, sorted into their layers, each in the order of the response.
pub record Layers : Type 0 where
  pub binds : List Bind
  pub listeners : List Listener
  pub routes : List Route

unfoldable pub put_kind : Kind → Layers → Layers
put_kind (bind_kind b) ls = record ls { binds = b ∷ ls.binds }
put_kind (listener_kind l) ls = record ls { listeners = l ∷ ls.listeners }
put_kind (route_kind r) ls = record ls { routes = r ∷ ls.routes }
put_kind ignored_kind ls = ls

unfoldable pub put_result : Result Kind → Layers → Layers
unfolding put_kind
put_result (err e) ls = ls
put_result (ok k) ls = put_kind k ls

-- phase 1 of `Update`, by what `anypb.UnmarshalTo` makes of a resource
unfoldable pub categorize : (String → Result Kind) → List Resource → Layers
unfolding put_result
categorize unmarshal [] = record { binds = []; listeners = []; routes = [] }
categorize unmarshal (res ∷ rest) = put_result (unmarshal res.body) (categorize unmarshal rest)

unfoldable pub update_binds : Changes → List Bind → Changes
update_binds c [] = c
update_binds c (b ∷ bs) = update_binds (update_bind c b) bs

unfoldable pub update_listeners : Env → Changes → List Listener → Changes
update_listeners env c [] = c
update_listeners env c (l ∷ ls) = update_listeners env (update_listener env c l) ls

unfoldable pub update_routes : Changes → List Route → Changes
update_routes c [] = c
update_routes c (r ∷ rs) = update_routes (update_route c r) rs

abbrev pub unchanged : ResourceStore → Changes
unchanged r = record { store = r; servers = []; routes = [] }

-- phases 1 to 4 of `Update`: binds, then listeners, then routes
unfoldable pub record_resources :
    Env → (String → Result Kind) → ResourceStore → List Resource → Changes
unfolding categorize update_binds update_listeners update_routes
record_resources env unmarshal r resources =
    let ls = categorize unmarshal resources in
    update_routes (update_listeners env (update_binds (unchanged r) ls.binds) ls.listeners)
      ls.routes

-- the cascade of `Remove` for one name: a bind, else a listener, else a route
unfoldable pub remove_found : Changes → Option Bind → Option Listener → Option Route → Changes
remove_found c (some b) l r = remove_bind c b
remove_found c none (some l) r = remove_listener c l
remove_found c none none (some r) = remove_route c r
remove_found c none none none = c

unfoldable pub remove_name : Changes → String → Changes
unfolding remove_found
remove_name c name =
    remove_found c (lookup name c.store.binds) (lookup name c.store.listeners)
      (lookup name c.store.routes)

-- the loop of `Remove` over the names
unfoldable pub remove_all : Changes → List String → Changes
unfolding remove_name
remove_all c [] = c
remove_all c (name ∷ names) = remove_all (remove_name c name) names
