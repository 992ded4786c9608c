-- ===== src/Resource/History.antt =====
-- resource.go: the invariant of the reverse lookup over every history of the store.
use notyetanotherenvoybacken.Common.{
  String, Option, none, some, List, [], ◌∷◌, Dict, Result, lookup,
}
use notyetanotherenvoybacken.Nginx.{Env, Manager}
use notyetanotherenvoybacken.Address.State.{Resource}
use notyetanotherenvoybacken.Resource.State.{
  Bind, Listener, Route, ReverseMap, ResourceStore, ServerFileConfig, new_resource_store,
}
use notyetanotherenvoybacken.Resource.Book.{Changes, update_bind, update_listener, update_route}
use notyetanotherenvoybacken.Resource.Removals.{
  Kind, categorize, update_binds, update_listeners, update_routes, unchanged, record_resources,
  remove_bind, remove_found, remove_name, remove_all,
}
use notyetanotherenvoybacken.Resource.Listed.{
  Listed, update_route-Listed, update_listener-Listed, remove_route-Listed, remove_listener-Listed,
}

-- The stores that the book-keeping of `Update` and `Remove` leads to from a new one. The phases
-- that write files change only the server files, the routes that are listed under the services, and
-- what the manager keeps.
pub data History (env : Env) (unmarshal : String → Result Kind) : ResourceStore → Type 0 where
  new : (m : Manager) → History env unmarshal (new_resource_store m)
  updates :
      {r : ResourceStore} (resources : List Resource)
      → History env unmarshal r
      → History env unmarshal (record_resources env unmarshal r resources).store
  removes :
      {r : ResourceStore} (names : List String)
      → History env unmarshal r
      → History env unmarshal (remove_all (unchanged r) names).store
  writes :
      {r : ResourceStore} (services : ReverseMap) (files : Dict ServerFileConfig) (m : Manager)
      → History env unmarshal r
      → History env unmarshal
          (record r { service_to_routes = services; server_files = files; nginx = m })

update_binds-Listed :
    (c : Changes) (bs : List Bind) → Listed c.store → Listed (update_binds c bs).store
unfolding update_binds update_bind Listed
update_binds-Listed c [] v = v
update_binds-Listed c (b ∷ bs) v = update_binds-Listed (update_bind c b) bs v

update_listeners-Listed :
    (env : Env) (c : Changes) (ls : List Listener)
    → Listed c.store
    → Listed (update_listeners env c ls).store
unfolding update_listeners
update_listeners-Listed env c [] v = v
update_listeners-Listed env c (l ∷ ls) v =
    update_listeners-Listed env (update_listener env c l) ls (update_listener-Listed env c l v)

update_routes-Listed :
    (c : Changes) (rs : List Route) → Listed c.store → Listed (update_routes c rs).store
unfolding update_routes
update_routes-Listed c [] v = v
update_routes-Listed c (r ∷ rs) v =
    update_routes-Listed (update_route c r) rs (update_route-Listed c r v)

remove_found-Listed :
    (c : Changes) (b : Option Bind) (l : Option Listener) (r : Option Route)
    → Listed c.store
    → Listed (remove_found c b l r).store
unfolding remove_found remove_bind Listed
remove_found-Listed c (some b) l r v = v
remove_found-Listed c none (some l) r v = remove_listener-Listed c l v
remove_found-Listed c none none (some r) v = remove_route-Listed c r v
remove_found-Listed c none none none v = v

remove_all-Listed :
    (c : Changes) (names : List String) → Listed c.store → Listed (remove_all c names).store
unfolding remove_all remove_name
remove_all-Listed c [] v = v
remove_all-Listed c (name ∷ names) v =
    remove_all-Listed (remove_name c name) names (remove_found-Listed c _ _ _ v)

new-Listed : (m : Manager) → Listed (new_resource_store m)
unfolding Listed new_resource_store lookup
new-Listed m k route h = cc

writes-Listed :
    (r : ResourceStore) (services : ReverseMap) (files : Dict ServerFileConfig) (m : Manager)
    → Listed r
    → Listed (record r { service_to_routes = services; server_files = files; nginx = m })
unfolding Listed
writes-Listed r services files m v = v

-- In every store that the book-keeping of updates and removals leads to from a new one, whatever
-- becomes of the server files, of the routes that are listed under the services and of the manager
-- between them, every route stands in the reverse
-- lookup of its listener.
pub History-Listed :
    (env : Env) (unmarshal : String → Result Kind) (r : ResourceStore)
    → History env unmarshal r
    → Listed r
unfolding record_resources
History-Listed env unmarshal r (new m) = new-Listed m
History-Listed env unmarshal _ (updates {r} resources h) =
    let ls = categorize unmarshal resources in
    let binds = update_binds (unchanged r) ls.binds in
    update_routes-Listed (update_listeners env binds ls.listeners) ls.routes (
      update_listeners-Listed env binds ls.listeners
        (update_binds-Listed (unchanged r) ls.binds (History-Listed env unmarshal r h)))
History-Listed env unmarshal _ (removes {r} names h) =
    remove_all-Listed (unchanged r) names (History-Listed env unmarshal r h)
History-Listed env unmarshal _ (writes {r} services files m h) =
    writes-Listed r services files m (History-Listed env unmarshal r h)
