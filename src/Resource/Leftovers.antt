-- ===== src/Resource/Leftovers.antt =====
-- resource.go: the route files of removed routes.
use notyetanotherenvoybacken.Common.{
  String, true, ◌≡◌, refl, sym, ap, ◌∙◌, Option, none, some, List, [], ◌∷◌, arith, lookup, contains,
  contains-add, contains-perm, lookup-erase, string_eq,
}
use notyetanotherenvoybacken.Nginx.{Env}
use notyetanotherenvoybacken.Resource.State.{Bind, Listener, Route, ResourceStore, values_of}
use notyetanotherenvoybacken.Resource.Book.{Changes}
use notyetanotherenvoybacken.Resource.Removals.{
  unchanged, remove_bind, drop_route, drop_routes, remove_listener, remove_route, remove_found,
  remove_name, remove_all,
}
use notyetanotherenvoybacken.Resource.Remove.{delete_route_file, delete_route_files}

-- The deleted routes are no longer in the store.
Gone : Changes → Type 0
Gone c = (k : String) → contains k c.routes ≡ true → lookup k c.store.routes ≡ none

drop_route-Gone :
    (listener_key : String) (c : Changes) (key : String) (found : Option Route)
    → Gone c
    → Gone (drop_route listener_key c key found)
unfolding Gone drop_route
drop_route-Gone listener_key c key none v = v
drop_route-Gone listener_key c key (some route) v =
    λ k h. ground (arith, h, v k, contains-add k key c.routes, lookup-erase k key c.store.routes)

drop_routes-Gone :
    (listener_key : String) (c : Changes) (keys : List String)
    → Gone c
    → Gone (drop_routes listener_key c keys)
unfolding drop_routes
drop_routes-Gone listener_key c [] v = v
drop_routes-Gone listener_key c (key ∷ keys) v =
    drop_routes-Gone listener_key (drop_route listener_key c key (lookup key c.store.routes)) keys
      (drop_route-Gone listener_key c key (lookup key c.store.routes) v)

remove_found-Gone :
    (c : Changes) (b : Option Bind) (l : Option Listener) (r : Option Route)
    → Gone c
    → Gone (remove_found c b l r)
unfolding remove_found remove_bind remove_listener remove_route Gone
remove_found-Gone c (some b) l r v = v
remove_found-Gone c none (some l) r v =
    drop_routes-Gone l.key c (values_of c.store.listener_to_routes l.key) v
remove_found-Gone c none none (some r) v = λ k h.
    ground (arith, h, v k, contains-add k r.key c.routes, lookup-erase k r.key c.store.routes)
remove_found-Gone c none none none v = v

remove_all-Gone : (c : Changes) (names : List String) → Gone c → Gone (remove_all c names)
unfolding remove_all remove_name
remove_all-Gone c [] v = v
remove_all-Gone c (name ∷ names) v =
    remove_all-Gone (remove_name c name) names (remove_found-Gone c _ _ _ v)

delete_nothing :
    (env : Env) (r : ResourceStore) (keys : List String)
    → ((k : String) → contains k keys ≡ true → lookup k r.routes ≡ none)
    → delete_route_files env r keys ≡ r
unfolding delete_route_files delete_route_file contains
delete_nothing env r [] gone = refl
delete_nothing env r (key ∷ keys) gone =
    ap (λ b. delete_route_files env b keys)
      (ap (delete_route_file env r key) (gone key (ground arith)))
    ∙ delete_nothing env r keys (λ k h. gone k (ground (arith, h)))

-- The loop of `Remove` over the files of the routes that it deleted leaves every file in place, in
-- every store with the routes that the removal left: these routes are no longer there to tell the
-- names of their files.
pub remove_keeps_route_files :
    (env : Env) (r b : ResourceStore) (names : List String)
    → b.routes ≡ (remove_all (unchanged r) names).store.routes
    → delete_route_files env b (env.visits (remove_all (unchanged r) names).routes) ≡ b
unfolding Gone contains
remove_keeps_route_files env r b names same =
    let c = remove_all (unchanged r) names in
    delete_nothing env b (env.visits c.routes) (λ k h.
      ap (lookup k) same
      ∙ remove_all-Gone (unchanged r) names (λ j g. cc) k
          (sym (contains-perm k (env.visits_perm c.routes)) ∙ h))
