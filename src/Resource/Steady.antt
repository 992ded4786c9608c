-- ===== src/Resource/Steady.antt =====
-- resource.go: messages and removals that leave every route with its listener keep the reverse lookup
-- exact.
use notyetanotherenvoybacken.Common.{
  String, ◌≡◌, refl, ap, ◌∙◌, Option, none, some, List, [], ◌∷◌, Result, lookup, contains,
}
use notyetanotherenvoybacken.Nginx.{Env, Manager}
use notyetanotherenvoybacken.Address.State.{Resource}
use notyetanotherenvoybacken.Resource.State.{
  Bind, Listener, Route, ResourceStore, new_resource_store, values_of,
}
use notyetanotherenvoybacken.Resource.Book.{Changes, update_bind, update_listener, update_route}
use notyetanotherenvoybacken.Resource.Removals.{
  Kind, categorize, update_binds, update_listeners, update_routes, unchanged, record_resources,
  remove_bind, remove_found, remove_name, remove_all,
}
use notyetanotherenvoybacken.Resource.Stale.{NoStale}
use notyetanotherenvoybacken.Resource.Once.{[]-IsOnce}
use notyetanotherenvoybacken.Resource.Exact.{
  Exact, IsStaying, update_route-Exact, update_listener-Exact, remove_route-Exact,
  remove_listener-Exact,
}

-- Each of the routes, when its turn comes, stays with its listener.
abbrev pub AllStay : Changes → List Route → Type 0
AllStay c [] = Unit
AllStay c (r ∷ rs) = IsStaying c r × AllStay (update_route c r) rs

-- The routes of a response stay with their listeners.
abbrev pub IsSteady : Env → (String → Result Kind) → ResourceStore → List Resource → Type 0
IsSteady env unmarshal r resources =
    let ls = categorize unmarshal resources in
    AllStay (update_listeners env (update_binds (unchanged r) ls.binds) ls.listeners) ls.routes

pub Exact-NoStale : (r : ResourceStore) → Exact r → NoStale r
unfolding Exact
Exact-NoStale r (keyed, once, known) j k h = let (route, found, own) = known j k h in (route, found)

update_binds-Exact :
    (c : Changes) (bs : List Bind) → Exact c.store → Exact (update_binds c bs).store
unfolding update_binds update_bind Exact
update_binds-Exact c [] v = v
update_binds-Exact c (b ∷ bs) v = update_binds-Exact (update_bind c b) bs v

update_listeners-Exact :
    (env : Env) (c : Changes) (ls : List Listener)
    → Exact c.store
    → Exact (update_listeners env c ls).store
unfolding update_listeners
update_listeners-Exact env c [] v = v
update_listeners-Exact env c (l ∷ ls) v =
    update_listeners-Exact env (update_listener env c l) ls (update_listener-Exact env c l v)

update_routes-Exact :
    (c : Changes) (rs : List Route)
    → Exact c.store
    → AllStay c rs
    → Exact (update_routes c rs).store
unfolding update_routes
update_routes-Exact c [] v stay = v
update_routes-Exact c (r ∷ rs) v (first, rest) =
    update_routes-Exact (update_route c r) rs (update_route-Exact c r v first) rest

-- The book-keeping of `Update` keeps the reverse lookup exact, if no route moves.
pub record_resources-Exact :
    (env : Env) (unmarshal : String → Result Kind) (r : ResourceStore) (resources : List Resource)
    → Exact r
    → IsSteady env unmarshal r resources
    → Exact (record_resources env unmarshal r resources).store
unfolding record_resources
record_resources-Exact env unmarshal r resources v stay =
    let ls = categorize unmarshal resources in
    let binds = update_binds (unchanged r) ls.binds in
    update_routes-Exact (update_listeners env binds ls.listeners) ls.routes
      (update_listeners-Exact env binds ls.listeners (update_binds-Exact (unchanged r) ls.binds v))
      stay

own_key :
    (r : ResourceStore) (name : String) (route : Route)
    → Exact r
    → lookup name r.routes ≡ some route
    → lookup route.key r.routes ≡ some route
unfolding Exact
own_key r name route (keyed, once, known) h = ap (λ k. lookup k r.routes) (keyed name route h) ∙ h

remove_found-Exact :
    (c : Changes) (b : Option Bind) (l : Option Listener) (r : Option Route)
    → Exact c.store
    → ((route : Route) → r ≡ some route → lookup route.key c.store.routes ≡ some route)
    → Exact (remove_found c b l r).store
unfolding remove_found remove_bind Exact
remove_found-Exact c (some b) l r v own = v
remove_found-Exact c none (some l) r v own = remove_listener-Exact c l v
remove_found-Exact c none none (some r) v own = remove_route-Exact c r v (own r refl)
remove_found-Exact c none none none v own = v

-- The book-keeping of `Remove` keeps it exact.
pub remove_all-Exact :
    (c : Changes) (names : List String) → Exact c.store → Exact (remove_all c names).store
unfolding remove_all remove_name
remove_all-Exact c [] v = v
remove_all-Exact c (name ∷ names) v =
    remove_all-Exact (remove_name c name) names
      (remove_found-Exact c _ _ _ v (λ route h. own_key c.store name route v h))

-- A new store is exact.
pub new-Exact : (m : Manager) → Exact (new_resource_store m)
unfolding Exact new_resource_store lookup values_of contains
new-Exact m = (λ k route h. absurd cc, λ j. []-IsOnce, λ j k h. absurd cc)
