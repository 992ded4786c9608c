-- ===== src/Resource/Listed.antt =====
-- resource.go: the reverse lookup from listeners to routes knows every route.
use mathlib.Core.Logic.{if_neg}
use notyetanotherenvoybacken.Common.{
  String, true, false, not, ◌&&◌, ◌||◌, ◌≡◌, ◌≢◌, refl, ap, ◌∙◌, Option, none, some, List, [], ◌∷◌,
  ◌++◌, arith, lookup, insert, erase, contains, is_empty, lookup-insert, lookup-erase, Bool-cases,
  inl, inr, ◌==◌, if◌then◌else◌, string_eq, string_dec,
}
use notyetanotherenvoybacken.Nginx.{Env}
use notyetanotherenvoybacken.Resource.State.{
  Listener, Route, ReverseMap, ResourceStore, values_of, add_to_reverse_map, remove_first,
  remove_from_reverse_map,
}
use notyetanotherenvoybacken.Resource.Book.{Changes, drop_server, update_listener, update_route}
use notyetanotherenvoybacken.Resource.Removals.{
  drop_route, drop_routes, remove_listener, remove_route,
}

pub contains-append :
    (k : String) (s t : List String)
    → contains k (s ++ t) ≡ (if contains k s then true else contains k t)
unfolding contains
contains-append k [] t = refl
contains-append k (j ∷ s) t = ground (arith, contains-append k s t)

-- Another value stays when one is removed.
contains-remove_first :
    (k v : String) (s : List String) → k ≢ v → contains k (remove_first v s) ≡ contains k s
unfolding contains remove_first
contains-remove_first k v [] n = refl
contains-remove_first k v (j ∷ s) n = ground (arith, contains-remove_first k v s n)

pub values_of-insert :
    (m : ReverseMap) (j k : String) (vs : List String)
    → values_of (insert k vs m) j ≡ (if j == k then vs else values_of m j)
unfolding values_of
values_of-insert m j k vs = ground (arith, lookup-insert j k vs m)

pub values_of-erase :
    (m : ReverseMap) (j k : String)
    → values_of (erase k m) j ≡ (if j == k then [] else values_of m j)
unfolding values_of
values_of-erase m j k = ground (arith, lookup-erase j k m)

-- After an addition, exactly the value is new under the key.
pub contains-add_to_reverse_map :
    (m : ReverseMap) (key value j k : String)
    → contains k (values_of (add_to_reverse_map m key value) j)
      ≡ (if j == key && k == value then true else contains k (values_of m j))
unfolding add_to_reverse_map contains
contains-add_to_reverse_map m key value j k = ground (
  arith,
  values_of-insert m j key (values_of m key ++ (value ∷ [])),
  contains-append k (values_of m key) (value ∷ []),
)

pub contains-empty : (k : String) (s : List String) → is_empty s ≡ true → contains k s ≡ false
unfolding contains
contains-empty k [] h = refl
contains-empty k (x ∷ s) h = cc

-- Other keys keep their values.
pub values_of-remove_from_reverse_map :
    (m : ReverseMap) (key value j : String)
    → j ≢ key
    → values_of (remove_from_reverse_map m key value) j ≡ values_of m j
unfolding remove_from_reverse_map
values_of-remove_from_reverse_map m key value j n = ground (
  arith,
  values_of-erase m j key,
  values_of-insert m j key (remove_first value (values_of m key)),
)

removed_under :
    (m : ReverseMap) (key value k : String)
    → k ≢ value
    → contains k (values_of (remove_from_reverse_map m key value) key)
      ≡ contains k (values_of m key)
unfolding remove_from_reverse_map contains
removed_under m key value k n =
    let rest = remove_first value (values_of m key) in
    elim (Bool-cases (is_empty rest)) [
      | inl h ↦ ground (
        arith,
        h,
        values_of-erase m key key,
        contains-remove_first k value (values_of m key) n,
        contains-empty k rest h,
      )
      | inr h ↦ ground (
        arith,
        h,
        values_of-insert m key key rest,
        contains-remove_first k value (values_of m key) n,
      )
    ]

pub contains-remove_from_reverse_map :
    (m : ReverseMap) (key value j k : String)
    → k ≢ value
    → contains k (values_of (remove_from_reverse_map m key value) j) ≡ contains k (values_of m j)
contains-remove_from_reverse_map m key value j k n = elim (string_dec j key) [
  | yes e ↦ rw e (removed_under m key value k n)
  | no d ↦ ap (contains k) (values_of-remove_from_reverse_map m key value j d)
]

-- Every route stands in the reverse lookup, under its listener.
unfoldable pub Listed : ResourceStore → Type 0
Listed r =
    (k : String) (route : Route)
    → lookup k r.routes ≡ some route
    → contains k (values_of r.listener_to_routes route.listener_key) ≡ true

pub update_route-Listed :
    (c : Changes) (new : Route) → Listed c.store → Listed (update_route c new).store
unfolding Listed update_route
update_route-Listed c new v k route h = ground (
  arith,
  lookup-insert k new.key new c.store.routes,
  v k route,
  contains-add_to_reverse_map c.store.listener_to_routes new.listener_key new.key route.listener_key
      k,
)

pub remove_route-Listed :
    (c : Changes) (old : Route) → Listed c.store → Listed (remove_route c old).store
unfolding Listed remove_route
remove_route-Listed c old v k route h = elim (string_dec k old.key) [
  | yes e ↦ ground (arith, h, e, lookup-erase k old.key c.store.routes)
  | no n ↦
      contains-remove_from_reverse_map c.store.listener_to_routes old.listener_key old.key
        route.listener_key k n
      ∙ v k route (ground (arith, lookup-erase k old.key c.store.routes))
]

drop_route-kept :
    (listener_key : String) (c : Changes) (key : String) (found : Option Route)
    → (drop_route listener_key c key found).store.listener_to_routes ≡ c.store.listener_to_routes
unfolding drop_route
drop_route-kept listener_key c key none = refl
drop_route-kept listener_key c key (some route) = refl

-- After the removal of these routes, exactly they are gone.
pub drop_routes-kept :
    (listener_key : String) (c : Changes) (keys : List String)
    → (drop_routes listener_key c keys).store.listener_to_routes ≡ c.store.listener_to_routes
unfolding drop_routes
drop_routes-kept listener_key c [] = refl
drop_routes-kept listener_key c (key ∷ keys) =
    drop_routes-kept listener_key (drop_route listener_key c key (lookup key c.store.routes)) keys
    ∙ drop_route-kept listener_key c key (lookup key c.store.routes)

lookup-drop_route :
    (listener_key : String) (c : Changes) (key k : String) (found : Option Route)
    → lookup key c.store.routes ≡ found
    → lookup k (drop_route listener_key c key found).store.routes
      ≡ (if k == key then none else lookup k c.store.routes)
unfolding drop_route
lookup-drop_route listener_key c key k none h = elim (string_dec k key) [
  | yes e ↦ rw e (ground (arith, h))
  | no n ↦ ground (arith, n)
]
lookup-drop_route listener_key c key k (some route) h = lookup-erase k key c.store.routes

pub lookup-drop_routes :
    (listener_key : String) (c : Changes) (keys : List String) (k : String)
    → lookup k (drop_routes listener_key c keys).store.routes
      ≡ (if contains k keys then none else lookup k c.store.routes)
unfolding drop_routes contains
lookup-drop_routes listener_key c [] k = refl
lookup-drop_routes listener_key c (key ∷ keys) k =
    let d = drop_route listener_key c key (lookup key c.store.routes) in
    ground (
      arith,
      lookup-drop_routes listener_key d keys k,
      lookup-drop_route listener_key c key k (lookup key c.store.routes) refl,
    )

pub remove_listener-Listed :
    (c : Changes) (l : Listener) → Listed c.store → Listed (remove_listener c l).store
unfolding Listed remove_listener
remove_listener-Listed c l v k route h =
    let keys = values_of c.store.listener_to_routes l.key in
    let d = drop_routes l.key c keys in
    let before : lookup k c.store.routes ≡ some route =
      ground (arith, h, lookup-drop_routes l.key c keys k) in
    let kept : contains k keys ≡ false = ground (arith, h, lookup-drop_routes l.key c keys k) in
    elim (string_dec route.listener_key l.key) [
      | yes e ↦
          cc (
            v k route before,
            kept,
            ap (λ x. contains k (values_of c.store.listener_to_routes x)) e,
          )
      | no n ↦
          ap (contains k) (
            values_of-erase d.store.listener_to_routes route.listener_key l.key
            ∙ rw (if_neg _ n) refl)
          ∙ ap (λ m. contains k (values_of m route.listener_key)) (drop_routes-kept l.key c keys)
          ∙ v k route before
    ]

drop_server-kept :
    (env : Env) (r : ResourceStore) (new : Listener) (old : Option Listener)
    → Listed r
    → Listed (drop_server env r new old)
unfolding Listed drop_server
drop_server-kept env r new none v = v
drop_server-kept env r new (some old) v =
    elim (Bool-cases (not (old.hostname == new.hostname) || not (old.bind_key == new.bind_key))) [
      | inl h ↦ rw h v
      | inr h ↦ rw h v
    ]

pub update_listener-Listed :
    (env : Env) (c : Changes) (l : Listener)
    → Listed c.store
    → Listed (update_listener env c l).store
unfolding update_listener Listed
update_listener-Listed env c l v = drop_server-kept env _ l (lookup l.key c.store.listeners) v
