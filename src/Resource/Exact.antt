-- ===== src/Resource/Exact.antt =====
-- resource.go: the reverse lookup from listeners to routes lists exactly the routes of each listener,
-- as long as no route moves to another listener.
use mathlib.Core.Path.{subst}
use mathlib.Core.Option.{some-injective}
use notyetanotherenvoybacken.Common.{
  String, true, false, ◌≡◌, ◌≢◌, sym, ap, ◌∙◌, Option, none, some, arith, contains, lookup,
  lookup-insert, lookup-erase, Bool-cases, inl, inr, ◌==◌, ◌||◌, not, string_eq, string_dec,
}
use notyetanotherenvoybacken.Nginx.{Env}
use notyetanotherenvoybacken.Resource.State.{Listener, Route, ResourceStore, values_of}
use notyetanotherenvoybacken.Resource.Book.{Changes, drop_server, update_listener, update_route}
use notyetanotherenvoybacken.Resource.Removals.{drop_routes, remove_listener, remove_route}
use notyetanotherenvoybacken.Resource.Listed.{
  values_of-erase, contains-add_to_reverse_map, values_of-remove_from_reverse_map,
  contains-remove_from_reverse_map, drop_routes-kept, lookup-drop_routes,
}
use notyetanotherenvoybacken.Resource.Once.{
  OnceEach, erase-OnceEach, add_to_reverse_map-OnceEach, remove_from_reverse_map-OnceEach,
  removed_is_gone,
}

-- Every route has its own key, every key is listed once under a listener, and the keys listed there
-- are those of routes of this listener.
unfoldable pub Exact : ResourceStore → Type 0
Exact r =
    ((k : String) (route : Route) → lookup k r.routes ≡ some route → route.key ≡ k)
    × OnceEach r.listener_to_routes
    × ((j k : String)
        → contains k (values_of r.listener_to_routes j) ≡ true
        → (route : Route) × (lookup k r.routes ≡ some route) × (route.listener_key ≡ j))

-- The route stays with its listener, if it is known.
abbrev pub IsStaying : Changes → Route → Type 0
IsStaying c new =
    (old : Route) → lookup new.key c.store.routes ≡ some old → old.listener_key ≡ new.listener_key

known_after :
    (c : Changes) (new : Route)
    → Exact c.store
    → IsStaying c new
    → (j k : String) → contains k (values_of (update_route c new).store.listener_to_routes j) ≡ true
    → (route : Route) × (lookup k (update_route c new).store.routes ≡ some route)
      × (route.listener_key ≡ j)
unfolding Exact update_route
known_after c new (keyed, once, known) stays j k h = elim (string_dec k new.key) [
  | yes e ↦ elim (string_dec j new.listener_key) [
    | yes d ↦ (new, ground (arith, lookup-insert k new.key new c.store.routes), sym d)
    | no d ↦
        let before : contains k (values_of c.store.listener_to_routes j) ≡ true = ground (
          arith,
          h,
          contains-add_to_reverse_map c.store.listener_to_routes new.listener_key new.key j k,
        ) in
        let (old, found, own) = known j k before in
        absurd (d (sym own ∙ stays old (ap (λ x. lookup x c.store.routes) (sym e) ∙ found)))
  ]
  | no n ↦
      let before : contains k (values_of c.store.listener_to_routes j) ≡ true = ground (
        arith,
        h,
        contains-add_to_reverse_map c.store.listener_to_routes new.listener_key new.key j k,
      ) in
      let (old, found, own) = known j k before in
      (old, ground (arith, found, lookup-insert k new.key new c.store.routes), own)
]

pub update_route-Exact :
    (c : Changes) (new : Route) → Exact c.store → IsStaying c new → Exact (update_route c new).store
unfolding Exact update_route
update_route-Exact c new (keyed, once, known) stays = (
  λ k route h. ground (arith, h, keyed k route, lookup-insert k new.key new c.store.routes),
  add_to_reverse_map-OnceEach c.store.listener_to_routes new.listener_key new.key once,
  known_after c new (keyed, once, known) stays,
)

listed_before :
    (c : Changes) (old : Route) (j k : String)
    → k ≢ old.key
    → contains k (values_of (remove_route c old).store.listener_to_routes j) ≡ true
    → contains k (values_of c.store.listener_to_routes j) ≡ true
unfolding remove_route
listed_before c old j k n h =
    sym (contains-remove_from_reverse_map c.store.listener_to_routes old.listener_key old.key j k n)
    ∙ h

known_after_removal :
    (c : Changes) (old : Route)
    → Exact c.store
    → lookup old.key c.store.routes ≡ some old
    → (j k : String) → contains k (values_of (remove_route c old).store.listener_to_routes j) ≡ true
    → (route : Route) × (lookup k (remove_route c old).store.routes ≡ some route)
      × (route.listener_key ≡ j)
unfolding Exact remove_route
known_after_removal c old (keyed, once, known) stored j k h = elim (string_dec k old.key) [
  | no n ↦
      let (route, found, own) = known j k (listed_before c old j k n h) in
      (route, ground (arith, found, lookup-erase k old.key c.store.routes), own)
  | yes e ↦ elim (string_dec j old.listener_key) [
    | yes d ↦
        absurd
          (cc (h, e, d, removed_is_gone c.store.listener_to_routes old.listener_key old.key once))
    | no d ↦
        let before =
          ap (contains k) (
            sym (
              values_of-remove_from_reverse_map c.store.listener_to_routes old.listener_key old.key
                j d))
          ∙ h in
        let (route, found, own) = known j k before in
        let same = some-injective _ _ (sym found ∙ ap (λ x. lookup x c.store.routes) e ∙ stored) in
        absurd (d (sym own ∙ ap (λ x. x.listener_key) same))
  ]
]

pub remove_route-Exact :
    (c : Changes) (old : Route)
    → Exact c.store
    → lookup old.key c.store.routes ≡ some old
    → Exact (remove_route c old).store
unfolding Exact remove_route
remove_route-Exact c old (keyed, once, known) stored = (
  λ k route h. ground (arith, h, keyed k route, lookup-erase k old.key c.store.routes),
  remove_from_reverse_map-OnceEach c.store.listener_to_routes old.listener_key old.key once,
  known_after_removal c old (keyed, once, known) stored,
)

-- A key that is listed under a listener is listed under no other.
not_elsewhere :
    (r : ResourceStore)
    → Exact r
    → (i j k : String) → contains k (values_of r.listener_to_routes i) ≡ true
    → i ≢ j
    → contains k (values_of r.listener_to_routes j) ≡ false
unfolding Exact
not_elsewhere r (keyed, once, known) i j k h n =
    elim (Bool-cases (contains k (values_of r.listener_to_routes j))) [
      | inr e ↦ e
      | inl e ↦
          let (first, found, own) = known i k h in
          let (second, found', own') = known j k e in
          let same = some-injective _ _ (sym found ∙ found') in
          absurd (n (sym own ∙ ap (λ x. x.listener_key) same ∙ own'))
    ]

known_without_listener :
    (c : Changes) (l : Listener)
    → Exact c.store
    → (j k : String)
    → contains k (values_of (remove_listener c l).store.listener_to_routes j) ≡ true
    → (route : Route) × (lookup k (remove_listener c l).store.routes ≡ some route)
      × (route.listener_key ≡ j)
unfolding Exact remove_listener contains
known_without_listener c l (keyed, once, known) j k h =
    let keys = values_of c.store.listener_to_routes l.key in
    let d = drop_routes l.key c keys in
    let kept = drop_routes-kept l.key c keys in
    elim (string_dec j l.key) [
      | yes e ↦ absurd (ground (arith, h, e, values_of-erase d.store.listener_to_routes j l.key))
      | no n ↦
          let still : contains k (values_of d.store.listener_to_routes j) ≡ true =
            ground (arith, h, n, values_of-erase d.store.listener_to_routes j l.key) in
          let before = ap (λ m. contains k (values_of m j)) (sym kept) ∙ still in
          let (route, found, own) = known j k before in
          let elsewhere : contains k keys ≡ false =
            not_elsewhere c.store (keyed, once, known) j l.key k before n in
          (route, ground (arith, found, elsewhere, lookup-drop_routes l.key c keys k), own)
    ]

pub remove_listener-Exact :
    (c : Changes) (l : Listener) → Exact c.store → Exact (remove_listener c l).store
unfolding Exact remove_listener
remove_listener-Exact c l (keyed, once, known) =
    let keys = values_of c.store.listener_to_routes l.key in
    (
      λ k route h. ground (arith, h, keyed k route, lookup-drop_routes l.key c keys k),
      erase-OnceEach (drop_routes l.key c keys).store.listener_to_routes l.key
          (subst OnceEach (sym (drop_routes-kept l.key c keys)) once),
      known_without_listener c l (keyed, once, known),
    )

drop_server-Exact :
    (env : Env) (r : ResourceStore) (new : Listener) (old : Option Listener)
    → Exact r
    → Exact (drop_server env r new old)
unfolding Exact drop_server
drop_server-Exact env r new none v = v
drop_server-Exact env r new (some old) v =
    elim (Bool-cases (not (old.hostname == new.hostname) || not (old.bind_key == new.bind_key))) [
      | inl h ↦ rw h v
      | inr h ↦ rw h v
    ]

pub update_listener-Exact :
    (env : Env) (c : Changes) (l : Listener) → Exact c.store → Exact (update_listener env c l).store
unfolding update_listener Exact
update_listener-Exact env c l v = drop_server-Exact env _ l (lookup l.key c.store.listeners) v
