-- ===== src/System/Notified.antt =====
-- address.go, resource.go: the routes that are written again when a service becomes available.
use notyetanotherenvoybacken.Common.{
  String, true, false, ◌≡◌, refl, ◌⊎◌, inl, inr, none, List, [], ◌∷◌, returned, Returns,
  Returns-map, Returns-bind, contains, string_dec, string_eq, arith,
}
use notyetanotherenvoybacken.Address.State.{Resource}
use notyetanotherenvoybacken.Address.Update.{Updated, update}
use notyetanotherenvoybacken.Address.Lock.{update_mutex}
use notyetanotherenvoybacken.Address.Rewrites.{Reliable}
use notyetanotherenvoybacken.Resource.State.{values_of}
use notyetanotherenvoybacken.System.State.{
  Outside, System, IsShared, put_addresses, with_resource_lock-Returns,
}
use notyetanotherenvoybacken.System.Handlers.{
  write_routes, regenerate, on_service_available, notify_all, update_addresses,
}
use notyetanotherenvoybacken.System.Kept.{
  Keeps, Keeps-refl, Keeps-trans, Keeps-relock, written_manager-Keeps,
}
use notyetanotherenvoybacken.System.Current.{
  IsCurrent, OwnsRouteFile, Writes, none_due, write_routes-Writes, reload_system-Current,
  OwnsRouteFile-Keeps,
}

-- The route is listed under the service.
abbrev pub IsListedUnder : String → String → System → Type 0
IsListedUnder route_key service_key s =
    contains route_key (values_of s.resources.service_to_routes service_key) ≡ true

module _ (out : Outside) (ok_env : Reliable out.env) (key : String) where
  -- The resource store's mutex is free, the rest is kept, and the file of the route is current
  -- under that condition.
  abbrev pub Serves : Type 0 → System → System → Type 0
  Serves due s t = (t.locked ≡ false) × Keeps s t × (due → IsCurrent out t key)

  regenerate-Writes :
      (s : System) (keys : List String)
      → OwnsRouteFile s key
      → s.addresses.locked ≡ false
      → IsShared s
      → Returns (Writes out ok_env key s keys) (regenerate out s keys)
  regenerate-Writes s [] owns free shared = (Keeps-refl s free shared, none_due out ok_env key s)
  regenerate-Writes s (k ∷ keys) owns free shared =
      Returns-bind (Writes out ok_env key s (k ∷ keys)) _ (write_routes out s (k ∷ keys)) _
        (write_routes-Writes out ok_env key s (k ∷ keys) owns free shared)
        (λ t (keeps, current). (
          Keeps-trans keeps (written_manager-Keeps t _ keeps.free),
          λ before. reload_system-Current out ok_env key t keeps.shared (current before),
        ))

  on_service_available-Serves :
      (s : System) (service_key : String)
      → s.locked ≡ false
      → OwnsRouteFile s key
      → s.addresses.locked ≡ false
      → IsShared s
      → Returns
          (Serves (IsListedUnder key service_key s ⊎ IsCurrent out s key) s)
          (on_service_available out s service_key)
  unfolding on_service_available
  on_service_available-Serves s service_key unlocked owns free shared =
      with_resource_lock-Returns
        (Writes out ok_env key (record s { locked = true })
          (values_of s.resources.service_to_routes service_key))
        (Serves (IsListedUnder key service_key s ⊎ IsCurrent out s key) s) s
        (λ t. regenerate out t (values_of t.resources.service_to_routes service_key)) unlocked
        (regenerate-Writes (record s { locked = true })
          (values_of s.resources.service_to_routes service_key) owns free shared)
        (λ t (keeps, current). (refl, Keeps-relock s t true false keeps, current))

  -- the route waits for one of these services, or its file is current
  abbrev Due : System → List String → String → Type 0
  Due s services service_key =
      ((contains service_key services ≡ true) × IsListedUnder key service_key s)
      ⊎ IsCurrent out s key

  later_calls :
      (s t : System) (k : String) (ks : List String) (service_key : String)
      → Serves (IsListedUnder key k s ⊎ IsCurrent out s key) s t
      → Due s (k ∷ ks) service_key
      → Due t ks service_key
  unfolding contains
  later_calls s t k ks service_key (_, keeps, step) (inr current) = inr (step (inr current))
  later_calls s t k ks service_key (_, keeps, step) (inl (h, listed)) =
      elim (string_dec service_key k) [
        | yes e ↦ inr (step (inl (rw (← e) listed)))
        | no n ↦ inl (ground (arith, h, n), keeps.lists service_key key listed)
      ]

  no_calls : (s : System) (service_key : String) → Due s [] service_key → IsCurrent out s key
  unfolding contains
  no_calls s service_key (inl (h, _)) = absurd cc
  no_calls s service_key (inr current) = current

  notify_all-Serves :
      (s : System) (services : List String) (service_key : String)
      → s.locked ≡ false
      → OwnsRouteFile s key
      → s.addresses.locked ≡ false
      → IsShared s
      → Returns (Serves (Due s services service_key) s) (notify_all out s services)
  unfolding notify_all
  notify_all-Serves s [] service_key unlocked owns free shared =
      (unlocked, Keeps-refl s free shared, no_calls s service_key)
  notify_all-Serves s (k ∷ ks) service_key unlocked owns free shared =
      Returns-bind (Serves (IsListedUnder key k s ⊎ IsCurrent out s key) s) _
        (on_service_available out s k) _ (on_service_available-Serves s k unlocked owns free shared)
        (λ t (open_again, keeps, step).
          Returns-map (Serves (Due t ks service_key) t) _ (notify_all out t ks)
            (notify_all-Serves t ks service_key open_again
              (OwnsRouteFile-Keeps out ok_env key s t keeps owns) keeps.free keeps.shared)
            (λ u (last, keeps2, current). (
              last,
              Keeps-trans keeps keeps2,
              λ due. current (later_calls s t k ks service_key (open_again, keeps, step) due),
            )))

module _ (out : Outside) (ok_env : Reliable out.env) where
  -- Where builds and writes succeed, both mutexes are free and the manager is shared: if the
  -- address store's part of `Update` returns no error and calls the callback for a service, the
  -- whole of `Update` returns. It leaves the address store's maps as that part left them, both
  -- mutexes free, and every route that waits for the service, if its file is its own, with the file
  -- that its backends now call for.
  pub update_addresses-Serves :
      (s : System) (rs : List Resource) (u : Updated) (service_key key : String)
      → s.locked ≡ false
      → OwnsRouteFile s key
      → update out.env out.workloads s.addresses rs ≡ returned u
      → u.error ≡ none
      → contains service_key u.notified ≡ true
      → IsListedUnder key service_key s
      → Returns
          (λ (e, t).
            (e ≡ none)
            × (t.locked ≡ false)
            × (t.addresses.locked ≡ false)
            × IsCurrent out t key
            × (t.addresses.service_map ≡ u.store.service_map)
            × (t.addresses.workload_map ≡ u.store.workload_map))
          (update_addresses out s rs)
  unfolding update_addresses
  update_addresses-Serves s rs u service_key key unlocked owns h silent notified listed =
      rw (h, update_addresses)
        (Returns-bind
          (Serves out ok_env key
            ((contains service_key u.notified ≡ true)
                × IsListedUnder key service_key (put_addresses s u.store)
              ⊎ IsCurrent out (put_addresses s u.store) key)
            (put_addresses s u.store))
          _ (notify_all out (put_addresses s u.store) u.notified) _
          (notify_all-Serves out ok_env key (put_addresses s u.store) u.notified service_key
            unlocked owns ((update_mutex out.env out.workloads s.addresses rs u h).0 silent) refl)
          (λ t (last, keeps, current). (
            silent,
            last,
            keeps.free,
            current (inl (notified, listed)),
            keeps.services,
            keeps.workloads,
          )))
