-- ===== src/System/Exact.antt =====
-- resource.go, address.go: the handlers of both stores keep the listings of the routes exact, as long as no
-- message moves a route to another listener.
use mathlib.Core.Path.{subst}
use notyetanotherenvoybacken.Common.{
  String, Bool, true, false, not, ◌||◌, sym, List, [], ◌∷◌, Outcome, returned, ◌>>=◌, Ends,
  Ends-bind, Ends-if, Dict, is_empty, if◌then◌else◌, Bool-cases, inl, inr,
}
use notyetanotherenvoybacken.Address.State.{Resource}
use notyetanotherenvoybacken.Address.Update.{update}
use notyetanotherenvoybacken.Address.State.{AddressStore}
use notyetanotherenvoybacken.Nginx.{Manager}
use notyetanotherenvoybacken.Address.Locked.{ensure_upstream_file, remove_resources}
use notyetanotherenvoybacken.Resource.State.{ResourceStore, ServerFileConfig, values_of}
use notyetanotherenvoybacken.Resource.Removals.{record_resources, unchanged}
use notyetanotherenvoybacken.Resource.Remove.{remove_from_store}
use notyetanotherenvoybacken.Resource.Server.{generate_server_file}
use notyetanotherenvoybacken.Resource.Stale.{OnlyFiles, always-Finds}
use notyetanotherenvoybacken.Resource.Settled.{generate_server_file-Ends}
use notyetanotherenvoybacken.Resource.Exact.{Exact}
use notyetanotherenvoybacken.Resource.Steady.{IsSteady, record_resources-Exact, remove_all-Exact}
use notyetanotherenvoybacken.System.State.{
  Outside, System, put_resources, put_addresses, with_resource_lock,
}
use notyetanotherenvoybacken.System.Routes.{note_route, ensure_upstream}
use notyetanotherenvoybacken.System.Handlers.{
  write_servers, write_routes, reload_system, apply_changes, update_resources, remove_from_system,
  regenerate, on_service_available, notify_all, update_addresses, remove_addresses,
}
use notyetanotherenvoybacken.System.Steps.{write_routes-keeps, regenerate-keeps}
use notyetanotherenvoybacken.System.Composed.{remove_from_store-keeps}

-- The reverse lookup from listeners to routes is exact.
abbrev pub IsExact : System → Type 0
IsExact s = Exact s.resources

OnlyFiles-Exact : (r b : ResourceStore) → OnlyFiles r b → Exact r → Exact b
unfolding Exact
OnlyFiles-Exact r b (files, m, e) v = subst Exact (sym e) v

module _ (out : Outside) where
  with_resource_lock-Exact :
      (s : System) (f : System → Outcome System)
      → Ends (Unit {0}) IsExact (f (record s { locked = true }))
      → Ends (Unit {0}) IsExact (with_resource_lock s f)
  unfolding with_resource_lock
  with_resource_lock-Exact s f h = elim (Bool-cases s.locked) [
    | inl e ↦ rw (e, with_resource_lock) tt
    | inr e ↦
        rw (e, with_resource_lock)
          (Ends-bind (Unit {0}) IsExact IsExact (f (record s { locked = true })) _ h (λ t v. v))
  ]

  ensure_upstream-Exact :
      (s : System) (service_key : String)
      → IsExact s
      → Ends (Unit {0}) (λ x. IsExact x.1) (ensure_upstream out s service_key)
  unfolding ensure_upstream Exact
  ensure_upstream-Exact s service_key v =
      Ends-bind (Unit {0}) (λ x. Unit {0}) (λ x. IsExact x.1)
        (ensure_upstream_file out.env out.workloads s.addresses service_key) _
        (Ends-if (λ x. Unit {0}) _ (λ x e. tt)) (λ x h. v)

  note_route-Exact :
      (s : System) (service_key route_key : String)
      → IsExact s
      → IsExact (note_route service_key route_key s)
  unfolding Exact
  note_route-Exact s service_key route_key v = v

  reload_if-Exact :
      (s : System) (changed : Bool)
      → IsExact s
      → IsExact (if changed then reload_system out s else s)
  unfolding Exact
  reload_if-Exact s true v = v
  reload_if-Exact s false v = v

  write_routes-Exact :
      (s : System) (keys : List String)
      → IsExact s
      → Ends (Unit {0}) IsExact (write_routes out s keys)
  unfolding Exact
  write_routes-Exact =
      write_routes-keeps out (Unit {0}) IsExact note_route-Exact ensure_upstream-Exact (λ s m v. v)

  regenerate-Exact :
      (s : System) (keys : List String)
      → IsExact s
      → Ends (Unit {0}) IsExact (regenerate out s keys)
  unfolding Exact
  regenerate-Exact =
      regenerate-keeps out (Unit {0}) IsExact note_route-Exact ensure_upstream-Exact (λ s m v. v)

  put_addresses-Exact : (s : System) (a : AddressStore) → IsExact s → IsExact (put_addresses s a)
  unfolding Exact
  put_addresses-Exact s a v = v

  writes-Exact :
      (r : ResourceStore) (files : Dict ServerFileConfig) (n : Manager)
      → Exact r
      → Exact (record r { server_files = files; nginx = n })
  unfolding Exact
  writes-Exact r files n v = v

  write_servers-Exact :
      (s : System) (keys : List String)
      → IsExact s
      → Ends (Unit {0}) IsExact (write_servers out s keys)
  unfolding write_servers
  write_servers-Exact s [] v = v
  write_servers-Exact s (key ∷ keys) v =
      Ends-bind (Unit {0}) (λ x. OnlyFiles s.resources x.1) IsExact
        (generate_server_file out.env out.https s.resources key) _
        (generate_server_file-Ends out.env out.https (Unit {0}) s.resources key
          (always-Finds s.resources))
        (λ (e, b) same.
          write_servers-Exact (put_resources s b) keys (OnlyFiles-Exact s.resources b same v))

  pub update_resources-Exact :
      (s : System) (rs : List Resource)
      → IsExact s
      → IsSteady out.env out.unmarshal s.resources rs
      → Ends (Unit {0}) IsExact (update_resources out s rs)
  unfolding update_resources apply_changes
  update_resources-Exact s rs v steady =
      let held : System = record s { locked = true } in
      let c = record_resources out.env out.unmarshal s.resources rs in
      with_resource_lock-Exact s
        (λ t. apply_changes out t (record_resources out.env out.unmarshal t.resources rs))
        (Ends-bind (Unit {0}) IsExact IsExact
          (write_servers out (put_resources held c.store) (out.env.visits c.servers)) _
          (write_servers-Exact (put_resources held c.store) (out.env.visits c.servers)
            (record_resources-Exact out.env out.unmarshal s.resources rs v steady))
          (λ t w.
            Ends-bind (Unit {0}) IsExact IsExact (write_routes out t (out.env.visits c.routes)) _
              (write_routes-Exact t (out.env.visits c.routes) w)
              (λ u x. reload_if-Exact u (not (is_empty c.servers) || not (is_empty c.routes)) x)))

  pub remove_from_system-Exact :
      (s : System) (names : List String)
      → IsExact s
      → Ends (Unit {0}) IsExact (remove_from_system out s names)
  unfolding remove_from_system
  remove_from_system-Exact s names v =
      with_resource_lock-Exact s
        (λ t. remove_from_store out.env out.https t.resources names >>= λ r.
          returned (put_resources t r))
        (Ends-bind (Unit {0}) Exact IsExact (remove_from_store out.env out.https s.resources names)
          _
          (remove_from_store-keeps out.env out.https Exact writes-Exact s.resources names
            (remove_all-Exact (unchanged s.resources) names v))
          (λ r h. h))

  notify_all-Exact :
      (s : System) (services : List String)
      → IsExact s
      → Ends (Unit {0}) IsExact (notify_all out s services)
  unfolding notify_all on_service_available
  notify_all-Exact s [] v = v
  notify_all-Exact s (key ∷ keys) v =
      Ends-bind (Unit {0}) IsExact IsExact (on_service_available out s key) _
        (with_resource_lock-Exact s
          (λ t. regenerate out t (values_of t.resources.service_to_routes key))
          (regenerate-Exact (record s { locked = true })
            (values_of s.resources.service_to_routes key) v))
        (λ t w. notify_all-Exact t keys w)

  pub update_addresses-Exact :
      (s : System) (rs : List Resource)
      → IsExact s
      → Ends (Unit {0}) (λ x. IsExact x.1) (update_addresses out s rs)
  unfolding update_addresses
  update_addresses-Exact s rs v =
      Ends-bind (Unit {0}) (λ u. Unit {0}) _ (update out.env out.workloads s.addresses rs) _
        (Ends-if (λ u. Unit {0}) _ (λ u e. tt))
        (λ u h.
          Ends-bind (Unit {0}) IsExact _ (notify_all out (put_addresses s u.store) u.notified) _
            (notify_all-Exact (put_addresses s u.store) u.notified
              (put_addresses-Exact s u.store v))
            (λ t w. w))

  pub remove_addresses-Exact :
      (s : System) (names : List String)
      → IsExact s
      → Ends (Unit {0}) (λ x. IsExact x.1) (remove_addresses out s names)
  unfolding remove_addresses
  remove_addresses-Exact s names v =
      Ends-bind (Unit {0}) (λ x. Unit {0}) (λ x. IsExact x.1)
        (remove_resources out.env out.workloads s.addresses names) _
        (Ends-if (λ x. Unit {0}) _ (λ x e. tt)) (λ (e, a) h. put_addresses-Exact s a v)
