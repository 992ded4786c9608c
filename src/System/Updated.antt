-- ===== src/System/Updated.antt =====
-- resource.go: `Update` of the resource store writes the files of the routes that it received.
use mathlib.Core.Path.{subst}
use notyetanotherenvoybacken.Common.{
  sym, String, Bool, true, false, not, ◌||◌, ◌≡◌, refl, ◌∙◌, inl, List, [], ◌∷◌, Returns,
  Returns-map, Returns-bind, contains, is_empty, if◌then◌else◌, contains-perm, string_eq,
}
use notyetanotherenvoybacken.Address.State.{Resource}
use notyetanotherenvoybacken.Address.Rewrites.{Reliable}
use notyetanotherenvoybacken.Resource.State.{ResourceStore}
use notyetanotherenvoybacken.Resource.Book.{Changes}
use notyetanotherenvoybacken.Resource.Removals.{record_resources}
use notyetanotherenvoybacken.Resource.Server.{generate_server_file}
use notyetanotherenvoybacken.System.State.{
  Outside, System, IsShared, put_resources, with_resource_lock-Returns,
}
use notyetanotherenvoybacken.System.Handlers.{
  write_servers, write_routes, reload_system, apply_changes, update_resources,
}
use notyetanotherenvoybacken.System.Kept.{Keeps, Keeps-refl, Keeps-trans, written_manager-Keeps}
use notyetanotherenvoybacken.System.Current.{
  IsCurrent, OwnsRouteFile, Writes, write_routes-Writes, reload_system-Current, OwnsRouteFile-Keeps,
}
use notyetanotherenvoybacken.Resource.Stale.{NoStale, OnlyFiles, OnlyFiles-NoStale}
use notyetanotherenvoybacken.Resource.Settled.{generate_server_file-Returns}

OnlyFiles-Keeps :
    (s : System) (b : ResourceStore)
    → s.addresses.locked ≡ false
    → OnlyFiles s.resources b
    → Keeps s (put_resources s b)
OnlyFiles-Keeps s b free (files, m, e) =
    subst (λ x. Keeps s (put_resources s x)) (sym e)
      (record {
        free = free;
        shared = refl;
        routes = refl;
        services = refl;
        workloads = refl;
        lists = λ service_key route_key h. h;
        marks = λ k h. h;
      })

module _ (out : Outside) where
  -- Without a stale listing, the loop over the server files returns.
  write_servers-Keeps :
      (s : System) (keys : List String)
      → NoStale s.resources
      → s.addresses.locked ≡ false
      → IsShared s
      → Returns (Keeps s) (write_servers out s keys)
  unfolding write_servers
  write_servers-Keeps s [] fresh free shared = Keeps-refl s free shared
  write_servers-Keeps s (key ∷ keys) fresh free shared =
      Returns-bind (λ x. OnlyFiles s.resources x.1) (Keeps s)
        (generate_server_file out.env out.https s.resources key) _
        (generate_server_file-Returns out.env out.https s.resources key fresh)
        (λ (e, b) same.
          let first = OnlyFiles-Keeps s b free same in
          Returns-map (Keeps (put_resources s b)) (Keeps s)
            (write_servers out (put_resources s b) keys)
            (write_servers-Keeps (put_resources s b) keys
              (OnlyFiles-NoStale s.resources b same fresh) free refl)
            (λ t k. Keeps-trans first k))

module _ (out : Outside) (ok_env : Reliable out.env) (key : String) where
  reload_changed-Current :
      (s : System) (changed : Bool)
      → s.addresses.locked ≡ false
      → IsShared s
      → Keeps s (if changed then reload_system out s else s)
        × (IsCurrent out s key → IsCurrent out (if changed then reload_system out s else s) key)
  reload_changed-Current s true free shared =
      (written_manager-Keeps s _ free, reload_system-Current out ok_env key s shared)
  reload_changed-Current s false free shared = (Keeps-refl s free shared, λ h. h)

  apply_changes-Current :
      (s : System) (c : Changes)
      → NoStale c.store
      → OwnsRouteFile (put_resources s c.store) key
      → s.addresses.locked ≡ false
      → contains key c.routes ≡ true
      → Returns
          (λ t. Keeps (put_resources s c.store) t × IsCurrent out t key)
          (apply_changes out s c)
  unfolding apply_changes
  apply_changes-Current s c fresh owns free changed =
      Returns-bind (Keeps (put_resources s c.store)) _
        (write_servers out (put_resources s c.store) (out.env.visits c.servers)) _
        (write_servers-Keeps out (put_resources s c.store) (out.env.visits c.servers) fresh free
          refl)
        (λ t k.
          Returns-bind (Writes out ok_env key t (out.env.visits c.routes)) _
            (write_routes out t (out.env.visits c.routes)) _
            (write_routes-Writes out ok_env key t (out.env.visits c.routes)
              (OwnsRouteFile-Keeps out ok_env key (put_resources s c.store) t k owns) k.free
              k.shared)
            (λ u (k2, current).
              let (k3, reloaded) =
                reload_changed-Current u (not (is_empty c.servers) || not (is_empty c.routes))
                  k2.free k2.shared in
              (
                Keeps-trans k (Keeps-trans k2 k3),
                reloaded
                    (current (inl (contains-perm key (out.env.visits_perm c.routes) ∙ changed))),
              )))

  -- Where builds and writes succeed, both mutexes are free, and no listing of a route is stale when
  -- the binds, listeners and routes of the response are recorded: `Update` of the resource store
  -- returns. It leaves both mutexes free, the routes as they were recorded and the address store's
  -- maps as they were, and every route of the response, if its file is its own, with the file that
  -- its backends call for.
  pub update_resources-Current :
      (s : System) (rs : List Resource)
      → s.locked ≡ false
      → s.addresses.locked ≡ false
      → NoStale (record_resources out.env out.unmarshal s.resources rs).store
      → OwnsRouteFile
          (put_resources s (record_resources out.env out.unmarshal s.resources rs).store)
          key
      → contains key (record_resources out.env out.unmarshal s.resources rs).routes ≡ true
      → Returns
          (λ t.
            (t.locked ≡ false)
            × (t.addresses.locked ≡ false)
            × IsCurrent out t key
            × (t.resources.routes
                ≡ (record_resources out.env out.unmarshal s.resources rs).store.routes)
            × (t.addresses.service_map ≡ s.addresses.service_map)
            × (t.addresses.workload_map ≡ s.addresses.workload_map))
          (update_resources out s rs)
  unfolding update_resources
  update_resources-Current s rs unlocked free fresh owns changed =
      let c = record_resources out.env out.unmarshal s.resources rs in
      let held : System = record s { locked = true } in
      with_resource_lock-Returns (λ t. Keeps (put_resources held c.store) t × IsCurrent out t key) _
        s (λ t. apply_changes out t (record_resources out.env out.unmarshal t.resources rs))
        unlocked (apply_changes-Current held c fresh owns free changed)
        (λ t (k, current). (refl, k.free, current, k.routes, k.services, k.workloads))
