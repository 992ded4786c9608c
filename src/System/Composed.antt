-- ===== src/System/Composed.antt =====
-- resource.go, address.go: every run of both stores is a run of each of them.
use mathlib.Core.Path.{subst}
use notyetanotherenvoybacken.Common.{
  ℕ, String, Bool, true, false, not, ◌||◌, refl, sym, Option, none, some, List, [], ◌∷◌, returned,
  ◌>>=◌, Ends, Ends-bind, Ends-if, Ends-eq, is_empty, lookup, Dict,
}
use notyetanotherenvoybacken.Nginx.{Env, Manager}
use notyetanotherenvoybacken.Address.State.{Resource, new_address_store}
use notyetanotherenvoybacken.Address.Update.{update}
use notyetanotherenvoybacken.Address.Locked.{
  remove_resources, with_lock, set_service_available_callback,
}
use notyetanotherenvoybacken.Address.Reachable.{Step, by_update, by_remove, by_callback, here, next}
use notyetanotherenvoybacken.Resource.Messages.{Route}
use notyetanotherenvoybacken.Resource.State.{
  ServerFileConfig, ResourceStore, new_resource_store, values_of,
}
use notyetanotherenvoybacken.Resource.Removals.{remove_all, unchanged}
use notyetanotherenvoybacken.Resource.Remove.{
  settle_servers, delete_route_file, delete_route_files, reload_if_changed, remove_from_store,
}
use notyetanotherenvoybacken.Resource.Stale.{OnlyFiles, always-Finds}
use notyetanotherenvoybacken.Resource.Settled.{settle_servers-Ends}
use notyetanotherenvoybacken.Resource.History.{History, new, removes, writes}
use notyetanotherenvoybacken.System.State.{
  Outside, System, put_resources, put_addresses, connect_stores, new_system,
}
use notyetanotherenvoybacken.System.Handlers.{
  update_resources, remove_from_system, regenerate, on_service_available, notify_all,
  update_addresses, remove_addresses,
}
use notyetanotherenvoybacken.System.Steps.{regenerate-keeps}
use notyetanotherenvoybacken.Address.Linked.{Linked}
use notyetanotherenvoybacken.Address.Reachable.{Reach-Linked}
use notyetanotherenvoybacken.Resource.Listed.{Listed}
use notyetanotherenvoybacken.Resource.History.{History-Listed}
use notyetanotherenvoybacken.System.Reached.{
  SystemReach, start, resources_updated, resources_removed, addresses_updated, addresses_removed,
  Parts, by_address-Parts, by_resource-Parts, write-Parts, note_route-Parts, ensure_upstream-Parts,
  Parts-relock, with_resource_lock-Parts, update_resources-Parts,
}

module _ (env : Env) (https : ℕ) (P : ResourceStore → Type 0)
    (on_files : (r : ResourceStore) (files : Dict ServerFileConfig) (n : Manager)
      → P r
      → P (record r { server_files = files; nginx = n })) where
  delete_route_file-keeps :
      (r : ResourceStore) (key : String) (route : Option Route)
      → P r
      → P (delete_route_file env r key route)
  unfolding delete_route_file
  delete_route_file-keeps r key none h = h
  delete_route_file-keeps r key (some route) h = on_files r r.server_files _ h

  delete_route_files-keeps :
      (r : ResourceStore) (keys : List String) → P r → P (delete_route_files env r keys)
  unfolding delete_route_files
  delete_route_files-keeps r [] h = h
  delete_route_files-keeps r (key ∷ keys) h =
      delete_route_files-keeps (delete_route_file env r key (lookup key r.routes)) keys
        (delete_route_file-keeps r key (lookup key r.routes) h)

  reload_if_changed-keeps :
      (changed : Bool) (r : ResourceStore) → P r → P (reload_if_changed env changed r)
  reload_if_changed-keeps true r h = on_files r r.server_files _ h
  reload_if_changed-keeps false r h = h

  -- what the removal's writing of files keeps, `Remove` keeps
  pub remove_from_store-keeps :
      (r : ResourceStore) (names : List String)
      → P (remove_all (unchanged r) names).store
      → Ends (Unit {0}) P (remove_from_store env https r names)
  unfolding remove_from_store
  remove_from_store-keeps r names h =
      let c = remove_all (unchanged r) names in
      Ends-bind (Unit {0}) (OnlyFiles c.store) P
        (settle_servers env https c.store (env.visits c.servers)) _
        (settle_servers-Ends env https (Unit {0}) c.store (env.visits c.servers)
          (always-Finds c.store))
        (λ b (files, n, e).
          reload_if_changed-keeps (not (is_empty c.servers) || not (is_empty c.routes)) _ (
            delete_route_files-keeps b (env.visits c.routes)
              (subst P (sym e) (on_files c.store files n h))))

module _ (out : Outside) (m : Manager) where
  remove_from_system-Parts :
      (s : System) (names : List String)
      → Parts out m s
      → Ends (Unit {0}) (Parts out m) (remove_from_system out s names)
  unfolding remove_from_system
  remove_from_system-Parts s names v =
      let held : System = record s { locked = true } in
      with_resource_lock-Parts out m s
        (λ t. remove_from_store out.env out.https t.resources names >>= λ r.
          returned (put_resources t r))
        (Ends-bind (Unit {0}) (History out.env out.unmarshal) (Parts out m)
          (remove_from_store out.env out.https s.resources names) _
          (remove_from_store-keeps out.env out.https (History out.env out.unmarshal)
            (λ r files n h. writes r.service_to_routes files n h) s.resources names
            (removes names v.resources_history))
          (λ r h. by_resource-Parts out m held r h (Parts-relock out m s true v)))

  on_service_available-Parts :
      (s : System) (service_key : String)
      → Parts out m s
      → Ends (Unit {0}) (Parts out m) (on_service_available out s service_key)
  unfolding on_service_available
  on_service_available-Parts s service_key v =
      with_resource_lock-Parts out m s
        (λ t. regenerate out t (values_of t.resources.service_to_routes service_key))
        (regenerate-keeps out (Unit {0}) (Parts out m) (note_route-Parts out m)
          (ensure_upstream-Parts out m) (write-Parts out m) (record s { locked = true })
          (values_of s.resources.service_to_routes service_key) (Parts-relock out m s true v))

  notify_all-Parts :
      (s : System) (services : List String)
      → Parts out m s
      → Ends (Unit {0}) (Parts out m) (notify_all out s services)
  unfolding notify_all
  notify_all-Parts s [] v = v
  notify_all-Parts s (key ∷ keys) v =
      Ends-bind (Unit {0}) (Parts out m) (Parts out m) (on_service_available out s key) _
        (on_service_available-Parts s key v) (λ t w. notify_all-Parts t keys w)

  update_addresses-Parts :
      (s : System) (rs : List Resource)
      → Parts out m s
      → Ends (Unit {0}) (λ x. Parts out m x.1) (update_addresses out s rs)
  unfolding update_addresses
  update_addresses-Parts s rs v =
      Ends-bind (Unit {0}) (λ u. Step out.env out.workloads s.addresses u.store) _
        (update out.env out.workloads s.addresses rs) _
        (Ends-if (λ u. Step out.env out.workloads s.addresses u.store) _
          (λ u e. by_update rs u e refl))
        (λ u step.
          Ends-bind (Unit {0}) (Parts out m) _ (notify_all out (put_addresses s u.store) u.notified)
            _
            (notify_all-Parts (put_addresses s u.store) u.notified
              (by_address-Parts out m s u.store step v))
            (λ t w. w))

  remove_addresses-Parts :
      (s : System) (names : List String)
      → Parts out m s
      → Ends (Unit {0}) (λ x. Parts out m x.1) (remove_addresses out s names)
  unfolding remove_addresses
  remove_addresses-Parts s names v =
      Ends-bind (Unit {0}) (λ x. Step out.env out.workloads s.addresses x.1) _
        (remove_resources out.env out.workloads s.addresses names) _
        (Ends-if (λ x. Step out.env out.workloads s.addresses x.1) _
          (λ (e, a) h. by_remove names e h))
        (λ (e, a) step. by_address-Parts out m s a step v)

  new_system-Parts : Ends (Unit {0}) (Parts out m) (new_system m)
  unfolding new_system connect_stores set_service_available_callback with_lock new_resource_store
      new_address_store
  new_system-Parts = record {
    shared = refl;
    addresses_reach = next here (by_callback refl);
    resources_history = new m;
  }

  -- In every state of both stores that calls of their handlers lead to from new ones, whatever the
  -- messages and whatever the outside answers, both stores have the same manager, the address store
  -- is in a state that its own operations reach, and the resource store in one of its own histories.
  -- So each service that a workload is recorded with lists the workload, and every route stands in
  -- the reverse lookup of its listener.
  pub SystemReach-Parts :
      (s : System) → SystemReach out m s → Parts out m s × Linked s.addresses × Listed s.resources
  SystemReach-Parts s r =
      let v = parts s r in
      (
        v,
        Reach-Linked out.env out.workloads m s.addresses v.addresses_reach,
        History-Listed out.env out.unmarshal s.resources v.resources_history,
      )
    where
      parts : (t : System) → SystemReach out m t → Parts out m t
      parts t (start e) = Ends-eq (Unit {0}) (Parts out m) (new_system m) t e new_system-Parts
      parts t (resources_updated {s} rs r e) =
          Ends-eq (Unit {0}) (Parts out m) (update_resources out s rs) t e
            (update_resources-Parts out m s rs (parts s r))
      parts t (resources_removed {s} names r e) =
          Ends-eq (Unit {0}) (Parts out m) (remove_from_system out s names) t e
            (remove_from_system-Parts s names (parts s r))
      parts t (addresses_updated {s} rs x r e) =
          Ends-eq (Unit {0}) (λ y. Parts out m y.1) (update_addresses out s rs) (x, t) e
            (update_addresses-Parts s rs (parts s r))
      parts t (addresses_removed {s} names x r e) =
          Ends-eq (Unit {0}) (λ y. Parts out m y.1) (remove_addresses out s names) (x, t) e
            (remove_addresses-Parts s names (parts s r))
