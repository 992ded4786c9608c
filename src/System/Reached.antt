-- ===== src/System/Reached.antt =====
-- resource.go, address.go: the handlers of both stores, one after the other, as a step relation, and
-- what each store sees of it.
use mathlib.Core.Path.{subst}
use notyetanotherenvoybacken.Common.{
  String, Bool, true, false, not, ◌||◌, ◌≡◌, refl, sym, Option, List, [], ◌∷◌, Error, Outcome,
  returned, Ends, Ends-bind, Ends-if, is_empty, if◌then◌else◌, Bool-cases, inl, inr,
}
use notyetanotherenvoybacken.Nginx.{Manager}
use notyetanotherenvoybacken.Address.State.{Resource, AddressStore, new_address_store}
use notyetanotherenvoybacken.Address.Locked.{ensure_upstream_file}
use notyetanotherenvoybacken.Address.Reachable.{Step, by_ensure, by_manager, Reach, next}
use notyetanotherenvoybacken.Resource.State.{ResourceStore}
use notyetanotherenvoybacken.Resource.Removals.{record_resources}
use notyetanotherenvoybacken.Resource.Server.{generate_server_file}
use notyetanotherenvoybacken.Resource.Stale.{OnlyFiles, always-Finds}
use notyetanotherenvoybacken.Resource.Settled.{generate_server_file-Ends}
use notyetanotherenvoybacken.Resource.History.{History, updates, writes}
use notyetanotherenvoybacken.System.State.{
  Outside, System, IsShared, put_resources, put_addresses, with_resource_lock, new_system,
}
use notyetanotherenvoybacken.System.Routes.{note_route, ensure_upstream}
use notyetanotherenvoybacken.System.Handlers.{
  write_servers, write_routes, reload_system, apply_changes, update_resources, remove_from_system,
  update_addresses, remove_addresses,
}
use notyetanotherenvoybacken.System.Steps.{write_routes-keeps}

-- The states that handlers which return lead to from new stores.
pub data SystemReach (out : Outside) (m : Manager) : System → Type 0 where
  start : {s : System} → new_system m ≡ returned s → SystemReach out m s
  resources_updated :
      {s t : System} (rs : List Resource)
      → SystemReach out m s
      → update_resources out s rs ≡ returned t
      → SystemReach out m t
  resources_removed :
      {s t : System} (names : List String)
      → SystemReach out m s
      → remove_from_system out s names ≡ returned t
      → SystemReach out m t
  addresses_updated :
      {s t : System} (rs : List Resource) (e : Option Error)
      → SystemReach out m s
      → update_addresses out s rs ≡ returned (e, t)
      → SystemReach out m t
  addresses_removed :
      {s t : System} (names : List String) (e : Option Error)
      → SystemReach out m s
      → remove_addresses out s names ≡ returned (e, t)
      → SystemReach out m t

-- The stores share the manager, and each has a history of its own operations.
pub record Parts (out : Outside) (m : Manager) (s : System) : Type 0 where
  pub shared : IsShared s
  pub addresses_reach : Reach out.env out.workloads (new_address_store m) s.addresses
  pub resources_history : History out.env out.unmarshal s.resources

module _ (out : Outside) (m : Manager) where
  -- the address store makes a step
  pub by_address-Parts :
      (s : System) (a : AddressStore)
      → Step out.env out.workloads s.addresses a
      → Parts out m s
      → Parts out m (put_addresses s a)
  by_address-Parts s a step v = record {
    shared = refl;
    addresses_reach = next v.addresses_reach step;
    resources_history =
        writes s.resources.service_to_routes s.resources.server_files a.nginx v.resources_history;
  }

  -- the resource store comes to a state that it has a history of
  pub by_resource-Parts :
      (s : System) (r : ResourceStore)
      → History out.env out.unmarshal r
      → Parts out m s
      → Parts out m (put_resources s r)
  by_resource-Parts s r h v = record {
    shared = refl;
    addresses_reach = next v.addresses_reach (by_manager r.nginx refl);
    resources_history = h;
  }

  pub write-Parts :
      (s : System) (n : Manager)
      → Parts out m s
      → Parts out m (put_resources s (record s.resources { nginx = n }))
  write-Parts s n v =
      by_resource-Parts s (record s.resources { nginx = n })
        (writes s.resources.service_to_routes s.resources.server_files n v.resources_history) v

  pub note_route-Parts :
      (s : System) (service_key route_key : String)
      → Parts out m s
      → Parts out m (note_route service_key route_key s)
  note_route-Parts s service_key route_key v = record {
    shared = v.shared;
    addresses_reach = v.addresses_reach;
    resources_history = writes _ s.resources.server_files s.resources.nginx v.resources_history;
  }

  pub ensure_upstream-Parts :
      (s : System) (service_key : String)
      → Parts out m s
      → Ends (Unit {0}) (λ x. Parts out m x.1) (ensure_upstream out s service_key)
  unfolding ensure_upstream
  ensure_upstream-Parts s service_key v =
      Ends-bind (Unit {0}) (λ x. Step out.env out.workloads s.addresses x.1) _
        (ensure_upstream_file out.env out.workloads s.addresses service_key) _
        (Ends-if (λ x. Step out.env out.workloads s.addresses x.1) _
          (λ (reply, a) e. by_ensure service_key reply e))
        (λ (reply, a) step. by_address-Parts s a step v)

  pub OnlyFiles-History :
      (r b : ResourceStore)
      → OnlyFiles r b
      → History out.env out.unmarshal r
      → History out.env out.unmarshal b
  OnlyFiles-History r b (files, n, e) h =
      subst (History out.env out.unmarshal) (sym e) (writes r.service_to_routes files n h)

  pub Parts-relock : (s : System) (b : Bool) → Parts out m s → Parts out m (record s { locked = b })
  Parts-relock s b v = record {
    shared = v.shared;
    addresses_reach = v.addresses_reach;
    resources_history = v.resources_history;
  }

  pub with_resource_lock-Parts :
      (s : System) (f : System → Outcome System)
      → Ends (Unit {0}) (Parts out m) (f (record s { locked = true }))
      → Ends (Unit {0}) (Parts out m) (with_resource_lock s f)
  unfolding with_resource_lock
  with_resource_lock-Parts s f h = elim (Bool-cases s.locked) [
    | inl e ↦ rw (e, with_resource_lock) tt
    | inr e ↦
        rw (e, with_resource_lock)
          (Ends-bind (Unit {0}) (Parts out m) (Parts out m) (f (record s { locked = true })) _ h
            (λ t v. Parts-relock t false v))
  ]

  write_servers-Parts :
      (s : System) (keys : List String)
      → Parts out m s
      → Ends (Unit {0}) (Parts out m) (write_servers out s keys)
  unfolding write_servers
  write_servers-Parts s [] v = v
  write_servers-Parts s (key ∷ keys) v =
      Ends-bind (Unit {0}) (λ x. OnlyFiles s.resources x.1) (Parts out m)
        (generate_server_file out.env out.https s.resources key) _
        (generate_server_file-Ends out.env out.https (Unit {0}) s.resources key
          (always-Finds s.resources))
        (λ (e, b) same.
          write_servers-Parts (put_resources s b) keys
            (by_resource-Parts s b (OnlyFiles-History s.resources b same v.resources_history) v))

  write_routes-Parts :
      (s : System) (keys : List String)
      → Parts out m s
      → Ends (Unit {0}) (Parts out m) (write_routes out s keys)
  write_routes-Parts =
      write_routes-keeps out (Unit {0}) (Parts out m) note_route-Parts ensure_upstream-Parts
        write-Parts

  reload_if-Parts :
      (s : System) (changed : Bool)
      → Parts out m s
      → Parts out m (if changed then reload_system out s else s)
  reload_if-Parts s true v = write-Parts s _ v
  reload_if-Parts s false v = v

  pub update_resources-Parts :
      (s : System) (rs : List Resource)
      → Parts out m s
      → Ends (Unit {0}) (Parts out m) (update_resources out s rs)
  unfolding update_resources apply_changes
  update_resources-Parts s rs v =
      let held : System = record s { locked = true } in
      let c = record_resources out.env out.unmarshal s.resources rs in
      with_resource_lock-Parts s
        (λ t. apply_changes out t (record_resources out.env out.unmarshal t.resources rs))
        (Ends-bind (Unit {0}) (Parts out m) (Parts out m)
          (write_servers out (put_resources held c.store) (out.env.visits c.servers)) _
          (write_servers-Parts (put_resources held c.store) (out.env.visits c.servers) (
            by_resource-Parts held c.store (updates rs v.resources_history)
              (Parts-relock s true v)))
          (λ t w.
            Ends-bind (Unit {0}) (Parts out m) (Parts out m)
              (write_routes out t (out.env.visits c.routes)) _
              (write_routes-Parts t (out.env.visits c.routes) w)
              (λ u x. reload_if-Parts u (not (is_empty c.servers) || not (is_empty c.routes)) x)))
