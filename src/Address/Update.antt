-- ===== src/Address/Update.antt =====
-- address.go: the handler `Update` of `AddressStore`.
use notyetanotherenvoybacken.Common.{
  String, Bool, true, false, not, ◌&&◌, Option, none, some, List, [], ◌∷◌, Set, Error, ok, err,
  lookup, insert, erase, contains, add, add_all, sprintf, decimal, is_empty, length, ◌==◌,
  if◌then◌else◌, nat_eq,
}
pub use notyetanotherenvoybacken.Common.{◌>>=◌}
use notyetanotherenvoybacken.Nginx.{Env, reload}
use notyetanotherenvoybacken.Address.State.{
  PortMessage, WorkloadMessage, ServiceMessage, AddressMessage, workload_address, service_address,
  no_address, Resource, WorkloadApi, Service, WorkloadMap, AddressStore, is_pod,
}
use notyetanotherenvoybacken.Address.Workloads.{
  Outcome, returned, blocked, Reply, update_workload, remove_workload_from_services,
}
use notyetanotherenvoybacken.Address.Config.{update_service_config}

-- The variables of a loop over the resources: the store, `affectedServices` and
-- `newlyAvailableServices`.
pub record Progress : Type 0 where
  pub store : AddressStore
  pub affected : Set
  pub newly : Set

-- the variables before the loop, the mutex held
abbrev pub begin : AddressStore → Progress
begin a = record { store = record a { locked = true }; affected = []; newly = [] }

-- the services that the workload map holds for a workload; none if it is unknown
unfoldable pub services_of : WorkloadMap → String → Set
services_of m uid = elim (lookup uid m) [ none ↦ [] | some w ↦ w.services ]

-- The key that a Service message's port has in the service map: `namespace/name/port`.
unfoldable pub service_key : ServiceMessage → PortMessage → String
service_key s p = sprintf (s.namespace ∷ "/" ∷ s.name ∷ "/" ∷ decimal p.service_port ∷ [])

abbrev pub workloads_of : Option Service → Set
workloads_of none = []
workloads_of (some svc) = svc.workloads

-- The entry that a Service message makes for a port, with the workloads that were there.
abbrev pub described_service : ServiceMessage → PortMessage → Set → Service
described_service s p workloads = record {
  port = p.service_port;
  target_port = p.target_port;
  app_protocol = p.port_protocol;
  load_balancing = s.load_balancing;
  ip_families = s.ip_families;
  workloads = workloads;
}

module _ (env : Env) where
  -- `removeWorkloadFromServices` and the deletion from the workload map, noting the services
  unfoldable pub forget_workload : Progress → String → Progress
  forget_workload pr uid =
      let a = remove_workload_from_services env pr.store uid in
      record pr {
        store = record a { workload_map = erase uid a.workload_map };
        affected = add_all (env.visits (services_of pr.store.workload_map uid)) pr.affected;
      }

  abbrev pub newly_available : AddressStore → String → Bool
  newly_available a key = elim (lookup key a.service_map) [
    | none ↦ false
    | some svc ↦ length svc.workloads == 1 && contains key a.active_services
  ]

  unfoldable pub note_one : Progress → String → Progress
  note_one pr key = record pr {
    affected = add key pr.affected;
    newly = if newly_available pr.store key then add key pr.newly else pr.newly;
  }

  -- the loop over the services of the workload just added
  unfoldable pub note_services : Progress → List String → Progress
  unfolding note_one
  note_services pr [] = pr
  note_services pr (key ∷ keys) = note_services (note_one pr key) keys

  -- what follows a call of `updateWorkload`
  unfoldable pub after_update : Progress → WorkloadMessage → AddressStore × Reply → Progress
  after_update pr w (a, (updated, reason, some e)) = record pr { store = a }
  after_update pr w (a, (false, reason, none)) = record pr { store = a }
  after_update pr w (a, (true, reason, none)) =
      note_services
        (record pr {
          store = a;
          affected = add_all (env.visits (services_of pr.store.workload_map w.uid)) pr.affected;
        })
        (env.visits (services_of a.workload_map w.uid))

  -- the loop body for one port of a Service message
  unfoldable pub process_port : ServiceMessage → Progress → PortMessage → Progress
  process_port s pr p =
      let key = service_key s p in
      let existing = lookup key pr.store.service_map in
      let had_before = not (is_empty (workloads_of existing)) in
      let svc = described_service s p (workloads_of existing) in
      record pr {
        store = record pr.store { service_map = insert key svc pr.store.service_map };
        affected = add key pr.affected;
        newly =
            if not had_before
              && not (is_empty svc.workloads)
              && contains key pr.store.active_services
            then add key pr.newly
            else pr.newly;
      }

  unfoldable pub process_ports : ServiceMessage → Progress → List PortMessage → Progress
  process_ports s pr [] = pr
  process_ports s pr (p ∷ ps) = process_ports s (process_port s pr p) ps

module _ (env : Env) (api : WorkloadApi) where
  -- the two cases of the type switch in `Update`
  unfoldable pub process_workload : Progress → WorkloadMessage → Outcome Progress
  process_workload pr w =
      if not (is_pod w.uid)
      then returned pr
      else if w.status == api.healthy
      then (update_workload api pr.store w >>= λ r. returned (after_update env pr w r))
      else returned (forget_workload env pr w.uid)

  unfoldable pub process_address : Progress → AddressMessage → Outcome Progress
  process_address pr (workload_address w) = process_workload pr w
  process_address pr (service_address s) = returned (process_ports env s pr s.ports)
  process_address pr no_address = returned pr

  -- a resource that does not unmarshal is skipped
  unfoldable pub process_resource : Progress → Resource → Outcome Progress
  process_resource pr res = elim (api.unmarshal res.body) [
    | err e ↦ returned pr
    | ok m ↦ process_address pr m
  ]

  -- the loop of `Update` over the resources
  unfoldable pub process_resources : Progress → List Resource → Outcome Progress
  unfolding process_resource
  process_resources pr [] = returned pr
  process_resources pr (res ∷ rest) = process_resource pr res >>= λ pr'. process_resources pr' rest

  abbrev needs_after : Bool → Option Error → Bool
  needs_after needs none = true
  needs_after needs (some e) = needs

  unfoldable pub refresh_active : AddressStore × Bool → String → AddressStore × Bool
  refresh_active (a, needs) key =
      let (e, a') = update_service_config env api a key in (a', needs_after needs e)

  unfoldable pub refresh_one : AddressStore × Bool → String → AddressStore × Bool
  unfolding refresh_active
  refresh_one (a, needs) key =
      if contains key a.active_services then refresh_active (a, needs) key else (a, needs)

  -- the loop of `Update` that writes the files of the active services among the affected
  unfoldable pub refresh : AddressStore × Bool → List String → AddressStore × Bool
  unfolding refresh_one
  refresh s [] = s
  refresh s (key ∷ keys) = refresh (refresh_one s key) keys

-- What `Update` leaves: the error it returns, the store, and the keys for which it called the
-- callback, in order, after it gave the mutex back.
pub record Updated : Type 0 where
  pub error : Option Error
  pub store : AddressStore
  pub notified : List String

module _ (env : Env) where
  -- `Reload` where files were written, else nothing
  unfoldable pub reload_if : AddressStore × Bool → Option Error × AddressStore
  reload_if (a, false) = (none, a)
  reload_if (a, true) = let (e, m) = reload env a.nginx in (e, record a { nginx = m })

  -- An error of the reload is returned at once, before the mutex is given back.
  unfoldable pub finish_update : Set → Option Error × AddressStore → Updated
  finish_update newly (some e, a) = record { error = some e; store = a; notified = [] }
  finish_update newly (none, a) = record {
    error = none;
    store = record a { locked = false };
    notified = if a.has_callback then env.visits newly else [];
  }

module _ (env : Env) (api : WorkloadApi) where
  -- the part of `Update` after the loop over the resources
  unfoldable pub conclude : Progress → Updated
  conclude pr =
      finish_update env pr.newly
        (reload_if env (refresh env api (pr.store, false) (env.visits pr.affected)))

  -- `Update`
  unfoldable pub update : AddressStore → List Resource → Outcome Updated
  update a resources =
      if a.locked
      then blocked
      else (process_resources env api (begin a) resources >>= λ pr. returned (conclude pr))
