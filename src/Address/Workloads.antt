-- ===== src/Address/Workloads.antt =====
-- address.go: the maps of services and workloads under one workload's update or removal.
use notyetanotherenvoybacken.Common.{
  String, Bool, true, false, Option, none, some, List, [], ◌∷◌, Dict, Set, Error, lookup, insert,
  add, remove, sprintf, decimal, ◌==◌, if◌then◌else◌, nat_eq, ◌||◌, is_empty,
}
pub use notyetanotherenvoybacken.Common.{Outcome, returned, panicked, blocked}
use notyetanotherenvoybacken.Net.{Addr}
use notyetanotherenvoybacken.Nginx.{Env}
use notyetanotherenvoybacken.Address.State.{
  PortMessage, WorkloadMessage, WorkloadApi, Service, ServiceMap, AddressStore, get_workload_ips,
}

-- The key that a workload's port has in the service map: `svcID/port`.
unfoldable pub workload_service_key : String → PortMessage → String
workload_service_key service_id p = sprintf (service_id ∷ "/" ∷ decimal p.service_port ∷ [])

-- The new workload's services and the service map, as `createWorkload` builds them up.
pub record Draft : Type 0 where
  pub services : Set
  pub service_map : ServiceMap

-- The results of `updateWorkload`: the flag, the reason for the log, and the error.
abbrev pub Reply : Type 0
Reply = Bool × String × Option Error

module _ (api : WorkloadApi) where
  -- a service that no Service message has described yet
  abbrev pub default_service : String → PortMessage → Service
  default_service uid p = record {
    port = p.service_port;
    target_port = p.target_port;
    app_protocol = api.unknown_protocol;
    load_balancing = none;
    ip_families = api.automatic_families;
    workloads = uid ∷ [];
  }

  abbrev pub join_service : String → PortMessage → Option Service → Service
  join_service uid p none = default_service uid p
  join_service uid p (some svc) = record svc { workloads = add uid svc.workloads }

  -- the body of the inner loop of `createWorkload`
  unfoldable pub add_port : String → String → Draft → PortMessage → Draft
  add_port uid service_id d p =
      let key = workload_service_key service_id p in
      record d {
        services = add key d.services;
        service_map = insert key (join_service uid p (lookup key d.service_map)) d.service_map;
      }

  unfoldable pub add_ports : String → String → Draft → List PortMessage → Draft
  add_ports uid service_id d [] = d
  add_ports uid service_id d (p ∷ ps) = add_ports uid service_id (add_port uid service_id d p) ps

  unfoldable pub add_services : String → Draft → Dict (List PortMessage) → Draft
  add_services uid d [] = d
  add_services uid d ((service_id, ports) ∷ rest) =
      add_services uid (add_ports uid service_id d ports) rest

  -- `createWorkload`
  unfoldable pub create_workload : AddressStore → WorkloadMessage → Addr → AddressStore
  create_workload a w addr =
      let d =
        add_services w.uid (record { services = []; service_map = a.service_map }) w.services in
      record a {
        service_map = d.service_map;
        workload_map =
            insert w.uid (record { address = addr; services = d.services }) a.workload_map;
      }

  -- `addrs[0]` panics on an empty slice
  unfoldable pub create_at_first :
      AddressStore → WorkloadMessage → List Addr → Outcome (AddressStore × Reply)
  create_at_first a w [] = panicked
  create_at_first a w (addr ∷ _) = returned (create_workload a w addr, (true, "", none))

  -- a workload that is new, which needs services and addresses
  unfoldable pub create_new :
      AddressStore → WorkloadMessage → List Addr → Outcome (AddressStore × Reply)
  create_new a w addrs =
      if is_empty w.services || is_empty addrs
      then returned (a, (false, "workload does not have services nor addresses", none))
      else create_at_first a w addrs

  -- `updateWorkload`
  unfoldable pub update_workload : AddressStore → WorkloadMessage → Outcome (AddressStore × Reply)
  unfolding create_at_first create_new
  update_workload a w =
      if w.status == api.healthy
      then elim (lookup w.uid a.workload_map) [
        | none ↦ create_new a w (get_workload_ips w.addresses)
        | some _ ↦ create_at_first a w (get_workload_ips w.addresses)
      ]
      else returned (a, (false, "endpoint is unhealthy", none))

-- `delete(s.Workloads, resource)` for one service: the set is shared with the map
unfoldable pub unlist_one : String → String → ServiceMap → ServiceMap
unlist_one uid key m = elim (lookup key m) [
  | none ↦ m
  | some s ↦ insert key (record s { workloads = remove uid s.workloads }) m
]

unfoldable pub unlist : String → List String → ServiceMap → ServiceMap
unlist uid [] m = m
unlist uid (key ∷ keys) m = unlist uid keys (unlist_one uid key m)

-- `removeWorkloadFromServices`
unfoldable pub remove_workload_from_services : Env → AddressStore → String → AddressStore
remove_workload_from_services env a uid = elim (lookup uid a.workload_map) [
  | none ↦ a
  | some w ↦ record a { service_map = unlist uid (env.visits w.services) a.service_map }
]
