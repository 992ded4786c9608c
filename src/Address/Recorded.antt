-- ===== src/Address/Recorded.antt =====
-- What `updateWorkload` records: exactly the services of the message for the workload, and more than
-- those in the service map.
use notyetanotherenvoybacken.Common.{
  String, Bool, true, false, ◌&&◌, ◌||◌, ◌≡◌, refl, ap, none, List, [], ◌∷◌, Dict, arith, inl, inr,
  contains, ◌==◌, if◌then◌else◌, string_eq,
}
use notyetanotherenvoybacken.Net.{Addr}
use notyetanotherenvoybacken.Address.State.{
  PortMessage, WorkloadMessage, WorkloadApi, AddressStore, serves, lists,
}
use notyetanotherenvoybacken.Address.Workloads.{
  returned, Draft, workload_service_key, add_port, add_ports, add_services, create_workload,
  update_workload,
}
use notyetanotherenvoybacken.Address.Progress.{IfReturned-eq, Recorded, update_workload-Recorded}
use notyetanotherenvoybacken.Address.Linked.{lists-add_port, contains-add_port, serves-insert}

-- Whether the message names the service: one of its ports under that service has the key.
unfoldable pub names_port : String → List PortMessage → String → Bool
names_port sid [] key = false
names_port sid (p ∷ ps) key = key == workload_service_key sid p || names_port sid ps key

unfoldable pub names_service : Dict (List PortMessage) → String → Bool
names_service [] key = false
names_service ((sid, ports) ∷ rest) key = names_port sid ports key || names_service rest key

module _ (api : WorkloadApi) (u : String) where
  add_ports_lem :
      (sid : String) (d : Draft) (ps : List PortMessage) (key uid : String)
      → (lists (add_ports api u sid d ps).service_map key uid
          ≡ (if names_port sid ps key && uid == u then true else lists d.service_map key uid))
        × (contains key (add_ports api u sid d ps).services
            ≡ (names_port sid ps key || contains key d.services))
  unfolding add_ports names_port
  add_ports_lem sid d [] key uid = (refl, refl)
  add_ports_lem sid d (p ∷ ps) key uid = ground (
    arith,
    add_ports_lem sid (add_port api u sid d p) ps key uid,
    lists-add_port api u sid d p key uid,
    contains-add_port api u sid d p key,
  )

  add_services_lem :
      (d : Draft) (svcs : Dict (List PortMessage)) (key uid : String)
      → (lists (add_services api u d svcs).service_map key uid
          ≡ (if names_service svcs key && uid == u then true else lists d.service_map key uid))
        × (contains key (add_services api u d svcs).services
            ≡ (names_service svcs key || contains key d.services))
  unfolding add_services names_service
  add_services_lem d [] key uid = (refl, refl)
  add_services_lem d ((sid, ps) ∷ rest) key uid = ground (
    arith,
    add_services_lem (add_ports api u sid d ps) rest key uid,
    add_ports_lem sid d ps key uid,
  )

module _ (api : WorkloadApi) (a : AddressStore) (w : WorkloadMessage) (addr : Addr) where
  abbrev draft : Draft
  draft = record { services = []; service_map = a.service_map }

  pub lists-create_workload :
      (key uid : String)
      → lists (create_workload api a w addr).service_map key uid ≡ (
          if names_service w.services key && uid == w.uid
          then true
          else lists a.service_map key uid)
  unfolding create_workload
  lists-create_workload key uid = (add_services_lem api w.uid draft w.services key uid).0

  pub serves-create_workload :
      (uid key : String)
      → serves (create_workload api a w addr).workload_map uid key
        ≡ (if uid == w.uid then names_service w.services key else serves a.workload_map uid key)
  unfolding create_workload contains
  serves-create_workload uid key = ground (
    arith,
    serves-insert uid key w.uid
        (record { address = addr; services = (add_services api w.uid draft w.services).services })
        a.workload_map,
    (add_services_lem api w.uid draft w.services key uid).1,
  )

created :
    (api : WorkloadApi) (a b : AddressStore) (w : WorkloadMessage) (reason : String)
    → Recorded api a w (b, (true, reason, none))
    → (addr : Addr) × (b ≡ create_workload api a w addr)
created api a b w reason (inl (why, e)) = absurd cc
created api a b w reason (inr (addr, e)) = (addr, ap (λ r. r.0) e)

-- Where `updateWorkload` accepts the message, the workload map has, of this workload, exactly the
-- services that the message names, and of every other workload what it had. The service map lists
-- the workload under the services that the message names, and keeps every listing that it had.
pub update_workload_lem :
    (api : WorkloadApi) (a b : AddressStore) (w : WorkloadMessage) (reason : String)
    → update_workload api a w ≡ returned (b, (true, reason, none))
    → ((uid key : String)
        → serves b.workload_map uid key
          ≡ (if uid == w.uid then names_service w.services key else serves a.workload_map uid key))
      × ((key uid : String)
          → lists b.service_map key uid ≡ (
              if names_service w.services key && uid == w.uid
              then true
              else lists a.service_map key uid))
update_workload_lem api a b w reason e =
    let (addr, q) =
      created api a b w reason
        (IfReturned-eq (Recorded api a w) _ _ e (update_workload-Recorded api a w)) in
    rw q (serves-create_workload api a w addr, lists-create_workload api a w addr)

-- A workload whose message no longer names a service is no longer recorded with that service, but
-- the service goes on listing the workload.
pub update_workload_leaves_listing :
    (api : WorkloadApi) (a b : AddressStore) (w : WorkloadMessage) (reason key : String)
    → update_workload api a w ≡ returned (b, (true, reason, none))
    → names_service w.services key ≡ false
    → lists a.service_map key w.uid ≡ true
    → (serves b.workload_map w.uid key ≡ false) × (lists b.service_map key w.uid ≡ true)
update_workload_leaves_listing api a b w reason key e gone h =
    let (recorded, listed) = update_workload_lem api a b w reason e in
    ground (arith, recorded w.uid key, listed key w.uid)
