-- ===== src/Address/Linked.antt =====
-- The two maps of the address store agree: a service that a workload is recorded with lists it.
use notyetanotherenvoybacken.Common.{
  String, true, false, ◌≡◌, refl, List, [], ◌∷◌, Dict, arith, lookup, insert, erase, contains,
  remove, ◌&&◌, Option-cases, inl, inr, lookup-insert, lookup-erase, contains-add, contains-remove,
  ◌==◌, if◌then◌else◌, string_eq,
}
use notyetanotherenvoybacken.Net.{Addr}
use notyetanotherenvoybacken.Address.State.{
  PortMessage, WorkloadMessage, WorkloadApi, Service, ServiceMap, Workload, WorkloadMap,
  AddressStore, serves, lists,
}
use notyetanotherenvoybacken.Address.Workloads.{
  Draft, workload_service_key, join_service, add_port, add_ports, add_services, create_workload,
  unlist_one, unlist,
}

-- Every service of a recorded workload lists the workload.
abbrev pub Linked : AddressStore → Type 0
Linked a =
    (uid key : String) → serves a.workload_map uid key ≡ true → lists a.service_map key uid ≡ true

pub lists-insert :
    (key uid k : String) (s : Service) (m : ServiceMap)
    → lists (insert k s m) key uid
      ≡ (if key == k then contains uid s.workloads else lists m key uid)
unfolding lists
lists-insert key uid k s m = ground (arith, lookup-insert key k s m)

module _ (api : WorkloadApi) (u : String) where
  contains-join_service :
      (p : PortMessage) (m : ServiceMap) (key uid : String)
      → contains uid (join_service api u p (lookup key m)).workloads
        ≡ (if uid == u then true else lists m key uid)
  unfolding lists contains
  contains-join_service p m key uid = elim (Option-cases (lookup key m)) [
    | inl e ↦ ground arith
    | inr (s, e) ↦ ground (arith, contains-add uid u s.workloads)
  ]

  pub lists-add_port :
      (sid : String) (d : Draft) (p : PortMessage) (key uid : String)
      → lists (add_port api u sid d p).service_map key uid ≡ (
          if key == workload_service_key sid p && uid == u
          then true
          else lists d.service_map key uid)
  unfolding add_port
  lists-add_port sid d p key uid = ground (
    arith,
    lists-insert key uid (workload_service_key sid p)
        (join_service api u p (lookup (workload_service_key sid p) d.service_map)) d.service_map,
    contains-join_service p d.service_map (workload_service_key sid p) uid,
  )

  pub contains-add_port :
      (sid : String) (d : Draft) (p : PortMessage) (key : String)
      → contains key (add_port api u sid d p).services
        ≡ (if key == workload_service_key sid p then true else contains key d.services)
  unfolding add_port
  contains-add_port sid d p key = contains-add key (workload_service_key sid p) d.services

  -- The draft's services list the workload, and no entry of the service map is lost.
  record IsSound (m : ServiceMap) (d : Draft) : Type 0 where
    linked : (key : String) → contains key d.services ≡ true → lists d.service_map key u ≡ true
    grows : (key uid : String) → lists m key uid ≡ true → lists d.service_map key uid ≡ true

  add_port-IsSound :
      (m : ServiceMap) (sid : String) (d : Draft) (p : PortMessage)
      → IsSound m d
      → IsSound m (add_port api u sid d p)
  add_port-IsSound m sid d p v = record {
    linked = λ key h.
        ground (arith, lists-add_port sid d p key u, contains-add_port sid d p key, v.linked key);
    grows = λ key uid h. ground (arith, lists-add_port sid d p key uid, v.grows key uid);
  }

  add_ports-IsSound :
      (m : ServiceMap) (sid : String) (d : Draft) (ps : List PortMessage)
      → IsSound m d
      → IsSound m (add_ports api u sid d ps)
  unfolding add_ports
  add_ports-IsSound m sid d [] v = v
  add_ports-IsSound m sid d (p ∷ ps) v =
      add_ports-IsSound m sid (add_port api u sid d p) ps (add_port-IsSound m sid d p v)

  add_services-IsSound :
      (m : ServiceMap) (d : Draft) (svcs : Dict (List PortMessage))
      → IsSound m d
      → IsSound m (add_services api u d svcs)
  unfolding add_services
  add_services-IsSound m d [] v = v
  add_services-IsSound m d ((sid, ps) ∷ rest) v =
      add_services-IsSound m (add_ports api u sid d ps) rest (add_ports-IsSound m sid d ps v)

  empty-IsSound : (m : ServiceMap) → IsSound m (record { services = []; service_map = m })
  unfolding contains
  empty-IsSound m = record { linked = λ key h. cc; grows = λ key uid h. h }

pub serves-insert :
    (uid key k : String) (w : Workload) (m : WorkloadMap)
    → serves (insert k w m) uid key
      ≡ (if uid == k then contains key w.services else serves m uid key)
unfolding serves
serves-insert uid key k w m = ground (arith, lookup-insert uid k w m)

pub serves-erase :
    (uid key k : String) (m : WorkloadMap)
    → serves (erase k m) uid key ≡ (if uid == k then false else serves m uid key)
unfolding serves
serves-erase uid key k m = ground (arith, lookup-erase uid k m)

pub create_workload-Linked :
    (api : WorkloadApi) (a : AddressStore) (w : WorkloadMessage) (addr : Addr)
    → Linked a
    → Linked (create_workload api a w addr)
unfolding create_workload
create_workload-Linked api a w addr v uid key h =
    let d : Draft =
      add_services api w.uid (record { services = []; service_map = a.service_map }) w.services in
    let s =
      add_services-IsSound api w.uid a.service_map _ w.services
        (empty-IsSound api w.uid a.service_map) in
    ground (
      arith,
      serves-insert uid key w.uid (record { address = addr; services = d.services }) a.workload_map,
      s.linked key,
      s.grows key uid,
      v uid key,
    )

pub lists-unlist_one :
    (u k : String) (m : ServiceMap) (key uid : String)
    → lists (unlist_one u k m) key uid ≡ (if key == k && uid == u then false else lists m key uid)
unfolding unlist_one
lists-unlist_one u k m key uid = elim (Option-cases (lookup k m)) [
  | inl e ↦ rw (e, unlist_one) (unfold lists in ground arith)
  | inr (s, e) ↦
      rw (e, unlist_one)
        (unfold lists in
          ground (
            arith,
            lookup-insert key k (record s { workloads = remove u s.workloads }) m,
            contains-remove uid u s.workloads,
          ))
]

pub lists-unlist :
    (u : String) (keys : List String) (m : ServiceMap) (key uid : String)
    → lists (unlist u keys m) key uid
      ≡ (if contains key keys && uid == u then false else lists m key uid)
unfolding unlist contains
lists-unlist u [] m key uid = refl
lists-unlist u (k ∷ keys) m key uid =
    ground (arith, lists-unlist u keys (unlist_one u k m) key uid, lists-unlist_one u k m key uid)
