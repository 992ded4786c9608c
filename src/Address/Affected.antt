-- ===== src/Address/Affected.antt =====
-- `affectedServices` of `Update`: what it leaves out has not changed.
use notyetanotherenvoybacken.Common.{
  String, true, false, ◌||◌, ◌≡◌, refl, ◌∙◌, none, List, [], ◌∷◌, Dict, Set, arith, Option-cases,
  inl, inr, lookup, insert, contains, add_all, remove, lookup-insert, lookup-erase, contains-add,
  contains-add_all, contains-perm, if◌then◌else◌, string_eq,
}
use notyetanotherenvoybacken.Net.{Addr}
use notyetanotherenvoybacken.Nginx.{Env}
use notyetanotherenvoybacken.Address.State.{
  PortMessage, WorkloadMessage, ServiceMessage, Resource, WorkloadApi, ServiceMap, WorkloadMap,
  AddressStore, serves,
}
use notyetanotherenvoybacken.Address.Workloads.{
  Draft, workload_service_key, join_service, add_port, add_ports, add_services, create_workload,
  unlist_one, unlist, remove_workload_from_services,
}
use notyetanotherenvoybacken.Address.Update.{
  Progress, services_of, service_key, workloads_of, described_service, forget_workload, note_one,
  note_services, after_update, process_port, process_resources, begin,
}
use notyetanotherenvoybacken.Address.Progress.{IfReturned, process_resources-keeps}
use notyetanotherenvoybacken.Address.Linked.{serves-erase}
use notyetanotherenvoybacken.Address.Recorded.{names_port, names_service, serves-create_workload}
use notyetanotherenvoybacken.Address.Preserved.{
  workload_map-remove_workload_from_services, note_services-store,
}

-- The service's entry and the entries of the workloads recorded with it are those of `a`.
pub record Untouched (a b : AddressStore) (key : String) : Type 0 where
  pub entry : lookup key b.service_map ≡ lookup key a.service_map
  pub workloads :
      (uid : String)
      → serves b.workload_map uid key ≡ true
      → lookup uid b.workload_map ≡ lookup uid a.workload_map

module _ (api : WorkloadApi) (u key : String) where
  lookup-add_ports :
      (sid : String) (d : Draft) (ps : List PortMessage)
      → names_port sid ps key ≡ false
      → lookup key (add_ports api u sid d ps).service_map ≡ lookup key d.service_map
  unfolding add_ports add_port names_port
  lookup-add_ports sid d [] h = refl
  lookup-add_ports sid d (p ∷ ps) h = ground (
    arith,
    lookup-add_ports sid (add_port api u sid d p) ps,
    lookup-insert key (workload_service_key sid p)
        (join_service api u p (lookup (workload_service_key sid p) d.service_map)) d.service_map,
  )

  lookup-add_services :
      (d : Draft) (svcs : Dict (List PortMessage))
      → names_service svcs key ≡ false
      → lookup key (add_services api u d svcs).service_map ≡ lookup key d.service_map
  unfolding add_services names_service
  lookup-add_services d [] h = refl
  lookup-add_services d ((sid, ps) ∷ rest) h =
      ground (arith, lookup-add_services (add_ports api u sid d ps) rest, lookup-add_ports sid d ps)

lookup-unlist :
    (u key : String) (keys : List String) (m : ServiceMap)
    → contains key keys ≡ false
    → lookup key (unlist u keys m) ≡ lookup key m
unfolding unlist unlist_one contains
lookup-unlist u key [] m h = refl
lookup-unlist u key (k ∷ keys) m h = elim (Option-cases (lookup k m)) [
  | inl e ↦ rw (e, unlist_one) (lookup-unlist u key keys m (ground arith))
  | inr (s, e) ↦
      rw (e, unlist_one)
        (ground (
          arith,
          lookup-unlist u key keys (insert k (record s { workloads = remove u s.workloads }) m),
          lookup-insert key k (record s { workloads = remove u s.workloads }) m,
        ))
]

pub contains-services_of :
    (m : WorkloadMap) (uid key : String) → contains key (services_of m uid) ≡ serves m uid key
unfolding services_of serves contains
contains-services_of m uid key = ground arith

module _ (env : Env) where
  contains-visits : (k : String) (s : Set) → contains k (env.visits s) ≡ contains k s
  contains-visits k s = contains-perm k (env.visits_perm s)

  contains-note_services :
      (pr : Progress) (keys : List String) (key : String)
      → contains key (note_services env pr keys).affected
        ≡ (contains key keys || contains key pr.affected)
  unfolding note_services note_one contains
  contains-note_services pr [] key = refl
  contains-note_services pr (k ∷ keys) key =
      ground
        (arith, contains-note_services (note_one env pr k) keys key, contains-add key k pr.affected)

-- All but the affected services are untouched.
abbrev pub Covers : AddressStore → Progress → Type 0
Covers a pr = (key : String) → contains key pr.affected ≡ false → Untouched a pr.store key

module _ (env : Env) (a : AddressStore) where
  lookup-remove_workload_from_services :
      (s : AddressStore) (u key : String)
      → serves s.workload_map u key ≡ false
      → lookup key (remove_workload_from_services env s u).service_map ≡ lookup key s.service_map
  unfolding remove_workload_from_services serves
  lookup-remove_workload_from_services s u key h = elim (Option-cases (lookup u s.workload_map)) [
    | inl e ↦ rw (e, remove_workload_from_services)
    | inr (w, e) ↦
        rw (e, remove_workload_from_services)
          (lookup-unlist u key (env.visits w.services) s.service_map
            (contains-visits env key w.services ∙ ground arith))
  ]

  forget_workload-Covers :
      (pr : Progress) (u : String) → Covers a pr → Covers a (forget_workload env pr u)
  unfolding forget_workload
  forget_workload-Covers pr u v key h = record {
    entry = lookup-remove_workload_from_services pr.store u key unserved ∙ (v key before).entry;
    workloads = λ uid s. ground (
      arith,
      serves-erase uid key u (remove_workload_from_services env pr.store u).workload_map,
      workload_map-remove_workload_from_services env pr.store u,
      lookup-erase uid u pr.store.workload_map,
      (v key before).workloads uid,
    );
  }
    where
      parts :
          contains key (add_all (env.visits (services_of pr.store.workload_map u)) pr.affected)
          ≡ (if serves pr.store.workload_map u key then true else contains key pr.affected)
      parts =
          contains-add_all key (env.visits (services_of pr.store.workload_map u)) pr.affected
          ∙ rw (contains-visits, contains-services_of)

      unserved : serves pr.store.workload_map u key ≡ false
      unserved = ground (arith, parts, h)

      before : contains key pr.affected ≡ false
      before = ground (arith, parts, h)

  module _ (api : WorkloadApi) (pr : Progress) (w : WorkloadMessage) (addr : Addr) where
    abbrev created : AddressStore
    created = create_workload api pr.store w addr

    created-Untouched :
        (key : String)
        → names_service w.services key ≡ false
        → Untouched a pr.store key
        → Untouched a created key
    unfolding create_workload
    created-Untouched key unnamed v = record {
      entry =
          lookup-add_services api w.uid key
            (record { services = []; service_map = pr.store.service_map }) w.services unnamed
          ∙ v.entry;
      workloads = λ uid s. ground (
        arith,
        serves-create_workload api pr.store w addr uid key,
        lookup-insert uid w.uid
            (record {
              address = addr;
              services =
                  (add_services api w.uid
                    (record { services = []; service_map = pr.store.service_map })
                    w.services).services;
            })
            pr.store.workload_map,
        v.workloads uid,
      );
    }

    serves-created :
        (key : String) → names_service w.services key ≡ serves created.workload_map w.uid key
    serves-created key = ground (arith, serves-create_workload api pr.store w addr w.uid key)

    after_update-Covers :
        (reason : String)
        → Covers a pr
        → Covers a (after_update env pr w (created, (true, reason, none)))
    unfolding after_update
    after_update-Covers reason v key h = rw note_services-store (
        created-Untouched key (serves-created key ∙ ground (arith, parts, h))
          (v key (ground (arith, parts, h))))
      where
        noted : Progress
        noted = record pr {
          store = created;
          affected = add_all (env.visits (services_of pr.store.workload_map w.uid)) pr.affected;
        }

        parts :
            contains key
              (note_services env noted
                (env.visits (services_of created.workload_map w.uid))).affected
            ≡ (serves created.workload_map w.uid key
                || (if serves pr.store.workload_map w.uid key
                    then true
                    else contains key pr.affected))
        parts =
            contains-note_services env noted (env.visits (services_of created.workload_map w.uid))
              key
            ∙ rw (
              contains-visits env key (services_of created.workload_map w.uid),
              contains-services_of created.workload_map w.uid key,
              contains-add_all key (env.visits (services_of pr.store.workload_map w.uid))
                  pr.affected,
              contains-visits env key (services_of pr.store.workload_map w.uid),
              contains-services_of pr.store.workload_map w.uid key,
            )

  process_port-Covers :
      (s : ServiceMessage) (pr : Progress) (p : PortMessage)
      → Covers a pr
      → Covers a (process_port env s pr p)
  unfolding process_port
  process_port-Covers s pr p v key h = record {
    entry = ground (
      arith,
      contains-add key (service_key s p) pr.affected,
      lookup-insert key (service_key s p)
          (described_service s p (workloads_of (lookup (service_key s p) pr.store.service_map)))
          pr.store.service_map,
      (v key (ground (arith, contains-add key (service_key s p) pr.affected))).entry,
    );
    workloads = (v key (ground (arith, contains-add key (service_key s p) pr.affected))).workloads;
  }

-- A service that a run of the loop does not count among the affected has the entry that it had, and
-- so have the workloads that are recorded with it.
pub process_resources-Covers :
    (env : Env) (api : WorkloadApi) (a : AddressStore) (rs : List Resource)
    → IfReturned (Covers a) (process_resources env api (begin a) rs)
process_resources-Covers env api a rs =
    process_resources-keeps env api (Covers a) (forget_workload-Covers env a)
      (λ pr w addr reason. after_update-Covers env a api pr w addr reason)
      (process_port-Covers env a) (begin a) rs
      (λ key h. record { entry = refl; workloads = λ uid s. refl })
