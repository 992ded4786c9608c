-- ===== src/Address/Preserved.antt =====
-- What each handler of the address store keeps: a service lists the workloads that are recorded with it.
use notyetanotherenvoybacken.Common.{
  String, Bool, true, false, ◌&&◌, ◌≡◌, refl, Option, none, some, List, [], ◌∷◌, Error, arith,
  Bool-cases, Option-cases, inl, inr, lookup, erase, contains, is_empty, lookup-erase, add,
  contains-perm, Set, ◌∙◌, ◌==◌, if◌then◌else◌, string_eq,
}
use notyetanotherenvoybacken.Net.{Addr}
use notyetanotherenvoybacken.Nginx.{Env}
use notyetanotherenvoybacken.Address.State.{
  PortMessage, WorkloadMessage, ServiceMessage, Resource, WorkloadApi, ServiceMap, AddressStore,
  serves, lists, is_pod,
}
use notyetanotherenvoybacken.Address.Workloads.{create_workload, remove_workload_from_services}
use notyetanotherenvoybacken.Address.Update.{
  Progress, workloads_of, described_service, service_key, forget_workload, note_one, note_services,
  after_update, process_port, process_resources, refresh, finish_update, conclude, begin, update,
}
use notyetanotherenvoybacken.Address.Config.{update_service_config}
use notyetanotherenvoybacken.Address.Locked.{
  remove_one, remove_names, drop_service, settle_one, settle, remove_locked, ensure_locked, ensured,
  delete_locked,
}
use notyetanotherenvoybacken.Address.Quiet.{
  SameBook, SameBook-trans, refresh_one-SameBook, refresh-SameBook, delete_service_config-SameBook,
  reload_if-SameBook, update_service_config-SameBook,
}
use notyetanotherenvoybacken.Address.Progress.{
  IfReturned, process_resources-keeps, update-IfReturned,
}
use notyetanotherenvoybacken.Address.Linked.{
  Linked, lists-insert, lists-unlist, serves-erase, create_workload-Linked,
}

SameBook-Linked : {a b : AddressStore} → SameBook a b → Linked a → Linked b
SameBook-Linked s v uid key h = rw s.services_eq (v uid key (rw s.workloads_eq at h))

contains-workloads_of :
    (m : ServiceMap) (key uid : String)
    → contains uid (workloads_of (lookup key m)) ≡ lists m key uid
unfolding lists contains
contains-workloads_of m key uid = ground arith

module _ (env : Env) where
  contains-visits : (k : String) (s : Set) → contains k (env.visits s) ≡ contains k s
  contains-visits k s = contains-perm k (env.visits_perm s)

  pub lists-remove_workload_from_services :
      (a : AddressStore) (u key uid : String)
      → lists (remove_workload_from_services env a u).service_map key uid
        ≡ (if serves a.workload_map u key && uid == u then false else lists a.service_map key uid)
  unfolding remove_workload_from_services serves
  lists-remove_workload_from_services a u key uid = elim (Option-cases (lookup u a.workload_map)) [
    | inl e ↦ rw (e, remove_workload_from_services) (ground arith)
    | inr (w, e) ↦
        rw (e, remove_workload_from_services)
          (lists-unlist u (env.visits w.services) a.service_map key uid
            ∙ rw contains-visits (ground arith))
  ]

  pub workload_map-remove_workload_from_services :
      (a : AddressStore) (u : String)
      → (remove_workload_from_services env a u).workload_map ≡ a.workload_map
  unfolding remove_workload_from_services
  workload_map-remove_workload_from_services a u = ground arith

  forget_workload-Linked :
      (pr : Progress) (u : String) → Linked pr.store → Linked (forget_workload env pr u).store
  unfolding forget_workload
  forget_workload-Linked pr u v uid key h = ground (
    arith,
    lists-remove_workload_from_services pr.store u key uid,
    workload_map-remove_workload_from_services pr.store u,
    serves-erase uid key u (remove_workload_from_services env pr.store u).workload_map,
    v uid key,
  )

  pub note_services-store :
      (pr : Progress) (keys : List String) → (note_services env pr keys).store ≡ pr.store
  unfolding note_services note_one
  note_services-store pr [] = refl
  note_services-store pr (key ∷ keys) = note_services-store (note_one env pr key) keys

  after_update-Linked :
      (api : WorkloadApi) (pr : Progress) (w : WorkloadMessage) (addr : Addr) (reason : String)
      → Linked pr.store
      → Linked
          (after_update env pr w (create_workload api pr.store w addr, (true, reason, none))).store
  unfolding after_update
  after_update-Linked api pr w addr reason v =
      rw note_services-store (create_workload-Linked api pr.store w addr v)

  pub lists-process_port :
      (s : ServiceMessage) (pr : Progress) (p : PortMessage) (key uid : String)
      → lists (process_port env s pr p).store.service_map key uid
        ≡ lists pr.store.service_map key uid
  unfolding process_port
  lists-process_port s pr p key uid = ground (
    arith,
    lists-insert key uid (service_key s p)
        (described_service s p (workloads_of (lookup (service_key s p) pr.store.service_map)))
        pr.store.service_map,
    contains-workloads_of pr.store.service_map (service_key s p) uid,
  )

  process_port-Linked :
      (s : ServiceMessage) (pr : Progress) (p : PortMessage)
      → Linked pr.store
      → Linked (process_port env s pr p).store
  unfolding process_port
  process_port-Linked s pr p v uid key h = lists-process_port s pr p key uid ∙ v uid key h

  -- an entry with no workloads lists nobody
  pub lists-erase_empty :
      (m : ServiceMap) (k key uid : String)
      → is_empty (workloads_of (lookup k m)) ≡ true
      → lists (erase k m) key uid ≡ lists m key uid
  unfolding lists contains
  lists-erase_empty m k key uid h = ground (arith, lookup-erase key k m)

  drop_service-Linked :
      (a : AddressStore) (needs : Bool) (key : String)
      → is_empty (workloads_of (lookup key a.service_map)) ≡ true
      → Linked a
      → Linked (drop_service env (a, needs) key).0
  unfolding drop_service
  drop_service-Linked a needs key empty v = elim (Bool-cases (contains key a.active_services)) [
    | inl e ↦ rw (e, drop_service) (SameBook-Linked (delete_service_config-SameBook env _ key) gone)
    | inr e ↦ rw (e, drop_service) gone
  ]
    where
      gone : Linked (record a { service_map = erase key a.service_map })
      gone uid k h = lists-erase_empty a.service_map key k uid empty ∙ v uid k h

  finish_update-Linked :
      (newly : Set) (r : Option Error × AddressStore)
      → Linked r.1
      → Linked (finish_update env newly r).store
  unfolding finish_update
  finish_update-Linked newly (some e, a) v = v
  finish_update-Linked newly (none, a) v = v

module _ (env : Env) (api : WorkloadApi) where
  process_resources-Linked :
      (pr : Progress) (rs : List Resource)
      → Linked pr.store
      → IfReturned (λ pr'. Linked pr'.store) (process_resources env api pr rs)
  process_resources-Linked =
      process_resources-keeps env api (λ pr. Linked pr.store) (forget_workload-Linked env)
        (after_update-Linked env api) (process_port-Linked env)

  conclude-Linked : (pr : Progress) → Linked pr.store → Linked (conclude env api pr).store
  unfolding conclude
  conclude-Linked pr v = finish_update-Linked env pr.newly _ (
      SameBook-Linked
        (SameBook-trans (refresh-SameBook env api pr.store false (env.visits pr.affected))
          (reload_if-SameBook env r.0 r.1))
        v)
    where
      r : AddressStore × Bool
      r = refresh env api (pr.store, false) (env.visits pr.affected)

  pub update-Linked :
      (a : AddressStore) (rs : List Resource)
      → Linked a
      → IfReturned (λ u. Linked u.store) (update env api a rs)
  update-Linked a rs v =
      update-IfReturned env api a rs (λ pr. Linked pr.store) (λ u. Linked u.store)
        (process_resources-Linked (begin a) rs v) conclude-Linked

  settle_one-Linked :
      (a : AddressStore) (needs : Bool) (key : String)
      → Linked a
      → Linked (settle_one env api (a, needs) key).0
  unfolding settle_one
  settle_one-Linked a needs key v =
      elim (Bool-cases (is_empty (workloads_of (lookup key a.service_map)))) [
        | inl e ↦ rw (e, settle_one) (drop_service-Linked env a needs key e v)
        | inr e ↦ rw (e, settle_one) (SameBook-Linked (refresh_one-SameBook env api a needs key) v)
      ]

  settle-Linked :
      (s : AddressStore × Bool) (keys : List String) → Linked s.0 → Linked (settle env api s keys).0
  unfolding settle
  settle-Linked s [] v = v
  settle-Linked (a, needs) (key ∷ keys) v =
      settle-Linked (settle_one env api (a, needs) key) keys (settle_one-Linked a needs key v)

  remove_names-Linked :
      (pr : Progress) (names : List String)
      → Linked pr.store
      → Linked (remove_names env pr names).store
  unfolding remove_names remove_one
  remove_names-Linked pr [] v = v
  remove_names-Linked pr (name ∷ names) v = remove_names-Linked (remove_one env pr name) names kept
    where
      kept : Linked (remove_one env pr name).store
      kept = elim (Bool-cases (is_pod name)) [
        | inl e ↦ rw (e, remove_one) (forget_workload-Linked env pr name v)
        | inr e ↦ rw (e, remove_one) v
      ]

  pub remove_locked-Linked :
      (names : List String) (a : AddressStore) → Linked a → Linked (remove_locked env api names a).1
  unfolding remove_locked
  remove_locked-Linked names a v = SameBook-Linked (reload_if-SameBook env s.0 s.1) (
      settle-Linked (pr.store, false) (env.visits pr.affected)
        (remove_names-Linked (record { store = a; affected = []; newly = [] }) names v))
    where
      pr : Progress
      pr = remove_names env (record { store = a; affected = []; newly = [] }) names

      s : AddressStore × Bool
      s = settle env api (pr.store, false) (env.visits pr.affected)

  pub ensure_locked-Linked :
      (key : String) (a : AddressStore) → Linked a → Linked (ensure_locked env api key a).1
  unfolding ensure_locked
  ensure_locked-Linked key a v =
      elim (Bool-cases (is_empty (workloads_of (lookup key a.service_map)))) [
        | inl e ↦ rw (e, ensure_locked) v
        | inr e ↦
            rw (e, ensure_locked)
              (ensured-Linked (update_service_config env api active key)
                (SameBook-Linked (update_service_config-SameBook env api active key) v))
      ]
    where
      active : AddressStore
      active = record a { active_services = add key a.active_services }

      ensured-Linked : (r : Option Error × AddressStore) → Linked r.1 → Linked (ensured env api r).1
      ensured-Linked (none, b) w = w
      ensured-Linked (some e, b) w = w

  pub delete_locked-Linked :
      (key : String) (a : AddressStore) → Linked a → Linked (delete_locked env key a).1
  unfolding delete_locked
  delete_locked-Linked key a v = SameBook-Linked (delete_service_config-SameBook env _ key) v
