-- ===== src/Address/Removal.antt =====
-- What `Remove` does to the two maps, exactly.
use notyetanotherenvoybacken.Common.{
  String, Bool, true, false, ◌&&◌, ◌≡◌, refl, ◌∙◌, ap, Option, none, List, [], ◌∷◌, Error, arith,
  Bool-cases, inl, inr, lookup, erase, contains, is_empty, lookup-erase, ◌==◌, if◌then◌else◌,
  string_eq,
}
use notyetanotherenvoybacken.Nginx.{Env}
use notyetanotherenvoybacken.Address.State.{WorkloadApi, AddressStore, is_pod, serves, lists}
use notyetanotherenvoybacken.Address.Workloads.{returned, remove_workload_from_services}
use notyetanotherenvoybacken.Address.Update.{Progress, workloads_of, forget_workload}
use notyetanotherenvoybacken.Address.Config.{delete_service_config}
use notyetanotherenvoybacken.Address.Locked.{
  remove_one, remove_names, drop_service, settle_one, settle, remove_locked, remove_resources,
}
use notyetanotherenvoybacken.Address.Quiet.{
  SameBook, refresh_one-SameBook, delete_service_config-SameBook, reload_if-SameBook,
}
use notyetanotherenvoybacken.Address.Progress.{IfReturned-eq, with_lock-IfReturned}
use notyetanotherenvoybacken.Address.Linked.{serves-erase}
use notyetanotherenvoybacken.Address.Preserved.{
  lists-remove_workload_from_services, workload_map-remove_workload_from_services,
  lists-erase_empty,
}

-- A name that `Remove` acts on: one of the list, and a pod.
abbrev pub removed : List String → String → Bool
removed names uid = contains uid names && is_pod uid

-- `b` is `a` without the workloads of these names.
pub record Without (names : List String) (a b : AddressStore) : Type 0 where
  pub workloads :
      (uid : String)
      → lookup uid b.workload_map ≡ (if removed names uid then none else lookup uid a.workload_map)
  pub listings :
      (key uid : String)
      → lists b.service_map key uid ≡ (
          if removed names uid && serves a.workload_map uid key
          then false
          else lists a.service_map key uid)

module _ (env : Env) where
  serves-forget_workload :
      (pr : Progress) (u uid key : String)
      → serves (forget_workload env pr u).store.workload_map uid key
        ≡ (if uid == u then false else serves pr.store.workload_map uid key)
  unfolding forget_workload
  serves-forget_workload pr u uid key =
      serves-erase uid key u (remove_workload_from_services env pr.store u).workload_map
      ∙ rw workload_map-remove_workload_from_services

  lookup-forget_workload :
      (pr : Progress) (u uid : String)
      → lookup uid (forget_workload env pr u).store.workload_map
        ≡ (if uid == u then none else lookup uid pr.store.workload_map)
  unfolding forget_workload
  lookup-forget_workload pr u uid =
      lookup-erase uid u (remove_workload_from_services env pr.store u).workload_map
      ∙ rw workload_map-remove_workload_from_services

  lists-forget_workload :
      (pr : Progress) (u key uid : String)
      → lists (forget_workload env pr u).store.service_map key uid ≡ (
          if serves pr.store.workload_map u key && uid == u
          then false
          else lists pr.store.service_map key uid)
  unfolding forget_workload
  lists-forget_workload pr u key uid = lists-remove_workload_from_services env pr.store u key uid

  remove_names-Without :
      (pr : Progress) (names : List String)
      → Without names pr.store (remove_names env pr names).store
  unfolding remove_names remove_one contains
  remove_names-Without pr [] = record { workloads = λ uid. refl; listings = λ key uid. refl }
  remove_names-Without pr (name ∷ names) =
      let ih = remove_names-Without (remove_one env pr name) names in
      record {
        workloads = λ uid. ground (arith, ih.workloads uid, lookup-forget_workload pr name uid);
        listings = λ key uid. ground (
          arith,
          ih.listings key uid,
          lists-forget_workload pr name key uid,
          serves-forget_workload pr name uid key,
        );
      }

-- Neither the workloads nor what the services list has changed.
record SameListing (a b : AddressStore) : Type 0 where
  workloads : b.workload_map ≡ a.workload_map
  listings : (key uid : String) → lists b.service_map key uid ≡ lists a.service_map key uid

SameListing-trans : {a b c : AddressStore} → SameListing a b → SameListing b c → SameListing a c
SameListing-trans p q = record {
  workloads = q.workloads ∙ p.workloads;
  listings = λ key uid. q.listings key uid ∙ p.listings key uid;
}

SameBook-SameListing : {a b : AddressStore} → SameBook a b → SameListing a b
SameBook-SameListing s = record {
  workloads = s.workloads_eq;
  listings = λ key uid. ap (λ m. lists m key uid) s.services_eq;
}

module _ (env : Env) (api : WorkloadApi) where
  drop_service-SameListing :
      (a : AddressStore) (needs : Bool) (key : String)
      → is_empty (workloads_of (lookup key a.service_map)) ≡ true
      → SameListing a (drop_service env (a, needs) key).0
  unfolding drop_service
  drop_service-SameListing a needs key empty = elim (Bool-cases (contains key a.active_services)) [
    | inl e ↦
        rw (e, drop_service)
          (SameListing-trans gone (record {
            workloads = deleted.workloads_eq;
            listings = λ k uid. ap (λ m. lists m k uid) deleted.services_eq;
          }))
    | inr e ↦ rw (e, drop_service) gone
  ]
    where
      erased : AddressStore
      erased = record a { service_map = erase key a.service_map }

      gone : SameListing a erased
      gone = record {
        workloads = refl;
        listings = λ k uid. lists-erase_empty env a.service_map key k uid empty;
      }

      deleted : SameBook erased (delete_service_config env erased key).1
      deleted = delete_service_config-SameBook env erased key

  settle_one-SameListing :
      (a : AddressStore) (needs : Bool) (key : String)
      → SameListing a (settle_one env api (a, needs) key).0
  unfolding settle_one
  settle_one-SameListing a needs key =
      elim (Bool-cases (is_empty (workloads_of (lookup key a.service_map)))) [
        | inl e ↦ rw (e, settle_one) (drop_service-SameListing a needs key e)
        | inr e ↦
            rw (e, settle_one) (SameBook-SameListing (refresh_one-SameBook env api a needs key))
      ]

  settle-SameListing :
      (s : AddressStore × Bool) (keys : List String) → SameListing s.0 (settle env api s keys).0
  unfolding settle
  settle-SameListing s [] = record { workloads = refl; listings = λ key uid. refl }
  settle-SameListing (a, needs) (key ∷ keys) =
      SameListing-trans (settle_one-SameListing a needs key)
        (settle-SameListing (settle_one env api (a, needs) key) keys)

  Without-SameListing :
      (names : List String) {a b c : AddressStore}
      → Without names a b
      → SameListing b c
      → Without names a c
  Without-SameListing names w s = record {
    workloads = λ uid. ap (lookup uid) s.workloads ∙ w.workloads uid;
    listings = λ key uid. s.listings key uid ∙ w.listings key uid;
  }

  remove_locked-Without :
      (names : List String) (a : AddressStore) → Without names a (remove_locked env api names a).1
  unfolding remove_locked
  remove_locked-Without names a =
      Without-SameListing names
        (remove_names-Without env (record { store = a; affected = []; newly = [] }) names)
        (SameListing-trans (settle-SameListing (pr.store, false) (env.visits pr.affected))
          (SameBook-SameListing (reload_if-SameBook env s.0 s.1)))
    where
      pr : Progress
      pr = remove_names env (record { store = a; affected = []; newly = [] }) names

      s : AddressStore × Bool
      s = settle env api (pr.store, false) (env.visits pr.affected)

-- After `Remove` the workload map is the old one without the pods named, and a service lists a
-- workload exactly if it did before and the workload is not one of those pods that were recorded
-- with the service; it holds also where the reload fails.
pub remove_resources-Without :
    (env : Env) (api : WorkloadApi) (a b : AddressStore) (names : List String) (e : Option Error)
    → remove_resources env api a names ≡ returned (e, b)
    → Without names a b
unfolding remove_resources
remove_resources-Without env api a b names e h =
    IfReturned-eq (λ r. Without names a r.1) (remove_resources env api a names) (e, b) h
      (with_lock-IfReturned (λ r. Without names a r.1) a (remove_locked env api names)
        (record { workloads = kept.workloads; listings = kept.listings }))
  where
    kept : Without names a (remove_locked env api names (record a { locked = true })).1
    kept =
        let w = remove_locked-Without env api names (record a { locked = true }) in
        record { workloads = w.workloads; listings = w.listings }
