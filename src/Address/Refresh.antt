-- ===== src/Address/Refresh.antt =====
-- After `Update` the files of the active services that changed are those that the maps call for.
use notyetanotherenvoybacken.Common.{
  String, Bool, true, false, ◌≡◌, refl, sym, ap, ◌∙◌, inl, inr, Option, none, some, List, Error,
  Bool-cases, lookup, contains, Set, contains-perm, string_eq,
}
use notyetanotherenvoybacken.Nginx.{Env}
use notyetanotherenvoybacken.Nginx.Directive.{Directives}
use notyetanotherenvoybacken.Nginx.Writes.{reload_lem}
use notyetanotherenvoybacken.Address.State.{Resource, WorkloadApi, AddressStore, serves}
use notyetanotherenvoybacken.Address.Workloads.{returned}
use notyetanotherenvoybacken.Address.Config.{endpoint_file}
use notyetanotherenvoybacken.Address.Update.{
  Progress, Updated, refresh, reload_if, finish_update, conclude, begin, process_resources, update,
}
use notyetanotherenvoybacken.Address.Quiet.{
  SameBook, SameBook-trans, refresh-SameBook, reload_if-SameBook,
}
use notyetanotherenvoybacken.Address.Progress.{IfReturned-both, IfReturned-eq, update-IfReturned}
use notyetanotherenvoybacken.Address.Lock.{Steady, process_resources-Steady}
use notyetanotherenvoybacken.Address.Files.{wanted_config, IsWritten}
use notyetanotherenvoybacken.Address.Affected.{Untouched, Covers, process_resources-Covers}
use notyetanotherenvoybacken.Address.Rewrites.{
  Reliable, OwnsFile, wanted_config-maps, IsDue, refresh_writes,
}

module _ (env : Env) where
  reload_if-IsWritten :
      (s : AddressStore × Bool) (key : String) (config : Directives)
      → IsWritten env s.0 key config
      → IsWritten env (reload_if env s).1 key config
  unfolding reload_if
  reload_if-IsWritten (a, false) key config w = w
  reload_if-IsWritten (a, true) key config (text, built, stands) =
      (text, built, ap (lookup (endpoint_file key)) (reload_lem env a.nginx).0 ∙ stands)

  -- The store of the result is the one that the reload left, but for the mutex.
  finish_update_same :
      (newly : Set) (r : Option Error × AddressStore)
      → ((finish_update env newly r).store.nginx ≡ r.1.nginx)
        × ((finish_update env newly r).store.service_map ≡ r.1.service_map)
        × ((finish_update env newly r).store.workload_map ≡ r.1.workload_map)
  unfolding finish_update
  finish_update_same newly (some e, a) = (refl, refl, refl)
  finish_update_same newly (none, a) = (refl, refl, refl)

module _ (env : Env) (api : WorkloadApi) (ok_env : Reliable env) (a : AddressStore) (key : String)
    (config : Directives) where
  conclude_writes :
      (pr : Progress)
      → pr.store.active_services ≡ a.active_services
      → Covers a pr
      → contains key a.active_services ≡ true
      → OwnsFile key a
      → wanted_config env api (conclude env api pr).store key ≡ some config
      → ¬ Untouched a (conclude env api pr).store key
      → IsWritten env (conclude env api pr).store key config
  unfolding conclude
  conclude_writes pr act covers active owns wanted changed =
      elim (Bool-cases (contains key pr.affected)) [
        | inl e ↦ written (contains-perm key (env.visits_perm pr.affected) ∙ e)
        | inr e ↦ absurd (changed (unchanged (covers key e)))
      ]
    where
      refreshed : AddressStore × Bool
      refreshed = refresh env api (pr.store, false) (env.visits pr.affected)

      same : SameBook pr.store (reload_if env refreshed).1
      same =
          SameBook-trans (refresh-SameBook env api pr.store false (env.visits pr.affected))
            (reload_if-SameBook env refreshed.0 refreshed.1)

      services : (conclude env api pr).store.service_map ≡ pr.store.service_map
      services = (finish_update_same env pr.newly (reload_if env refreshed)).1 ∙ same.services_eq

      workloads : (conclude env api pr).store.workload_map ≡ pr.store.workload_map
      workloads = (finish_update_same env pr.newly (reload_if env refreshed)).2 ∙ same.workloads_eq

      due : IsDue env api ok_env key config pr.store
      due = record {
        active = rw act active;
        wanted =
            sym (
              wanted_config-maps env api pr.store (conclude env api pr).store key services
                workloads)
            ∙ wanted;
      }

      unchanged : Untouched a pr.store key → Untouched a (conclude env api pr).store key
      unchanged v = record {
        entry = ap (lookup key) services ∙ v.entry;
        workloads = λ uid h.
            ap (lookup uid) workloads
            ∙ v.workloads uid (sym (ap (λ m. serves m uid key) workloads) ∙ h);
      }

      written :
          contains key (env.visits pr.affected) ≡ true
          → IsWritten env (conclude env api pr).store key config
      written h =
          let (text, built, stands) = reload_if-IsWritten env refreshed key config (
            refresh_writes env api ok_env key config pr.store false (env.visits pr.affected) due
              (λ k p. owns k (rw act at p)) (inl h)) in
          (
            text,
            built,
            ap (λ m. lookup (endpoint_file key) m.files)
                  (finish_update_same env pr.newly (reload_if env refreshed)).0
                ∙ stands,
          )

-- Where builds and writes succeed: if `Update` returns, and the entry of an active service or of a
-- workload recorded with it has changed, then the service's file holds the text of the upstream
-- block that the new maps call for, provided that they give it a server and that no other active
-- service has the same file name.
pub update_refreshes :
    (env : Env) (api : WorkloadApi) (a : AddressStore) (rs : List Resource) (u : Updated)
    (key : String) (config : Directives)
    → Reliable env
    → update env api a rs ≡ returned u
    → contains key a.active_services ≡ true
    → OwnsFile key a
    → wanted_config env api u.store key ≡ some config
    → ¬ Untouched a u.store key
    → IsWritten env u.store key config
update_refreshes env api a rs u key config ok_env e active owns =
    IfReturned-eq Written (update env api a rs) u e (
      update-IfReturned env api a rs (λ pr. Covers a pr × Steady a pr) Written
        (IfReturned-both (Covers a) (Steady a) (process_resources env api (begin a) rs)
          (process_resources-Covers env api a rs) (process_resources-Steady env api a rs))
        (λ pr h. conclude_writes env api ok_env a key config pr h.1.active h.0 active owns))
  where
    Written : Updated → Type 0
    Written v =
        wanted_config env api v.store key ≡ some config
        → ¬ Untouched a v.store key
        → IsWritten env v.store key config
