-- ===== src/Address/Reachable.antt =====
-- The handlers of the address store as a step relation, and what every reachable store satisfies.
use notyetanotherenvoybacken.Common.{
  String, Bool, true, ◌≡◌, Option, List, Error, lookup, string_eq,
}
use mathlib.Core.Path.{subst}
use notyetanotherenvoybacken.Nginx.{Env, Manager}
use notyetanotherenvoybacken.Address.State.{
  Resource, WorkloadApi, AddressStore, new_address_store, serves,
}
use notyetanotherenvoybacken.Address.Workloads.{returned}
use notyetanotherenvoybacken.Address.Update.{Updated, update}
use notyetanotherenvoybacken.Address.Locked.{
  with_lock, remove_locked, remove_resources, ensure_locked, ensure_upstream_file, delete_locked,
  delete_upstream_file, set_service_available_callback,
}
use notyetanotherenvoybacken.Address.Progress.{IfReturned, IfReturned-eq, with_lock-IfReturned}
use notyetanotherenvoybacken.Address.Linked.{Linked}
use notyetanotherenvoybacken.Address.Preserved.{
  update-Linked, remove_locked-Linked, ensure_locked-Linked, delete_locked-Linked,
}

-- A call of one handler that returns, or what another does with the manager that they share.
pub data Step (env : Env) (api : WorkloadApi) (a b : AddressStore) : Type 0 where
  by_update :
      (rs : List Resource) (u : Updated)
      → update env api a rs ≡ returned u
      → u.store ≡ b
      → Step env api a b
  by_remove :
      (names : List String) (e : Option Error)
      → remove_resources env api a names ≡ returned (e, b)
      → Step env api a b
  by_ensure :
      (key : String) (r : Bool × Option Error)
      → ensure_upstream_file env api a key ≡ returned (r, b)
      → Step env api a b
  by_delete :
      (key : String) (e : Option Error)
      → delete_upstream_file env a key ≡ returned (e, b)
      → Step env api a b
  by_callback : set_service_available_callback a ≡ returned (tt, b) → Step env api a b
  by_manager : (m : Manager) → record a { nginx = m } ≡ b → Step env api a b

pub data Reach (env : Env) (api : WorkloadApi) (a : AddressStore) : AddressStore → Type 0 where
  here : Reach env api a a
  next : {b c : AddressStore} → Reach env api a b → Step env api b c → Reach env api a c

with_lock-Linked {ℓ} :
    {A : Type ℓ} (a : AddressStore) (f : AddressStore → A × AddressStore)
    → ((b : AddressStore) → Linked b → Linked (f b).1)
    → Linked a
    → IfReturned (λ r. Linked r.1) (with_lock a f)
with_lock-Linked a f keep v =
    with_lock-IfReturned (λ r. Linked r.1) a f (keep (record a { locked = true }) v)

Step-Linked :
    {env : Env} {api : WorkloadApi} {a b : AddressStore} → Step env api a b → Linked a → Linked b
unfolding remove_resources ensure_upstream_file delete_upstream_file set_service_available_callback
Step-Linked {env} {api} {a} {b} (by_update rs u e q) v =
    subst Linked q (IfReturned-eq (λ u'. Linked u'.store) _ u e (update-Linked env api a rs v))
Step-Linked {env} {api} {a} {b} (by_remove names r e) v =
    IfReturned-eq (λ r'. Linked r'.1) _ (r, b) e
      (with_lock-Linked a (remove_locked env api names) (remove_locked-Linked env api names) v)
Step-Linked {env} {api} {a} {b} (by_ensure key r e) v =
    IfReturned-eq (λ r'. Linked r'.1) _ (r, b) e
      (with_lock-Linked a (ensure_locked env api key) (ensure_locked-Linked env api key) v)
Step-Linked {env} {api} {a} {b} (by_delete key r e) v =
    IfReturned-eq (λ r'. Linked r'.1) _ (r, b) e
      (with_lock-Linked a (delete_locked env key) (delete_locked-Linked env api key) v)
Step-Linked {env} {api} {a} {b} (by_callback e) v =
    IfReturned-eq (λ r'. Linked r'.1) _ (tt, b) e
      (with_lock-Linked a (λ c. (tt, record c { has_callback = true })) (λ c w. w) v)
Step-Linked {env} {api} {a} {b} (by_manager m e) v = subst Linked e v

Reach-keeps :
    {env : Env} {api : WorkloadApi} {a b : AddressStore} → Reach env api a b → Linked a → Linked b
Reach-keeps here v = v
Reach-keeps (next r s) v = Step-Linked s (Reach-keeps r v)

new_address_store-Linked : (m : Manager) → Linked (new_address_store m)
unfolding new_address_store serves lookup
new_address_store-Linked m uid key h = cc

-- In every store that calls of the handlers reach from a new one, whatever the messages, whatever the
-- outside answers and whatever else is done with the manager, each service that a workload is recorded with lists the workload.
pub Reach-Linked :
    (env : Env) (api : WorkloadApi) (m : Manager) (b : AddressStore)
    → Reach env api (new_address_store m) b
    → Linked b
Reach-Linked env api m b r = Reach-keeps r (new_address_store-Linked m)
