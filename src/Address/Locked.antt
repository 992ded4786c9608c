-- ===== src/Address/Locked.antt =====
-- address.go: `Remove` and the handlers that the resource store calls, each under a deferred unlock.
use notyetanotherenvoybacken.Common.{
  String, Bool, true, false, not, Option, none, some, List, [], ◌∷◌, Error, because, lookup, erase,
  contains, add, remove, is_empty, if◌then◌else◌, nat_eq,
}
use notyetanotherenvoybacken.Nginx.{Env}
use notyetanotherenvoybacken.Address.State.{WorkloadApi, AddressStore, is_pod}
use notyetanotherenvoybacken.Address.Workloads.{Outcome, returned, blocked}
use notyetanotherenvoybacken.Address.Config.{update_service_config, delete_service_config}
use notyetanotherenvoybacken.Address.Update.{
  Progress, forget_workload, workloads_of, refresh_one, reload_if,
}

-- `Lock` at the start and a deferred `Unlock`
unfoldable pub with_lock {ℓ} :
    {A : Type ℓ} → AddressStore → (AddressStore → A × AddressStore) → Outcome (A × AddressStore)
with_lock a f =
    if a.locked
    then blocked
    else (let (r, a') = f (record a { locked = true }) in
        returned (r, record a' { locked = false }))

module _ (env : Env) where
  unfoldable pub remove_one : Progress → String → Progress
  remove_one pr name = if is_pod name then forget_workload env pr name else pr

  -- the loop of `Remove` over the names
  unfoldable pub remove_names : Progress → List String → Progress
  unfolding remove_one
  remove_names pr [] = pr
  remove_names pr (name ∷ names) = remove_names (remove_one pr name) names

  -- a service that has no workloads left goes from the map, and stops being active
  unfoldable pub drop_service : AddressStore × Bool → String → AddressStore × Bool
  drop_service (a, needs) key =
      if contains key a.active_services
      then (let (e, a') =
            delete_service_config env (record a { service_map = erase key a.service_map }) key in
          (record a' { active_services = remove key a'.active_services }, true))
      else (record a { service_map = erase key a.service_map }, needs)

module _ (env : Env) (api : WorkloadApi) where
  -- the loop body of `Remove` for one affected service
  unfoldable pub settle_one : AddressStore × Bool → String → AddressStore × Bool
  unfolding drop_service refresh_one
  settle_one (a, needs) key =
      if is_empty (workloads_of (lookup key a.service_map))
      then drop_service env (a, needs) key
      else refresh_one env api (a, needs) key

  unfoldable pub settle : AddressStore × Bool → List String → AddressStore × Bool
  unfolding settle_one
  settle s [] = s
  settle s (key ∷ keys) = settle (settle_one s key) keys

  unfoldable pub remove_locked : List String → AddressStore → Option Error × AddressStore
  remove_locked names a =
      let pr = remove_names env (record { store = a; affected = []; newly = [] }) names in
      reload_if env (settle (pr.store, false) (env.visits pr.affected))

  -- `Remove`
  unfoldable pub remove_resources :
      AddressStore → List String → Outcome (Option Error × AddressStore)
  unfolding with_lock
  remove_resources a names = with_lock a (remove_locked names)

  abbrev pub ensured : Option Error × AddressStore → (Bool × Option Error) × AddressStore
  ensured (none, a) = ((true, none), a)
  ensured (some e, a) = ((true, some (because "failed to write upstream config" e)), a)

  unfoldable pub ensure_locked : String → AddressStore → (Bool × Option Error) × AddressStore
  ensure_locked key a =
      let a' = record a { active_services = add key a.active_services } in
      if is_empty (workloads_of (lookup key a.service_map))
      then ((false, none), a')
      else ensured (update_service_config env api a' key)

  -- `EnsureUpstreamFile`
  unfoldable pub ensure_upstream_file :
      AddressStore → String → Outcome ((Bool × Option Error) × AddressStore)
  unfolding with_lock
  ensure_upstream_file a key = with_lock a (ensure_locked key)

unfoldable pub delete_locked : Env → String → AddressStore → Option Error × AddressStore
delete_locked env key a =
    delete_service_config env (record a { active_services = remove key a.active_services }) key

-- `DeleteUpstreamFile`
unfoldable pub delete_upstream_file :
    Env → AddressStore → String → Outcome (Option Error × AddressStore)
unfolding with_lock
delete_upstream_file env a key = with_lock a (delete_locked env key)

-- `ServiceExists`
unfoldable pub service_exists : AddressStore → String → Outcome (Bool × AddressStore)
unfolding with_lock
service_exists a key =
    with_lock a λ a'. (not (is_empty (workloads_of (lookup key a'.service_map))), a')

-- `SetServiceAvailableCallback`; the caller's function itself is not part of the state
unfoldable pub set_service_available_callback : AddressStore → Outcome (Unit {0} × AddressStore)
unfolding with_lock
set_service_available_callback a = with_lock a λ a'. (tt, record a' { has_callback = true })
