-- ===== src/Address/Tests.antt =====
-- The address store on concrete messages, and the theorems at inputs that meet their hypotheses.
use mathlib.Core.Path.{subst}
use notyetanotherenvoybacken.Common.{
  ℕ, String, true, false, ◌&&◌, ◌≡◌, refl, none, some, [], ◌∷◌, Error, ok, arith, lookup, insert,
  erase, contains, add, remove, add_all, decimal, join, replace_all, string_dec, ℕ_discrete, ◌==◌,
  if◌then◌else◌, string_eq, nat_eq,
}
use notyetanotherenvoybacken.Net.{addr_from_slice, addr_string}
use notyetanotherenvoybacken.Nginx.{write_config, delete_config, reload}
use notyetanotherenvoybacken.Nginx.Directive.{Directives, directive, nil, cons}
use notyetanotherenvoybacken.Nginx.Names.{service_key_to_filename, service_key_to_upstream_name}
use notyetanotherenvoybacken.Address.State.{
  AddressMessage, workload_address, AddressStore, new_address_store, is_pod, get_workload_ips,
  serves, lists,
}
use notyetanotherenvoybacken.Address.Workloads.{
  Outcome, returned, panicked, workload_service_key, create_workload, update_workload, add_port,
  add_ports, add_services, remove_workload_from_services, unlist, unlist_one,
}
use notyetanotherenvoybacken.Address.Config.{
  endpoint_file, server_directive, server_directives, comment_directives, upstream_config,
  update_service_config, delete_service_config,
}
use notyetanotherenvoybacken.Address.Update.{
  Updated, services_of, forget_workload, note_services, after_update, process_ports,
  process_workload, process_address, process_resources, refresh_one, refresh, reload_if,
  finish_update, conclude, update,
}
use notyetanotherenvoybacken.Address.Locked.{
  remove_names, settle, remove_locked, remove_resources, ensure_locked, ensure_upstream_file,
}
use notyetanotherenvoybacken.Address.Samples.{
  calm, broken, pod, homeless, moved, decode, api, nginx, resource, echo, waiting,
}
use notyetanotherenvoybacken.Address.Linked.{Linked}
use notyetanotherenvoybacken.Address.Reachable.{
  Reach, by_update, by_ensure, here, next, Reach-Linked,
}
use notyetanotherenvoybacken.Address.Lock.{IsDeaf, update_mutex, update_notifies_active}
use notyetanotherenvoybacken.Address.Recorded.{
  names_port, names_service, update_workload_lem, update_workload_leaves_listing,
}
use notyetanotherenvoybacken.Address.Removal.{Without, remove_resources-Without}
use notyetanotherenvoybacken.Address.Panic.{HasAddress, update_returns, update_panics}
use notyetanotherenvoybacken.Address.Files.{IsWritten, Ensured, ensure_upstream_file-Ensured}
use notyetanotherenvoybacken.Address.Rewrites.{Reliable}
use notyetanotherenvoybacken.Address.Refresh.{update_refreshes}
use notyetanotherenvoybacken.Address.Notifies.{update_notifies}

abbrev result : Outcome Updated → Updated
result (returned u) = u
result _ = record { error = none; store = waiting; notified = [] }

abbrev pod_added : Updated
pod_added = result (update calm api waiting (resource "pod" ∷ []))

-- all that a run of a handler computes with
abbrev runs : ℕ
unfolding update process_resources process_address process_workload update_workload create_workload
    add_services add_ports add_port after_update note_services services_of conclude refresh
    refresh_one update_service_config server_directives server_directive upstream_config
    comment_directives endpoint_file service_key_to_filename service_key_to_upstream_name
    workload_service_key reload_if reload write_config finish_update lookup insert contains add
    add_all decimal join replace_all addr_string addr_from_slice get_workload_ips is_pod string_dec
    ℕ_discrete forget_workload remove_workload_from_services unlist erase remove unlist_one lists
    serves process_ports remove_locked remove_names settle delete_service_config delete_config
runs = 0

pod_added_returns : update calm api waiting (resource "pod" ∷ []) ≡ returned pod_added
unfolding runs
pod_added_returns = refl

pod_added_notifies : pod_added.notified ≡ echo ∷ []
unfolding runs
pod_added_notifies = refl

pod_added_file : lookup "endpoints/default-echo-80.conf" pod_added.store.nginx.files ≡ some "config"
unfolding runs
pod_added_file = refl

abbrev store_after {ℓ} : {A : Type ℓ} → Outcome (A × AddressStore) → AddressStore
store_after (returned (x, b)) = b
store_after _ = waiting

-- a new store after a route asked for the service
abbrev pending : AddressStore
pending = store_after (ensure_upstream_file calm api (new_address_store nginx) echo)

abbrev pending_added : Updated
pending_added = result (update calm api pending (resource "pod" ∷ []))

pending_steps : Reach calm api (new_address_store nginx) pending_added.store
unfolding runs new_address_store ensure_upstream_file ensure_locked
pending_steps =
    next (next here (by_ensure echo (false, none) refl))
      (by_update (resource "pod" ∷ []) pending_added refl refl)

Reach-Linked_example : Linked pending_added.store
Reach-Linked_example = Reach-Linked calm api nginx pending_added.store pending_steps

-- the reload fails after the pod was added
abbrev failed : Updated
failed = result (update broken api waiting (resource "pod" ∷ []))

update_mutex_example :
    (failed.error ≡ none → failed.store.locked ≡ false)
    × ((e : Error) → failed.error ≡ some e → IsDeaf broken api failed.store)
unfolding runs
update_mutex_example = update_mutex broken api waiting (resource "pod" ∷ []) failed refl

failed_locked : failed.store.locked ≡ true
unfolding runs
failed_locked = refl

update_notifies_active_example :
    (pod_added.store.active_services ≡ echo ∷ [])
    × (pod_added.store.has_callback ≡ true)
    × ((key : String) → contains key pod_added.notified ≡ true → contains key (echo ∷ []) ≡ true)
update_notifies_active_example =
    update_notifies_active calm api waiting (resource "pod" ∷ []) pod_added pod_added_returns

abbrev with_pod : AddressStore
with_pod = create_workload api waiting pod (record { bytes = 10 ∷ 0 ∷ 0 ∷ 7 ∷ [] })

abbrev with_moved : AddressStore
with_moved = create_workload api with_pod moved (record { bytes = 10 ∷ 0 ∷ 0 ∷ 7 ∷ [] })

moved_accepted : update_workload api with_pod moved ≡ returned (with_moved, (true, "", none))
unfolding runs
moved_accepted = refl

moved_names : names_service moved.services echo ≡ false
unfolding runs names_service names_port
moved_names = refl

pod_listed : lists with_pod.service_map echo "//Pod/default/echo-1" ≡ true
unfolding runs
pod_listed = refl

update_workload_lem_example :
    ((uid key : String)
      → serves with_moved.workload_map uid key ≡ (
          if uid == "//Pod/default/echo-1"
          then names_service moved.services key
          else serves with_pod.workload_map uid key))
    × ((key uid : String)
        → lists with_moved.service_map key uid ≡ (
            if names_service moved.services key && uid == "//Pod/default/echo-1"
            then true
            else lists with_pod.service_map key uid))
update_workload_lem_example = update_workload_lem api with_pod with_moved moved "" moved_accepted

update_workload_leaves_listing_example :
    (serves with_moved.workload_map "//Pod/default/echo-1" echo ≡ false)
    × (lists with_moved.service_map echo "//Pod/default/echo-1" ≡ true)
update_workload_leaves_listing_example =
    update_workload_leaves_listing api with_pod with_moved moved "" echo moved_accepted moved_names
      pod_listed

abbrev pod_removed : AddressStore
pod_removed = store_after (remove_resources calm api with_pod ("//Pod/default/echo-1" ∷ []))

pod_removed_returns :
    remove_resources calm api with_pod ("//Pod/default/echo-1" ∷ []) ≡ returned (none, pod_removed)
unfolding runs remove_resources
pod_removed_returns = refl

remove_resources-Without_example : Without ("//Pod/default/echo-1" ∷ []) with_pod pod_removed
remove_resources-Without_example =
    remove_resources-Without calm api with_pod pod_removed ("//Pod/default/echo-1" ∷ []) none
      pod_removed_returns

moved-HasAddress : (m : AddressMessage) → decode "moved" ≡ ok m → HasAddress api m
unfolding runs
moved-HasAddress m e = subst (HasAddress api) moved_is (λ p h gone. cc)
  where
    moved_is : workload_address moved ≡ m
    moved_is = cc

update_returns_example :
    (u : Updated) × (update calm api waiting (resource "moved" ∷ []) ≡ returned u)
update_returns_example =
    update_returns calm api waiting (resource "moved" ∷ []) refl (moved-HasAddress, tt)

update_panics_example : update calm api with_pod (resource "homeless" ∷ []) ≡ panicked
unfolding runs
update_panics_example =
    update_panics calm api with_pod (resource "homeless") [] homeless _ refl refl refl refl refl
      refl

abbrev echo_ensured : AddressStore
echo_ensured = store_after (ensure_upstream_file calm api with_pod echo)

echo_ensured_returns :
    ensure_upstream_file calm api with_pod echo ≡ returned ((true, none), echo_ensured)
unfolding runs ensure_upstream_file ensure_locked
echo_ensured_returns = refl

ensure_upstream_file-Ensured_example : Ensured calm api echo with_pod (true, none) echo_ensured
ensure_upstream_file-Ensured_example =
    ensure_upstream_file-Ensured calm api with_pod echo_ensured echo (true, none)
      echo_ensured_returns

abbrev echo_config : Directives
echo_config =
    upstream_config api echo
      (record {
        port = 80;
        target_port = 8080;
        app_protocol = 0;
        load_balancing = none;
        ip_families = 0;
        workloads = "//Pod/default/echo-1" ∷ [];
      })
      (cons (directive "server" ("10.0.0.7:8080" ∷ []) nil none) nil)

calm-Reliable : Reliable calm
calm-Reliable = record { builds = λ config. ("config", refl); writes = λ n f text. refl }

update_refreshes_example : IsWritten calm pod_added.store echo echo_config
unfolding runs
update_refreshes_example =
    update_refreshes calm api waiting (resource "pod" ∷ []) pod_added echo echo_config calm-Reliable
      pod_added_returns refl (λ k h same. ground arith) refl (λ t. cc t.entry)

abbrev pod_accepted : AddressStore
pod_accepted =
    create_workload api (record waiting { locked = true }) pod
      (record { bytes = 10 ∷ 0 ∷ 0 ∷ 7 ∷ [] })

update_notifies_example : contains echo pod_added.notified ≡ true
unfolding runs
update_notifies_example =
    update_notifies calm api waiting pod_accepted (resource "pod") pod "" echo pod_added refl refl
      refl refl refl refl refl refl pod_added_returns refl
