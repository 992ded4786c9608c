-- ===== src/System/Tests.antt =====
-- Both stores on concrete messages, and the theorems at inputs that meet their hypotheses.
use notyetanotherenvoybacken.Common.{
  ℕ, Error, Option, ◌≡◌, refl, none, some, [], ◌∷◌, true, false, Outcome, returned, Returns, arith,
  lookup, insert, contains, add, add_all, decimal, join, replace_all, to_lower, string_dec,
  ℕ_discrete,
}
use notyetanotherenvoybacken.Net.{addr_from_slice, addr_string}
use notyetanotherenvoybacken.Nginx.{write_config, reload}
use notyetanotherenvoybacken.Nginx.Names.{service_key_to_filename, service_key_to_upstream_name}
use notyetanotherenvoybacken.Address.State.{is_pod, get_workload_ips}
use notyetanotherenvoybacken.Address.Workloads.{
  workload_service_key, create_workload, update_workload, add_port, add_ports, add_services,
}
use notyetanotherenvoybacken.Address.Config.{
  endpoint_file, server_directive, server_directives, comment_directives, upstream_config,
  update_service_config,
}
use notyetanotherenvoybacken.Address.Update.{
  Updated, services_of, note_services, after_update, process_workload, process_address,
  process_resources, refresh_one, refresh, reload_if, finish_update, conclude, update,
}
use notyetanotherenvoybacken.Address.Rewrites.{Reliable}
use notyetanotherenvoybacken.Address.Samples.{calm, api, nginx, resource, waiting}
use notyetanotherenvoybacken.Resource.State.{values_of}
use notyetanotherenvoybacken.System.State.{System}
use notyetanotherenvoybacken.System.Handlers.{notify_all, update_addresses}
use notyetanotherenvoybacken.System.Current.{IsCurrent, OwnsRouteFile}
use notyetanotherenvoybacken.System.Notified.{IsListedUnder, update_addresses-Serves}
use notyetanotherenvoybacken.Address.State.{new_address_store}
use notyetanotherenvoybacken.Address.Linked.{Linked}
use notyetanotherenvoybacken.Resource.Listed.{Listed}
use notyetanotherenvoybacken.Resource.State.{
  add_to_reverse_map, remove_first, remove_from_reverse_map, new_resource_store,
}
use notyetanotherenvoybacken.Resource.Book.{
  Changes, backend_names, backend_to_upstream_name, forget_backends, update_route,
}
use notyetanotherenvoybacken.Resource.Removals.{
  record_resources, categorize, update_binds, update_listeners, update_routes, remove_all,
  unchanged,
}
use notyetanotherenvoybacken.Resource.Stale.{NoStale}
use notyetanotherenvoybacken.System.State.{put_resources}
use notyetanotherenvoybacken.System.Handlers.{update_resources, remove_from_system}
use notyetanotherenvoybacken.System.RouteFile.{
  wanted_location, RouteGenerated, generate_route_file-Generated,
}
use notyetanotherenvoybacken.System.Routes.{backend_directives, proxy_headers, generate_route_file}
use notyetanotherenvoybacken.Nginx.Directive.{nil, cons, simple, block}
use notyetanotherenvoybacken.Resource.Match.{
  header_variable, method_conditions, value_conditions, named_conditions, conditions, return_404,
  if_directive, if_directives, generate_match_directives, build_location_pattern,
}
use notyetanotherenvoybacken.System.Updated.{update_resources-Current}
use notyetanotherenvoybacken.System.Finished.{AreFree, IsAfterUpdate, handlers_return}
use notyetanotherenvoybacken.System.Reached.{Parts, start, addresses_updated}
use notyetanotherenvoybacken.System.Composed.{SystemReach-Parts}
use notyetanotherenvoybacken.System.Samples.{fresh, fresh_made, outside, hopeful, echo_route, get}

abbrev calm_Reliable : Reliable calm
calm_Reliable = record { builds = λ config. ("config", refl); writes = λ n f text. refl }

-- what a run of the address store unfolds
abbrev runs : ℕ
unfolding update process_resources process_address process_workload update_workload create_workload
    add_services add_ports add_port after_update note_services services_of conclude refresh
    refresh_one update_service_config server_directives server_directive upstream_config
    comment_directives endpoint_file service_key_to_filename service_key_to_upstream_name
    workload_service_key reload_if reload write_config finish_update lookup insert contains add
    add_all decimal join replace_all addr_string addr_from_slice get_workload_ips is_pod string_dec
    ℕ_discrete
runs = 0

-- what the recording of a route unfolds
abbrev records : ℕ
unfolding record_resources categorize update_binds update_listeners update_routes update_route
    forget_backends backend_to_upstream_name remove_from_reverse_map remove_first add_to_reverse_map
    values_of lookup insert contains string_dec
records = 0

abbrev result : Outcome Updated → Updated
result (returned u) = u
result _ = record { error = none; store = waiting; notified = [] }

-- the pod of the service has come
abbrev arrived : Updated
arrived = result (update calm api waiting (resource "pod" ∷ []))

arrived_returns :
    (update calm api waiting (resource "pod" ∷ []) ≡ returned arrived)
    × (arrived.error ≡ none)
    × (contains "default/echo/80" arrived.notified ≡ true)
unfolding runs
arrived_returns = (refl, refl, refl)

hopeful_owns : OwnsRouteFile hopeful "default/echo.0"
unfolding lookup
hopeful_owns k r route found wanted same = ground (arith, found)

hopeful_listed : IsListedUnder "default/echo.0" "default/echo/80" hopeful
unfolding values_of lookup contains string_dec
hopeful_listed = refl

update_addresses-Serves_example :
    Returns
      (λ (e, t).
        (e ≡ none)
        × (t.locked ≡ false)
        × (t.addresses.locked ≡ false)
        × IsCurrent outside t "default/echo.0"
        × (t.addresses.service_map ≡ arrived.store.service_map)
        × (t.addresses.workload_map ≡ arrived.store.workload_map))
      (update_addresses outside hopeful (resource "pod" ∷ []))
update_addresses-Serves_example =
    update_addresses-Serves outside calm_Reliable hopeful (resource "pod" ∷ []) arrived
      "default/echo/80" "default/echo.0" refl hopeful_owns arrived_returns.0 arrived_returns.1
      arrived_returns.2 hopeful_listed

hopeful_found : lookup "default/echo.0" hopeful.resources.routes ≡ some echo_route
unfolding lookup string_dec
hopeful_found = refl

generate_route_file-Generated_example :
    Returns
      (RouteGenerated outside calm_Reliable hopeful "default/echo.0" echo_route)
      (generate_route_file outside hopeful "default/echo.0")
generate_route_file-Generated_example =
    generate_route_file-Generated outside calm_Reliable hopeful "default/echo.0" echo_route
      hopeful_found refl refl

hopeful_fresh : NoStale hopeful.resources
unfolding values_of lookup contains
hopeful_fresh listener_key key h = elim (string_dec key "default/echo.0") [
  | yes e ↦ (echo_route, ground (arith, e))
  | no n ↦ absurd (ground (arith, h, n))
]

-- the location of the route once the pod is there: past the conditions to its upstream
served_location :
    wanted_location outside arrived.store.service_map echo_route (some get)
    ≡ block "location" ("/api" ∷ []) (
        cons (if_directive "$request_method != \"GET\"") (
          cons
            (if_directive "$http_x_env != \"prod\"")
            (cons (simple "proxy_pass" ("http://default_echo_80" ∷ [])) proxy_headers)))
unfolding runs records generate_match_directives conditions if_directives method_conditions
    named_conditions value_conditions header_variable to_lower build_location_pattern
    backend_directives backend_names
served_location = refl

-- before, it answers 404
waiting_location :
    wanted_location outside hopeful.addresses.service_map echo_route none
    ≡ block "location" ("/" ∷ []) (cons return_404 nil)
unfolding runs records build_location_pattern backend_directives backend_names
waiting_location = refl

-- the stores when the route has come again
abbrev again : Changes
again = record_resources calm outside.unmarshal hopeful.resources (resource "echo" ∷ [])

again_fresh : NoStale again.store
unfolding records
again_fresh = hopeful_fresh

again_owns : OwnsRouteFile (put_resources hopeful again.store) "default/echo.0"
unfolding records
again_owns = hopeful_owns

again_changed : contains "default/echo.0" again.routes ≡ true
unfolding records add
again_changed = refl

update_resources-Current_example :
    Returns
      (λ t.
        (t.locked ≡ false)
        × (t.addresses.locked ≡ false)
        × IsCurrent outside t "default/echo.0"
        × (t.resources.routes ≡ again.store.routes)
        × (t.addresses.service_map ≡ hopeful.addresses.service_map)
        × (t.addresses.workload_map ≡ hopeful.addresses.workload_map))
      (update_resources outside hopeful (resource "echo" ∷ []))
update_resources-Current_example =
    update_resources-Current outside calm_Reliable "default/echo.0" hopeful (resource "echo" ∷ [])
      refl refl again_fresh again_owns again_changed

handlers_return_example :
    (NoStale (record_resources calm outside.unmarshal hopeful.resources (resource "pod" ∷ [])).store
      → Returns AreFree (update_resources outside hopeful (resource "pod" ∷ [])))
    × (NoStale (remove_all (unchanged hopeful.resources) ("default/echo.0" ∷ [])).store
        → Returns AreFree (remove_from_system outside hopeful ("default/echo.0" ∷ [])))
    × Returns
        (IsAfterUpdate hopeful arrived)
        (update_addresses outside hopeful (resource "pod" ∷ []))
handlers_return_example =
    handlers_return outside hopeful (resource "pod" ∷ []) ("default/echo.0" ∷ []) arrived
      (refl, refl) arrived_returns.0

abbrev left_by : Outcome (Option Error × System) → System
left_by (returned (e, t)) = t
left_by _ = hopeful

-- the same after a pod has come
abbrev grown : System
grown = left_by (update_addresses outside fresh (resource "pod" ∷ []))

grown_left : update_addresses outside fresh (resource "pod" ∷ []) ≡ returned (none, grown)
unfolding runs update_addresses notify_all new_address_store new_resource_store
grown_left = refl

SystemReach-Parts_example :
    Parts outside nginx grown × Linked grown.addresses × Listed grown.resources
SystemReach-Parts_example =
    SystemReach-Parts outside nginx grown
      (addresses_updated (resource "pod" ∷ []) none (start fresh_made) grown_left)
