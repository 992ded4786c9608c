-- ===== src/System/SteadyTests.antt =====
-- The handlers of the resource store on concrete messages that move no route.
use mathlib.Core.Option.{some-injective}
use notyetanotherenvoybacken.Common.{
  ◌≡◌, refl, sym, ap, [], ◌∷◌, Outcome, returned, Returns, lookup, insert, add, string_dec, ℕ,
  ℕ_discrete, replace_all, decimal,
}
use notyetanotherenvoybacken.Address.Samples.{resource, nginx}
use notyetanotherenvoybacken.Resource.Exact.{Exact}
use notyetanotherenvoybacken.Resource.Steady.{IsSteady}
use notyetanotherenvoybacken.Resource.Removals.{
  record_resources, categorize, update_binds, update_listeners,
}
use notyetanotherenvoybacken.Resource.Book.{update_route, backend_to_upstream_name}
use notyetanotherenvoybacken.Resource.State.{new_resource_store}
use notyetanotherenvoybacken.Nginx.Names.{service_key_to_upstream_name}
use notyetanotherenvoybacken.Address.State.{new_address_store}
use notyetanotherenvoybacken.Address.Locked.{ensure_upstream_file}
use notyetanotherenvoybacken.System.Routes.{generate_route_file}
use notyetanotherenvoybacken.System.State.{System}
use notyetanotherenvoybacken.System.Handlers.{update_resources, remove_from_system}
use notyetanotherenvoybacken.System.Finished.{AreFree}
use notyetanotherenvoybacken.System.Samples.{outside, fresh, fresh_made, echo_route}
use notyetanotherenvoybacken.System.Steady.{start, resources_updated, steady_handlers_return}

abbrev left_by : Outcome System → System
left_by (returned t) = t
left_by _ = fresh

-- what the recording of the route unfolds
abbrev routes : ℕ
unfolding update_resources record_resources string_dec update_route lookup new_resource_store add
    generate_route_file insert backend_to_upstream_name service_key_to_upstream_name replace_all
    decimal ℕ_discrete ensure_upstream_file new_address_store
routes = 0

-- the new stores after the route has come
abbrev routed : System
routed = left_by (update_resources outside fresh (resource "echo" ∷ []))

routed_left : update_resources outside fresh (resource "echo" ∷ []) ≡ returned routed
unfolding routes
routed_left = refl

first-IsSteady : IsSteady outside.env outside.unmarshal fresh.resources (resource "echo" ∷ [])
unfolding categorize string_dec update_binds update_listeners lookup new_resource_store
first-IsSteady = (λ old h. absurd cc, tt)

second-IsSteady : IsSteady outside.env outside.unmarshal routed.resources (resource "echo" ∷ [])
unfolding routes categorize update_binds update_listeners
second-IsSteady = (λ old h. ap (λ r. r.listener_key) (sym (some-injective echo_route old h)), tt)

routed-AreFree : AreFree routed
unfolding routes
routed-AreFree = (refl, refl)

steady_handlers_return_example :
    Returns
      (λ t. AreFree t × Exact t.resources)
      (update_resources outside routed (resource "echo" ∷ []))
    × Returns
        (λ t. AreFree t × Exact t.resources)
        (remove_from_system outside routed ("default/echo.0" ∷ []))
steady_handlers_return_example =
    steady_handlers_return outside nginx routed (resource "echo" ∷ []) ("default/echo.0" ∷ [])
      (resources_updated (resource "echo" ∷ []) (start fresh_made) first-IsSteady routed_left)
      routed-AreFree second-IsSteady
