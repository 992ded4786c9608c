-- ===== src/System/Steps.antt =====
-- resource.go: what each step of the generation of a route file preserves, the generation preserves.
use notyetanotherenvoybacken.Common.{
  String, Option, none, some, List, [], ◌∷◌, Ends, Ends-bind, Bool-cases, lookup, inl, inr, ◌==◌,
  string_eq,
}
use notyetanotherenvoybacken.Nginx.{Manager}
use notyetanotherenvoybacken.Resource.Messages.{RouteBackend, RouteMatch, Route}
use notyetanotherenvoybacken.Resource.Book.{backend_to_upstream_name}
use notyetanotherenvoybacken.System.State.{Outside, System, put_resources}
use notyetanotherenvoybacken.System.Routes.{
  note_route, ensure_upstream, collect_one, collect_backends, generate_location_directives,
  generate_location, generate_locations, route_locations, write_route, generate_found_route,
  generate_route_file,
}
use notyetanotherenvoybacken.System.Handlers.{write_routes, regenerate}

module _ (out : Outside) (bad : Type 0) (P : System → Type 0)
    (on_note : (s : System) (service_key route_key : String)
      → P s
      → P (note_route service_key route_key s))
    (on_ensure : (s : System) (service_key : String)
      → P s
      → Ends bad (λ x. P x.1) (ensure_upstream out s service_key))
    (on_write : (s : System) (m : Manager)
      → P s
      → P (put_resources s (record s.resources { nginx = m }))) where
  collect_one-keeps :
      (route_key : String) (s : System) (b : RouteBackend)
      → P s
      → Ends bad (λ x. P x.1) (collect_one out route_key s b)
  unfolding collect_one
  collect_one-keeps route_key s b h =
      elim (Bool-cases ((backend_to_upstream_name b.backend).0 == "")) [
        | inl e ↦ rw (e, collect_one) h
        | inr e ↦
            let key = (backend_to_upstream_name b.backend).1 in
            rw (e, collect_one)
              (Ends-bind bad (λ x. P x.1) _ (ensure_upstream out (note_route key route_key s) key) _
                (on_ensure (note_route key route_key s) key (on_note s key route_key h)) (λ x p. p))
      ]

  collect_backends-keeps :
      (route_key : String) (s : System) (bs : List RouteBackend)
      → P s
      → Ends bad (λ x. P x.1) (collect_backends out route_key s bs)
  unfolding collect_backends
  collect_backends-keeps route_key s [] h = h
  collect_backends-keeps route_key s (b ∷ bs) h =
      Ends-bind bad (λ x. P x.1) _ (collect_one out route_key s b) _
        (collect_one-keeps route_key s b h)
        (λ (found, t) p.
          Ends-bind bad (λ x. P x.1) _ (collect_backends out route_key t bs) _
            (collect_backends-keeps route_key t bs p) (λ x q. q))

  generate_location-keeps :
      (s : System) (route : Route) (match : Option RouteMatch)
      → P s
      → Ends bad (λ x. P x.1) (generate_location out s route match)
  unfolding generate_location generate_location_directives
  generate_location-keeps s route match h =
      Ends-bind bad (λ x. P x.1) _ (generate_location_directives out s route match) _
        (Ends-bind bad (λ x. P x.1) _ (collect_backends out route.key s route.backends) _
          (collect_backends-keeps route.key s route.backends h) (λ x p. p))
        (λ x p. p)

  generate_locations-keeps :
      (s : System) (route : Route) (ms : List RouteMatch)
      → P s
      → Ends bad (λ x. P x.1) (generate_locations out s route ms)
  unfolding generate_locations
  generate_locations-keeps s route [] h = h
  generate_locations-keeps s route (m ∷ ms) h =
      Ends-bind bad (λ x. P x.1) _ (generate_location out s route (some m)) _
        (generate_location-keeps s route (some m) h)
        (λ (location, t) p.
          Ends-bind bad (λ x. P x.1) _ (generate_locations out t route ms) _
            (generate_locations-keeps t route ms p) (λ x q. q))

  route_locations-keeps :
      (s : System) (route : Route) (ms : List RouteMatch)
      → P s
      → Ends bad (λ x. P x.1) (route_locations out s route ms)
  unfolding route_locations
  route_locations-keeps s route [] h =
      Ends-bind bad (λ x. P x.1) _ (generate_location out s route none) _
        (generate_location-keeps s route none h) (λ x p. p)
  route_locations-keeps s route (m ∷ ms) h = generate_locations-keeps s route (m ∷ ms) h

  generate_found_route-keeps :
      (s : System) (key : String) (route : Option Route)
      → P s
      → Ends bad (λ x. P x.1) (generate_found_route out s key route)
  unfolding generate_found_route write_route
  generate_found_route-keeps s key none h = h
  generate_found_route-keeps s key (some route) h =
      Ends-bind bad (λ x. P x.1) _ (route_locations out s route route.matches) _
        (route_locations-keeps s route route.matches h) (λ (locations, t) p. on_write t _ p)

  pub generate_route_file-keeps :
      (s : System) (key : String) → P s → Ends bad (λ x. P x.1) (generate_route_file out s key)
  unfolding generate_route_file
  generate_route_file-keeps s key h =
      generate_found_route-keeps s key (lookup key s.resources.routes) h

  pub write_routes-keeps :
      (s : System) (keys : List String) → P s → Ends bad P (write_routes out s keys)
  unfolding write_routes
  write_routes-keeps s [] h = h
  write_routes-keeps s (key ∷ keys) h =
      Ends-bind bad (λ x. P x.1) P (generate_route_file out s key) _
        (generate_route_file-keeps s key h) (λ (e, t) p. write_routes-keeps t keys p)

  pub regenerate-keeps :
      (s : System) (keys : List String) → P s → Ends bad P (regenerate out s keys)
  regenerate-keeps s [] h = h
  regenerate-keeps s (key ∷ keys) h =
      Ends-bind bad P P (write_routes out s (key ∷ keys)) _ (write_routes-keeps s (key ∷ keys) h)
        (λ t p. on_write t _ p)
