-- ===== src/System/RouteFile.antt =====
-- resource.go: the file that `generateRouteFile` writes, and what it leaves in both stores.
use notyetanotherenvoybacken.Common.{
  String, false, ◌≡◌, ◌≢◌, refl, ◌∙◌, Option, none, some, List, [], ◌∷◌, Error, ok, Returns,
  Returns-cases, is_empty, lookup,
}
use notyetanotherenvoybacken.Nginx.{write_config}
use notyetanotherenvoybacken.Nginx.Directive.{Directive, Directives, nil, cons, block, append}
use notyetanotherenvoybacken.Nginx.Writes.{files-write_config, write_config-succeeds}
use notyetanotherenvoybacken.Address.State.{ServiceMap}
use notyetanotherenvoybacken.Address.Config.{endpoint_file}
use notyetanotherenvoybacken.Address.Rewrites.{Reliable, write_config-none}
use notyetanotherenvoybacken.Resource.Messages.{RouteMatch, Route}
use notyetanotherenvoybacken.Resource.Names.{route_file}
use notyetanotherenvoybacken.Resource.Match.{build_location_pattern}
use notyetanotherenvoybacken.System.State.{Outside, System, IsShared}
use notyetanotherenvoybacken.System.Routes.{
  match_directives, name_comment, backend_directives, collect_backends, generate_location,
  generate_location_directives, generate_locations, route_locations, write_route,
  generate_found_route, generate_route_file,
}
use notyetanotherenvoybacken.System.Available.{available}
use notyetanotherenvoybacken.System.Kept.{
  Keeps, written_manager-Keeps, SameRest, Keeps-refl, Keeps-trans, SameRest-trans, AllTracked,
  Keeps-AllTracked,
}
use notyetanotherenvoybacken.System.Collected.{Collected, collect_backends-Collected}

module _ (out : Outside) where
  -- The location of a match: it answers what does not match, and proxies to the available backends.
  abbrev pub wanted_location : ServiceMap → Route → Option RouteMatch → Directive
  wanted_location m route match =
      block "location" (build_location_pattern match ∷ [])
        (append (match_directives match) (backend_directives out (available m route.backends)))

  abbrev pub wanted_locations : ServiceMap → Route → List RouteMatch → Directives
  wanted_locations m route [] = nil
  wanted_locations m route (match ∷ rest) =
      cons (wanted_location m route (some match)) (wanted_locations m route rest)

  -- one location for each match; without a match, the default one
  abbrev pub all_locations : ServiceMap → Route → List RouteMatch → Directives
  all_locations m route [] = cons (wanted_location m route none) nil
  all_locations m route (match ∷ rest) = wanted_locations m route (match ∷ rest)

  -- The configuration that a route calls for, where the services have these workloads.
  abbrev pub route_config : ServiceMap → Route → Directives
  route_config m route = append (name_comment route.name) (all_locations m route route.matches)

  -- The route's file holds what crossplane builds from that configuration.
  abbrev pub IsRouteWritten : System → String → Route → Type 0
  IsRouteWritten s key route =
      (text : String) × (out.env.build (route_config s.addresses.service_map route) ≡ ok text)
      × (lookup (route_file key route.listener_key) s.resources.nginx.files ≡ some text)

module _ (out : Outside) (ok_env : Reliable out.env) (route : Route) where
  -- what a location leaves, and the directives that it gives
  abbrev Located {ℓ} : {A : Type ℓ} → System → A → A × System → Type ℓ
  Located s wanted (d, t) =
      (d ≡ wanted) × Keeps s t × SameRest s t × AllTracked route.key route.backends t

  generate_location-Located :
      (s : System) (match : Option RouteMatch)
      → s.addresses.locked ≡ false
      → IsShared s
      → Returns
          (Located s (wanted_location out s.addresses.service_map route match))
          (generate_location out s route match)
  unfolding generate_location generate_location_directives
  generate_location-Located s match free shared =
      let ((valid, t), equation, (valid_eq, k, same, tracked)) =
        Returns-cases (Collected out ok_env route.key s route.backends)
          (collect_backends out route.key s route.backends)
          (collect_backends-Collected out ok_env route.key s route.backends free shared) in
      rw equation (rw valid_eq refl, k, same, tracked)

  -- what the loop over the matches leaves
  abbrev LocatedAll : System → List RouteMatch → Directives → Directives × System → Type 0
  LocatedAll s ms wanted (d, t) =
      (d ≡ wanted)
      × Keeps s t
      × SameRest s t
      × (is_empty ms ≡ false → AllTracked route.key route.backends t)

  generate_locations-Located :
      (s : System) (ms : List RouteMatch)
      → s.addresses.locked ≡ false
      → IsShared s
      → Returns
          (LocatedAll s ms (wanted_locations out s.addresses.service_map route ms))
          (generate_locations out s route ms)
  unfolding generate_locations
  generate_locations-Located s [] free shared =
      (refl, Keeps-refl s free shared, λ f h. refl, λ h. absurd cc)
  generate_locations-Located s (m ∷ ms) free shared =
      let ((d, t), equation, (d_eq, k, same, tracked)) =
        Returns-cases (Located s (wanted_location out s.addresses.service_map route (some m)))
          (generate_location out s route (some m))
          (generate_location-Located s (some m) free shared) in
      let ((ds, u), equation2, (ds_eq, k2, same2, _)) =
        Returns-cases (LocatedAll t ms (wanted_locations out t.addresses.service_map route ms))
          (generate_locations out t route ms) (generate_locations-Located t ms k.free k.shared) in
      rw (equation, equation2)
        (
          rw (d_eq, ds_eq, k.services) refl,
          Keeps-trans k k2,
          SameRest-trans s t u same same2,
          λ h. Keeps-AllTracked route.key route.backends k2 tracked,
        )

  route_locations-Located :
      (s : System) (ms : List RouteMatch)
      → s.addresses.locked ≡ false
      → IsShared s
      → Returns
          (Located s (all_locations out s.addresses.service_map route ms))
          (route_locations out s route ms)
  unfolding route_locations
  route_locations-Located s [] free shared =
      let ((d, t), equation, (d_eq, k, same, tracked)) =
        Returns-cases (Located s (wanted_location out s.addresses.service_map route none))
          (generate_location out s route none) (generate_location-Located s none free shared) in
      rw equation (rw d_eq refl, k, same, tracked)
  route_locations-Located s (m ∷ ms) free shared =
      let ((d, t), equation, (d_eq, k, same, tracked)) =
        Returns-cases
          (LocatedAll s (m ∷ ms) (wanted_locations out s.addresses.service_map route (m ∷ ms)))
          (generate_locations out s route (m ∷ ms))
          (generate_locations-Located s (m ∷ ms) free shared) in
      rw equation (d_eq, k, same, tracked refl)

-- Besides the upstream files, at most the file of the route is changed.
abbrev pub SameOthers : String → Route → System → System → Type 0
SameOthers key route s t =
    (f : String)
    → ((k : String) → f ≢ endpoint_file k)
    → f ≢ route_file key route.listener_key
    → lookup f t.resources.nginx.files ≡ lookup f s.resources.nginx.files

module _ (out : Outside) (ok_env : Reliable out.env) (s : System) (key : String)
    (route : Route) where
  -- What `generateRouteFile` leaves, and the error it returns.
  abbrev pub RouteGenerated : Option Error × System → Type 0
  RouteGenerated (e, t) =
      (e ≡ none)
      × IsRouteWritten out t key route
      × Keeps s t
      × AllTracked route.key route.backends t
      × SameOthers key route s t

  write_route-Generated :
      (t : System) (locations : Directives)
      → locations ≡ all_locations out s.addresses.service_map route route.matches
      → Keeps s t
      → SameRest s t
      → AllTracked route.key route.backends t
      → RouteGenerated (write_route out t route key locations)
  unfolding write_route
  write_route-Generated t locations d_eq k same tracked =
      let file = route_file key route.listener_key in
      let config = append (name_comment route.name) locations in
      let silent = write_config-none out.env ok_env t.resources.nginx file config in
      let (text, built, stands) =
        write_config-succeeds out.env t.resources.nginx file config silent in
      let wrote =
        written_manager-Keeps t (write_config out.env t.resources.nginx file config).1 k.free in
      (
        silent,
        (text, rw (k.services, ← d_eq) built, stands),
        Keeps-trans k wrote,
        Keeps-AllTracked route.key route.backends wrote tracked,
        λ f other distinct.
            files-write_config out.env t.resources.nginx file config f distinct ∙ same f other,
      )

  -- Where builds and writes succeed, the address store's mutex is free and the manager is shared:
  -- `generateRouteFile` of a route returns without an error. Its file then holds, for each match,
  -- the location that proxies to the backends whose services have workloads, or answers 404 if none
  -- has. The route is listed under the service of every backend, and the service is active. The
  -- routes and the maps of workloads stay as they are, and no other file is changed, but upstream
  -- files.
  pub generate_route_file-Generated :
      lookup key s.resources.routes ≡ some route
      → s.addresses.locked ≡ false
      → IsShared s
      → Returns RouteGenerated (generate_route_file out s key)
  unfolding generate_route_file generate_found_route
  generate_route_file-Generated found free shared =
      let ((d, t), equation, (d_eq, k, same, tracked)) =
        Returns-cases
          (Located out ok_env route s
            (all_locations out s.addresses.service_map route route.matches))
          (route_locations out s route route.matches)
          (route_locations-Located out ok_env route s route.matches free shared) in
      rw (found, generate_route_file, equation) (write_route-Generated t d d_eq k same tracked)
