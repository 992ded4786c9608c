-- ===== src/System/Routes.antt =====
-- resource.go: the file of a route, `generateRouteFile`, with `generateLocationDirectives`.
use notyetanotherenvoybacken.Common.{
  ℕ, String, Bool, Option, none, some, List, [], ◌∷◌, Error, Outcome, returned, ◌>>=◌, lookup,
  sprintf, ◌==◌, if◌then◌else◌, string_eq,
}
use notyetanotherenvoybacken.Nginx.{write_config}
use notyetanotherenvoybacken.Nginx.Directive.{
  Directive, Directives, nil, cons, simple, block, comment, append,
}
use notyetanotherenvoybacken.Address.Locked.{ensure_upstream_file}
use notyetanotherenvoybacken.Resource.Messages.{RouteBackend, RouteMatch, RouteName, Route}
use notyetanotherenvoybacken.Resource.State.{add_to_reverse_map}
use notyetanotherenvoybacken.Resource.Book.{backend_to_upstream_name}
use notyetanotherenvoybacken.Resource.Names.{route_file}
use notyetanotherenvoybacken.Resource.Match.{
  generate_match_directives, build_location_pattern, return_404,
}
use notyetanotherenvoybacken.Resource.Weights.{
  ValidBackend, default_weight, total_weight, generate_weighted_directives,
}
use notyetanotherenvoybacken.System.State.{Outside, System, put_resources, put_addresses}

-- the route is listed under the service
abbrev pub note_route : String → String → System → System
note_route service_key route_key s = record s {
  resources = record s.resources {
    service_to_routes = add_to_reverse_map s.resources.service_to_routes service_key route_key;
  };
}

-- what `EnsureUpstreamFile` returned: the backend is valid if the service exists, without an error
abbrev pub backend_if : Bool × Option Error → String → ℕ → Option ValidBackend
backend_if (exists, some e) upstream weight = none
backend_if (exists, none) upstream weight =
    if exists
    then some (record { upstream_name = upstream; weight = default_weight weight })
    else none

abbrev pub cons_if : Option ValidBackend → List ValidBackend → List ValidBackend
cons_if none bs = bs
cons_if (some b) bs = b ∷ bs

abbrev pub proxy_headers : Directives
proxy_headers = cons (simple "proxy_set_header" ("Host" ∷ "$host" ∷ [])) (
    cons (simple "proxy_set_header" ("X-Real-IP" ∷ "$remote_addr" ∷ [])) (
      cons (simple "proxy_set_header" ("X-Forwarded-For" ∷ "$proxy_add_x_forwarded_for" ∷ [])) nil))

abbrev pub match_directives : Option RouteMatch → Directives
match_directives none = nil
match_directives (some m) = generate_match_directives m

abbrev pub name_comment : Option RouteName → Directives
name_comment none = nil
name_comment (some n) =
    cons
      (comment (sprintf ("Route: " ∷ n.namespace ∷ "/" ∷ n.name ∷ " (kind: " ∷ n.kind ∷ ")" ∷ [])))
      nil

module _ (out : Outside) where
  -- the call of `EnsureUpstreamFile`
  unfoldable pub ensure_upstream : System → String → Outcome ((Bool × Option Error) × System)
  ensure_upstream s service_key =
      ensure_upstream_file out.env out.workloads s.addresses service_key >>= λ (reply, a).
      returned (reply, put_addresses s a)

  -- the loop body for one backend
  unfoldable pub collect_one :
      String → System → RouteBackend → Outcome (Option ValidBackend × System)
  unfolding ensure_upstream
  collect_one route_key s b =
      let (upstream, service_key) = backend_to_upstream_name b.backend in
      if upstream == ""
      then returned (none, s)
      else (ensure_upstream (note_route service_key route_key s) service_key >>= λ (reply, t).
          returned (backend_if reply upstream b.weight, t))

  -- the loop over the backends of a route
  unfoldable pub collect_backends :
      String → System → List RouteBackend → Outcome (List ValidBackend × System)
  unfolding collect_one
  collect_backends route_key s [] = returned ([], s)
  collect_backends route_key s (b ∷ bs) = collect_one route_key s b >>= λ (found, t).
      collect_backends route_key t bs >>= λ (rest, u). returned (cons_if found rest, u)

  -- the directives for the backends that were found valid
  unfoldable pub backend_directives : List ValidBackend → Directives
  backend_directives [] = cons return_404 nil
  backend_directives (b ∷ []) =
      cons (simple "proxy_pass" (sprintf ("http://" ∷ b.upstream_name ∷ []) ∷ [])) proxy_headers
  backend_directives (b ∷ c ∷ rest) =
      append
        (generate_weighted_directives out.float64 (b ∷ c ∷ rest) (total_weight 0 (b ∷ c ∷ rest)))
        proxy_headers

  -- `generateLocationDirectives`
  unfoldable pub generate_location_directives :
      System → Route → Option RouteMatch → Outcome (Directives × System)
  unfolding collect_backends backend_directives
  generate_location_directives s route match =
      collect_backends route.key s route.backends >>= λ (valid, t).
      returned (append (match_directives match) (backend_directives valid), t)

  -- the location block of a match, or the default one
  unfoldable pub generate_location :
      System → Route → Option RouteMatch → Outcome (Directive × System)
  unfolding generate_location_directives
  generate_location s route match =
      generate_location_directives s route match >>= λ (directives, t).
      returned (block "location" (build_location_pattern match ∷ []) directives, t)

  -- the loop over the matches
  unfoldable pub generate_locations :
      System → Route → List RouteMatch → Outcome (Directives × System)
  unfolding generate_location
  generate_locations s route [] = returned (nil, s)
  generate_locations s route (m ∷ ms) = generate_location s route (some m) >>= λ (location, t).
      generate_locations t route ms >>= λ (rest, u). returned (cons location rest, u)

  -- the locations of a route: of its matches, or the default one
  unfoldable pub route_locations : System → Route → List RouteMatch → Outcome (Directives × System)
  unfolding generate_locations
  route_locations s route [] =
      generate_location s route none >>= λ (location, t). returned (cons location nil, t)
  route_locations s route (m ∷ ms) = generate_locations s route (m ∷ ms)

  unfoldable pub write_route : System → Route → String → Directives → Option Error × System
  write_route s route key locations =
      let (e, m) =
        write_config out.env s.resources.nginx (route_file key route.listener_key)
          (append (name_comment route.name) locations) in
      (e, put_resources s (record s.resources { nginx = m }))

  -- `generateRouteFile` by the route that the store has under the key
  unfoldable pub generate_found_route :
      System → String → Option Route → Outcome (Option Error × System)
  unfolding route_locations write_route
  generate_found_route s key none = returned (none, s)
  generate_found_route s key (some route) =
      route_locations s route route.matches >>= λ (locations, t).
      returned (write_route t route key locations)

  -- `generateRouteFile`
  unfoldable pub generate_route_file : System → String → Outcome (Option Error × System)
  unfolding generate_found_route
  generate_route_file s key = generate_found_route s key (lookup key s.resources.routes)
