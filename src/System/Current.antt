-- ===== src/System/Current.antt =====
-- resource.go: the loops over route files leave the file of each of their routes as the stores call
-- for.
use Prim.Native.Nat.{ℕ}
use Prim.Native.Char.{code}
use Prim.Native.String.append
use Prim.Native.String.{◌++◌}
use mathlib.Core.Option.{some-injective, none-ne-some}
use notyetanotherenvoybacken.Common.{
  String, true, false, ◌≡◌, ◌≢◌, refl, ◌∙◌, sym, ap, ◌⊎◌, inl, inr, Option, some, List, [], ◌∷◌,
  Error, Returns, Returns-map, Returns-bind, Option-cases, lookup, contains, string_dec, string_eq,
  arith,
}
use notyetanotherenvoybacken.Nginx.Writes.{reload_lem}
use notyetanotherenvoybacken.Address.Config.{endpoint_file}
use notyetanotherenvoybacken.Address.Rewrites.{Reliable}
use notyetanotherenvoybacken.Resource.Messages.{Route}
use notyetanotherenvoybacken.Resource.Names.{route_file}
use notyetanotherenvoybacken.System.State.{Outside, System, IsShared}
use notyetanotherenvoybacken.System.Routes.{generate_found_route, generate_route_file}
use notyetanotherenvoybacken.System.Handlers.{write_routes, reload_system}
use notyetanotherenvoybacken.System.Kept.{Keeps, Keeps-refl, Keeps-trans}
use notyetanotherenvoybacken.System.RouteFile.{
  IsRouteWritten, RouteGenerated, generate_route_file-Generated,
}

-- The route's file is as the routes and the maps of the two stores call for.
abbrev pub IsCurrent : Outside → System → String → Type 0
IsCurrent out s key =
    (route : Route) → lookup key s.resources.routes ≡ some route → IsRouteWritten out s key route

-- No other route of the store has the same file.
abbrev pub OwnsRouteFile : System → String → Type 0
OwnsRouteFile s key =
    (k : String) (r route : Route)
    → lookup k s.resources.routes ≡ some r
    → lookup key s.resources.routes ≡ some route
    → route_file key route.listener_key ≡ route_file k r.listener_key
    → k ≡ key

first_code : String → ℕ
first_code String.[] = 0
first_code (String.◌∷◌ c rest) = code c

first_code-route : (t : String) → first_code ("routes/" ++ t) ≡ 114
unfolding first_code
first_code-route t = rw (append.cons "r" "outes/" t) refl

first_code-endpoint : (t : String) → first_code ("endpoints/" ++ t) ≡ 101
unfolding first_code
first_code-endpoint t = rw (append.cons "e" "ndpoints/" t) refl

not_both : (n : ℕ) → n ≡ 114 → n ≡ 101 → ⊥
not_both n h k = omega arith

pub route_file-not-endpoint_file :
    (key listener_key k : String) → route_file key listener_key ≢ endpoint_file k
unfolding route_file endpoint_file
route_file-not-endpoint_file key listener_key k h =
    not_both _ (first_code-route _) (ap first_code h ∙ first_code-endpoint _)

module _ (out : Outside) (s : System) (key k : String) (r : Route) where
  -- the file of the key after the generation of the file of k
  generated-Current :
      (ok_env : Reliable out.env) (x : Option Error × System)
      → OwnsRouteFile s key
      → (k ≡ key) ⊎ IsCurrent out s key
      → lookup k s.resources.routes ≡ some r
      → RouteGenerated out ok_env s k r x
      → IsCurrent out x.1 key
  generated-Current ok_env (e, t) owns before found (silent, written, keeps, tracked, others) route
        wanted =
      let known : lookup key s.resources.routes ≡ some route =
        ap (lookup key) (sym keeps.routes) ∙ wanted in
      elim (string_dec k key) [
        | yes same ↦
            let found_key : lookup key s.resources.routes ≡ some r = rw (← same) found in
            let same_route : r ≡ route = some-injective _ _ (sym found_key ∙ known) in
            rw (← same_route, ← same) written
        | no distinct ↦ elim before [
          | inl same ↦ absurd (distinct same)
          | inr current ↦
              let (text, built, stands) = current route known in
              (
                text,
                rw keeps.services built,
                others (route_file key route.listener_key)
                      (route_file-not-endpoint_file key route.listener_key)
                      (λ h. distinct (owns k r route found known h))
                    ∙ stands,
              )
        ]
      ]

module _ (out : Outside) (ok_env : Reliable out.env) (key : String) where
  -- One generation leaves the file current if it is of this route, or if the file was current.
  abbrev StepsTo : System → String → System → Type 0
  StepsTo s k t = Keeps s t × ((k ≡ key) ⊎ IsCurrent out s key → IsCurrent out t key)

  generate_route_file-StepsTo :
      (s : System) (k : String)
      → OwnsRouteFile s key
      → s.addresses.locked ≡ false
      → IsShared s
      → Returns (λ x. StepsTo s k x.1) (generate_route_file out s k)
  unfolding generate_route_file generate_found_route
  generate_route_file-StepsTo s k owns free shared =
      elim (Option-cases (lookup k s.resources.routes)) [
        | inl n ↦
            rw (n, generate_route_file)
              (
                Keeps-refl s free shared,
                λ before route found. elim before [
                  | inl e ↦
                      absurd
                        (none-ne-some _ (sym n ∙ ap (λ x. lookup x s.resources.routes) e ∙ found))
                  | inr w ↦ w route found
                ],
              )
        | inr (r, found) ↦
            Returns-map (RouteGenerated out ok_env s k r) (λ x. StepsTo s k x.1)
              (generate_route_file out s k)
              (generate_route_file-Generated out ok_env s k r found free shared)
              (λ x g. (g.2, λ before. generated-Current out s key k r ok_env x owns before found g))
      ]

  still_due :
      (s t : System) (k : String) (keys : List String)
      → StepsTo s k t
      → (contains key (k ∷ keys) ≡ true) ⊎ IsCurrent out s key
      → (contains key keys ≡ true) ⊎ IsCurrent out t key
  unfolding contains
  still_due s t k keys (keeps, step) (inr current) = inr (step (inr current))
  still_due s t k keys (keeps, step) (inl h) = elim (string_dec key k) [
    | yes e ↦ inr (step (inl (sym e)))
    | no n ↦ inl (ground (arith, h, n))
  ]

  pub OwnsRouteFile-Keeps : (s t : System) → Keeps s t → OwnsRouteFile s key → OwnsRouteFile t key
  OwnsRouteFile-Keeps s t keeps owns k r route found wanted =
      owns k r route (ap (lookup k) (sym keeps.routes) ∙ found)
        (ap (lookup key) (sym keeps.routes) ∙ wanted)

  pub reload_system-Current :
      (s : System) → IsShared s → IsCurrent out s key → IsCurrent out (reload_system out s) key
  reload_system-Current s shared current route wanted =
      let (text, built, stands) = current route wanted in
      (
        text,
        built,
        ap (lookup (route_file key route.listener_key)) (reload_lem out.env s.resources.nginx).0
            ∙ stands,
      )

  -- The loop over route files leaves the file current if the route is among them, or if the file
  -- was current.
  abbrev pub Writes : System → List String → System → Type 0
  Writes s keys t =
      Keeps s t × ((contains key keys ≡ true) ⊎ IsCurrent out s key → IsCurrent out t key)

  pub none_due : (s : System) → (contains key [] ≡ true) ⊎ IsCurrent out s key → IsCurrent out s key
  unfolding contains
  none_due s (inl h) = absurd cc
  none_due s (inr current) = current

  pub write_routes-Writes :
      (s : System) (keys : List String)
      → OwnsRouteFile s key
      → s.addresses.locked ≡ false
      → IsShared s
      → Returns (Writes s keys) (write_routes out s keys)
  unfolding write_routes
  write_routes-Writes s [] owns free shared = (Keeps-refl s free shared, none_due s)
  write_routes-Writes s (k ∷ keys) owns free shared =
      Returns-bind (λ x. StepsTo s k x.1) _ (generate_route_file out s k) _
        (generate_route_file-StepsTo s k owns free shared)
        (λ (e, t) (keeps, step).
          Returns-map (Writes t keys) _ (write_routes out t keys)
            (write_routes-Writes t keys (OwnsRouteFile-Keeps s t keeps owns) keeps.free
              keeps.shared)
            (λ u (keeps2, current). (
              Keeps-trans keeps keeps2,
              λ before. current (still_due s t k keys (keeps, step) before),
            )))
