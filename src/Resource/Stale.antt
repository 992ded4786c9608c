-- ===== src/Resource/Stale.antt =====
-- resource.go: where no listing of a route is stale, `generateServerFile` returns.
use mathlib.Core.Path.{subst}
use notyetanotherenvoybacken.Common.{
  Dict, sym, Ends, Ends-if, Returns-Ends, String, true, ◌≡◌, refl, ◌∙◌, ap, inl, inr, some, List,
  [], ◌∷◌, Returns, Returns-bind, lookup, contains, Bool-cases, Option-cases, string_eq, arith,
}
use notyetanotherenvoybacken.Nginx.{Manager}
use notyetanotherenvoybacken.Resource.Messages.{Route}
use notyetanotherenvoybacken.Resource.State.{ServerFileConfig, ResourceStore, values_of}
use notyetanotherenvoybacken.Resource.Book.{matching_routes, route_matches_hostname}

-- Every key that is listed under a listener is the key of a route.
abbrev pub NoStale : ResourceStore → Type 0
NoStale r =
    (listener_key key : String)
    → contains key (values_of r.listener_to_routes listener_key) ≡ true
    → (route : Route) × (lookup key r.routes ≡ some route)

-- Only the server files and the manager differ.
abbrev pub OnlyFiles : ResourceStore → ResourceStore → Type 0
OnlyFiles r b =
    (files : Dict ServerFileConfig) × (m : Manager) × (b
      ≡ record r { server_files = files; nginx = m })

-- the store with other server files and another manager
abbrev pub with_files : Dict ServerFileConfig → Manager → ResourceStore → ResourceStore
with_files files m r = record r { server_files = files; nginx = m }

pub OnlyFiles-trans : (r b c : ResourceStore) → OnlyFiles r b → OnlyFiles b c → OnlyFiles r c
OnlyFiles-trans r b c (f, m, e) (g, n, d) = (g, n, d ∙ ap (with_files g n) e)

pub OnlyFiles-NoStale : (r b : ResourceStore) → OnlyFiles r b → NoStale r → NoStale b
OnlyFiles-NoStale r b (f, m, e) fresh = subst NoStale (sym e) fresh

matching_routes-Returns :
    (r : ResourceStore) (keys : List String) (hostname : String)
    → ((key : String)
        → contains key keys ≡ true
        → (route : Route) × (lookup key r.routes ≡ some route))
    → Returns (λ found. Unit {0}) (matching_routes r keys hostname)
unfolding matching_routes contains
matching_routes-Returns r [] hostname known = tt
matching_routes-Returns r (key ∷ keys) hostname known =
    let (route, found) = known key (ground arith) in
    let rest = matching_routes-Returns r keys hostname (λ k h. known k (ground (arith, h))) in
    rw (found, matching_routes)
      (elim (Bool-cases (route_matches_hostname route hostname)) [
        | inl e ↦
            rw (e, matching_routes)
              (Returns-bind (λ x. Unit {0}) _ (matching_routes r keys hostname) _ rest (λ x h. tt))
        | inr e ↦ rw (e, matching_routes) rest
      ])

pub matching_routes-with_files :
    (r : ResourceStore) (f : Dict ServerFileConfig) (m : Manager) (keys : List String)
    (hostname : String)
    → matching_routes (with_files f m r) keys hostname ≡ matching_routes r keys hostname
unfolding matching_routes
matching_routes-with_files r f m [] hostname = refl
matching_routes-with_files r f m (key ∷ keys) hostname = elim (Option-cases (lookup key r.routes)) [
  | inl n ↦ rw (n, matching_routes) refl
  | inr (route, n) ↦
      rw (n, matching_routes) (rw (matching_routes-with_files r f m keys hostname) refl)
]

-- The routes of each listener are found, or `bad` holds.
abbrev pub Finds : Type 0 → ResourceStore → Type 0
Finds bad r =
    (listener_key hostname : String)
    → Ends bad (λ found. Unit {0})
        (matching_routes r (values_of r.listener_to_routes listener_key) hostname)

pub NoStale-Finds : (r : ResourceStore) → NoStale r → Finds ⊥ r
NoStale-Finds r fresh listener_key hostname =
    Returns-Ends ⊥ (λ found. Unit {0}) _
      (matching_routes-Returns r (values_of r.listener_to_routes listener_key) hostname
        (fresh listener_key))

pub always-Finds : (r : ResourceStore) → Finds (Unit {0}) r
always-Finds r listener_key hostname = Ends-if (λ found. Unit {0}) _ (λ x e. tt)
