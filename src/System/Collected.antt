-- ===== src/System/Collected.antt =====
-- resource.go: the loop over the backends of a route finds those that are available.
use notyetanotherenvoybacken.Common.{
  String, false, ◌≡◌, refl, inl, inr, Option, List, [], ◌∷◌, Returns, Returns-cases, Bool-cases,
  arith, ◌==◌, string_eq,
}
use notyetanotherenvoybacken.Address.Locked.{ensure_upstream_file}
use notyetanotherenvoybacken.Address.Rewrites.{Reliable}
use notyetanotherenvoybacken.Resource.Messages.{RouteBackend}
use notyetanotherenvoybacken.Resource.Book.{backend_to_upstream_name}
use notyetanotherenvoybacken.Resource.Weights.{ValidBackend}
use notyetanotherenvoybacken.System.State.{Outside, System, IsShared}
use notyetanotherenvoybacken.System.Routes.{ensure_upstream, collect_one, collect_backends}
use notyetanotherenvoybacken.System.Available.{
  available_one, available, Replied, ensure_upstream_file-Replied, backend_if-available,
}
use notyetanotherenvoybacken.System.Kept.{
  Keeps, SameRest, Keeps-refl, Keeps-trans, SameRest-trans, Tracks, AllTracked, after_ensure-Keeps,
  after_ensure-SameRest, after_ensure_lists,
}

module _ (out : Outside) (ok_env : Reliable out.env) (route_key : String) where
  -- what the loop body leaves
  abbrev Collected1 : System → RouteBackend → Option ValidBackend × System → Type 0
  Collected1 s b (found, t) =
      (found ≡ available_one s.addresses.service_map b)
      × Keeps s t
      × SameRest s t
      × Tracks route_key b t

  collect_one-Collected :
      (s : System) (b : RouteBackend)
      → s.addresses.locked ≡ false
      → IsShared s
      → Returns (Collected1 s b) (collect_one out route_key s b)
  unfolding collect_one ensure_upstream
  collect_one-Collected s b free shared =
      elim (Bool-cases ((backend_to_upstream_name b.backend).0 == "")) [
        | inl e ↦
            rw (e, collect_one)
              (
                rw e refl,
                Keeps-refl s free shared,
                λ f h. refl,
                λ n. absurd (n (ground (arith, e))),
              )
        | inr e ↦
            let key = (backend_to_upstream_name b.backend).1 in
            let ((reply, a), equation, (replied, unlocked, v)) =
              Returns-cases (Replied out.env out.workloads ok_env s.addresses key)
                (ensure_upstream_file out.env out.workloads s.addresses key)
                (ensure_upstream_file-Replied out.env out.workloads ok_env s.addresses key free) in
            rw (e, collect_one, equation)
              (
                backend_if-available s.addresses.service_map b reply e replied,
                after_ensure-Keeps s route_key key a unlocked v,
                after_ensure-SameRest s route_key key a shared v,
                λ n. after_ensure_lists s route_key key a v,
              )
      ]

  -- what the loop over the backends leaves
  abbrev pub Collected : System → List RouteBackend → List ValidBackend × System → Type 0
  Collected s bs (found, t) =
      (found ≡ available s.addresses.service_map bs)
      × Keeps s t
      × SameRest s t
      × AllTracked route_key bs t

  -- Where everything is written, the loop over the backends finds those that are available.
  pub collect_backends-Collected :
      (s : System) (bs : List RouteBackend)
      → s.addresses.locked ≡ false
      → IsShared s
      → Returns (Collected s bs) (collect_backends out route_key s bs)
  unfolding collect_backends
  collect_backends-Collected s [] free shared = (refl, Keeps-refl s free shared, λ f h. refl, tt)
  collect_backends-Collected s (b ∷ bs) free shared =
      let ((found, t), equation, (found_eq, k, same, tracked)) =
        Returns-cases (Collected1 s b) (collect_one out route_key s b)
          (collect_one-Collected s b free shared) in
      let ((rest, u), equation2, (rest_eq, k2, same2, tracked2)) =
        Returns-cases (Collected t bs) (collect_backends out route_key t bs)
          (collect_backends-Collected t bs k.free k.shared) in
      rw (equation, equation2)
        (
          rw (found_eq, rest_eq, k.services) refl,
          Keeps-trans k k2,
          SameRest-trans s t u same same2,
          (
            λ named.
                let (listed, active) = tracked named in (k2.lists _ _ listed, k2.marks _ active),
            tracked2,
          ),
        )
