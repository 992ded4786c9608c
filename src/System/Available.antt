-- ===== src/System/Available.antt =====
-- resource.go: what the loop over the backends of a route finds, and what it leaves in both stores.
use notyetanotherenvoybacken.Common.{
  String, Bool, true, false, not, ◌||◌, ◌≡◌, refl, inl, inr, Option, none, some, List, [], ◌∷◌,
  Error, returned, Returns, Bool-cases, Option-cases, lookup, add, is_empty, ◌==◌, if◌then◌else◌,
  string_eq,
}
use notyetanotherenvoybacken.Nginx.{Env}
use notyetanotherenvoybacken.Address.State.{ServiceMap, WorkloadApi, AddressStore}
use notyetanotherenvoybacken.Address.Config.{update_service_config}
use notyetanotherenvoybacken.Address.Update.{workloads_of}
use notyetanotherenvoybacken.Address.Locked.{ensured, ensure_locked, ensure_upstream_file}
use notyetanotherenvoybacken.Address.Files.{Ensured, ensure_upstream_file-Ensured}
use notyetanotherenvoybacken.Address.Rewrites.{Reliable, write_servers-none}
use notyetanotherenvoybacken.Resource.Messages.{RouteBackend}
use notyetanotherenvoybacken.Resource.Book.{backend_to_upstream_name}
use notyetanotherenvoybacken.Resource.Weights.{ValidBackend, default_weight}
use notyetanotherenvoybacken.System.Routes.{backend_if, cons_if}

abbrev pub has_workloads : ServiceMap → String → Bool
has_workloads m key = not (is_empty (workloads_of (lookup key m)))

-- A backend is available if it names a service that has workloads.
abbrev pub available_one : ServiceMap → RouteBackend → Option ValidBackend
available_one m b =
    let (upstream, service_key) = backend_to_upstream_name b.backend in
    if upstream == "" || not (has_workloads m service_key)
    then none
    else some (record { upstream_name = upstream; weight = default_weight b.weight })

abbrev pub available : ServiceMap → List RouteBackend → List ValidBackend
available m [] = []
available m (b ∷ bs) = cons_if (available_one m b) (available m bs)

module _ (env : Env) (api : WorkloadApi) (ok_env : Reliable env) (a : AddressStore)
    (key : String) where
  update_service_config-known :
      (b : AddressStore)
      → b.service_map ≡ a.service_map
      → has_workloads a.service_map key ≡ true
      → (update_service_config env api b key).0 ≡ none
  unfolding update_service_config
  update_service_config-known b same h = elim (Option-cases (lookup key a.service_map)) [
    | inl n ↦ (let none_has : false ≡ true = rw n at h in cc)
    | inr (svc, n) ↦
        let found : lookup key b.service_map ≡ some svc = rw same n in
        rw (found, update_service_config) (write_servers-none env ok_env api b key svc _)
  ]

  ensured-none :
      (o : Option Error × AddressStore) → o.0 ≡ none → (ensured env api o).0 ≡ (true, none)
  ensured-none (none, b) h = refl
  ensured-none (some e, b) h = absurd cc

  abbrev held : AddressStore
  held = record a { locked = true }

  ensure_locked-reply : (ensure_locked env api key held).0 ≡ (has_workloads a.service_map key, none)
  unfolding ensure_locked
  ensure_locked-reply = elim (Bool-cases (is_empty (workloads_of (lookup key a.service_map)))) [
    | inl e ↦ rw (e, ensure_locked) refl
    | inr e ↦
        rw (e, ensure_locked)
          (ensured-none _ (
            update_service_config-known
              (record held { active_services = add key a.active_services }) refl (rw e refl)))
  ]

  -- the reply without an error, and the store that `EnsureUpstreamFile` then leaves
  abbrev pub Replied : (Bool × Option Error) × AddressStore → Type 0
  Replied (reply, b) =
      (reply ≡ (has_workloads a.service_map key, none))
      × (b.locked ≡ false)
      × Ensured env api key a reply b

  -- Where everything is written, `EnsureUpstreamFile` returns, without an error.
  pub ensure_upstream_file-Replied :
      a.locked ≡ false → Returns Replied (ensure_upstream_file env api a key)
  unfolding ensure_upstream_file
  ensure_upstream_file-Replied free =
      rw equation
        (ensure_locked-reply, refl, ensure_upstream_file-Ensured env api a _ key _ equation)
    where
      equation :
          ensure_upstream_file env api a key
          ≡ returned (
            (ensure_locked env api key held).0,
            record (ensure_locked env api key held).1 { locked = false },
          )
      equation = rw (free, ensure_upstream_file) refl

pub backend_if-available :
    (m : ServiceMap) (b : RouteBackend) (reply : Bool × Option Error)
    → ((backend_to_upstream_name b.backend).0 == "") ≡ false
    → reply ≡ (has_workloads m (backend_to_upstream_name b.backend).1, none)
    → backend_if reply (backend_to_upstream_name b.backend).0 b.weight ≡ available_one m b
backend_if-available m b reply named e =
    elim (Bool-cases (has_workloads m (backend_to_upstream_name b.backend).1)) [
      | inl h ↦ rw (e, h, named) refl
      | inr h ↦ rw (e, h, named) refl
    ]
