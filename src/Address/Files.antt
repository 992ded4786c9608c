-- ===== src/Address/Files.antt =====
-- The upstream files: what `updateServiceConfig`, `EnsureUpstreamFile` and `Update` write.
use notyetanotherenvoybacken.Common.{
  String, Bool, true, false, not, ◌≡◌, ◌≢◌, refl, Option, none, some, Error, ok, Bool-cases,
  Option-cases, inl, inr, lookup, contains, add, is_empty, contains-add, ◌==◌, if◌then◌else◌,
  string_eq,
}
use mathlib.Core.Path.{subst}
use mathlib.Core.Option.{some-injective, none-ne-some}
use notyetanotherenvoybacken.Nginx.{Env}
use notyetanotherenvoybacken.Nginx.Directive.{Directives, nil, cons}
use notyetanotherenvoybacken.Nginx.Writes.{files-write_config, write_config-succeeds}
use notyetanotherenvoybacken.Address.State.{WorkloadApi, Service, AddressStore}
use notyetanotherenvoybacken.Address.Config.{
  endpoint_file, server_directives, upstream_config, write_servers, update_service_config,
}
use notyetanotherenvoybacken.Address.Update.{workloads_of}
use notyetanotherenvoybacken.Address.Workloads.{returned}
use notyetanotherenvoybacken.Address.Locked.{ensured, ensure_locked, ensure_upstream_file}
use notyetanotherenvoybacken.Address.Progress.{IfReturned-eq, with_lock-IfReturned}
use notyetanotherenvoybacken.Address.Quiet.{SameBook, update_service_config-SameBook}

abbrev pub config_for : WorkloadApi → String → Service → Directives → Option Directives
config_for api key svc nil = none
config_for api key svc (cons d ds) = some (upstream_config api key svc (cons d ds))

-- The configuration that the maps call for: none if the service is unknown or has no server.
abbrev pub wanted_config : Env → WorkloadApi → AddressStore → String → Option Directives
wanted_config env api a key = elim (lookup key a.service_map) [
  | none ↦ none
  | some svc ↦
      config_for api key svc (server_directives a.workload_map svc (env.visits svc.workloads))
]

-- The file of the service holds what crossplane builds from the configuration.
abbrev pub IsWritten : Env → AddressStore → String → Directives → Type 0
IsWritten env a key config =
    (text : String) × (env.build config ≡ ok text)
    × (lookup (endpoint_file key) a.nginx.files ≡ some text)

module _ (env : Env) (api : WorkloadApi) where
  write_servers-IsWritten :
      (a : AddressStore) (key : String) (svc : Service) (servers config : Directives)
      → config_for api key svc servers ≡ some config
      → (write_servers env api a key svc servers).0 ≡ none
      → IsWritten env (write_servers env api a key svc servers).1 key config
  unfolding write_servers
  write_servers-IsWritten a key svc nil config h e = absurd cc
  write_servers-IsWritten a key svc (cons d ds) config h e =
      subst (IsWritten env (write_servers env api a key svc (cons d ds)).1 key)
        (some-injective _ _ h)
        (write_config-succeeds env a.nginx (endpoint_file key)
          (upstream_config api key svc (cons d ds)) e)

  pub update_service_config-IsWritten :
      (a : AddressStore) (key : String) (config : Directives)
      → wanted_config env api a key ≡ some config
      → (update_service_config env api a key).0 ≡ none
      → IsWritten env (update_service_config env api a key).1 key config
  unfolding update_service_config
  update_service_config-IsWritten a key config h e =
      elim (Option-cases (lookup key a.service_map)) [
        | inl n ↦ absurd (none-ne-some _ (rw (n, wanted_config) at h))
        | inr (svc, n) ↦
            rw (n, update_service_config)
              (write_servers-IsWritten a key svc _ config (rw (n, wanted_config) at h)
                (rw (n, update_service_config) at e))
      ]

  -- no other file is touched
  write_servers_frame :
      (a : AddressStore) (key : String) (svc : Service) (servers : Directives) (g : String)
      → g ≢ endpoint_file key
      → lookup g (write_servers env api a key svc servers).1.nginx.files ≡ lookup g a.nginx.files
  unfolding write_servers
  write_servers_frame a key svc nil g h = refl
  write_servers_frame a key svc (cons d ds) g h =
      files-write_config env a.nginx (endpoint_file key) _ g h

  pub update_service_config_frame :
      (a : AddressStore) (key g : String)
      → g ≢ endpoint_file key
      → lookup g (update_service_config env api a key).1.nginx.files ≡ lookup g a.nginx.files
  unfolding update_service_config
  update_service_config_frame a key g h = elim (Option-cases (lookup key a.service_map)) [
    | inl n ↦ rw (n, update_service_config)
    | inr (svc, n) ↦ rw (n, update_service_config) (write_servers_frame a key svc _ g h)
  ]

-- What `EnsureUpstreamFile` of a service returns and leaves.
pub record Ensured (env : Env) (api : WorkloadApi) (key : String) (a : AddressStore)
    (r : Bool × Option Error) (b : AddressStore) : Type 0 where
  pub available : r.0 ≡ not (is_empty (workloads_of (lookup key a.service_map)))
  pub active :
      (k : String)
      → contains k b.active_services ≡ (if k == key then true else contains k a.active_services)
  pub services : b.service_map ≡ a.service_map
  pub workloads : b.workload_map ≡ a.workload_map
  pub pending : r.0 ≡ false → (r.1 ≡ none) × (b.nginx ≡ a.nginx)
  pub written :
      (config : Directives)
      → wanted_config env api a key ≡ some config
      → r ≡ (true, none)
      → IsWritten env b key config
  pub others :
      (g : String) → g ≢ endpoint_file key → lookup g b.nginx.files ≡ lookup g a.nginx.files

module _ (env : Env) (api : WorkloadApi) (key : String) (a : AddressStore) where
  abbrev marked : AddressStore
  marked = record a { active_services = add key a.active_services }

  ensured-Ensured :
      (o : Option Error × AddressStore)
      → is_empty (workloads_of (lookup key a.service_map)) ≡ false
      → SameBook marked o.1
      → ((config : Directives)
          → wanted_config env api a key ≡ some config
          → o.0 ≡ none
          → IsWritten env o.1 key config)
      → ((g : String) → g ≢ endpoint_file key → lookup g o.1.nginx.files ≡ lookup g a.nginx.files)
      → Ensured env api key a (ensured env api o).0 (ensured env api o).1
  ensured-Ensured (none, b) full same written frame = record {
    available = rw full;
    active = λ k. rw same.active_eq (contains-add k key a.active_services);
    services = same.services_eq;
    workloads = same.workloads_eq;
    pending = λ h. absurd cc;
    written = λ config h p. written config h refl;
    others = frame;
  }
  ensured-Ensured (some e, b) full same written frame = record {
    available = rw full;
    active = λ k. rw same.active_eq (contains-add k key a.active_services);
    services = same.services_eq;
    workloads = same.workloads_eq;
    pending = λ h. absurd cc;
    written = λ config h p. absurd cc;
    others = frame;
  }

  ensure_locked-Ensured :
      Ensured env api key a (ensure_locked env api key a).0 (ensure_locked env api key a).1
  unfolding ensure_locked
  ensure_locked-Ensured = elim (Bool-cases (is_empty (workloads_of (lookup key a.service_map)))) [
    | inl e ↦
        rw (e, ensure_locked)
          (record {
            available = rw e;
            active = λ k. contains-add k key a.active_services;
            services = refl;
            workloads = refl;
            pending = λ h. (refl, refl);
            written = λ config h p. absurd cc;
            others = λ g h. refl;
          })
    | inr e ↦
        rw (e, ensure_locked)
          (ensured-Ensured (update_service_config env api marked key) e
            (update_service_config-SameBook env api marked key)
            (update_service_config-IsWritten env api marked key)
            (update_service_config_frame env api marked key))
  ]

-- `EnsureUpstreamFile` tells whether the service has workloads, and marks it active in any case, it
-- alone. Without workloads it returns no error and writes nothing. Where it returns true and no
-- error, and the maps give the service a server, the service's file holds the text of its upstream
-- block. It changes no other file, and not the maps.
pub ensure_upstream_file-Ensured :
    (env : Env) (api : WorkloadApi) (a b : AddressStore) (key : String) (r : Bool × Option Error)
    → ensure_upstream_file env api a key ≡ returned (r, b)
    → Ensured env api key a r b
unfolding ensure_upstream_file
ensure_upstream_file-Ensured env api a b key r h =
    IfReturned-eq (λ x. Ensured env api key a x.0 x.1) (ensure_upstream_file env api a key) (r, b) h
      (with_lock-IfReturned (λ x. Ensured env api key a x.0 x.1) a (ensure_locked env api key)
        (record {
          available = v.available;
          active = v.active;
          services = v.services;
          workloads = v.workloads;
          pending = v.pending;
          written = v.written;
          others = v.others;
        }))
  where
    held : AddressStore
    held = record a { locked = true }

    v :
        Ensured env api key held
          (ensure_locked env api key held).0
          (ensure_locked env api key held).1
    v = ensure_locked-Ensured env api key held
