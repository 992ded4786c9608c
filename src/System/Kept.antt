-- ===== src/System/Kept.antt =====
-- resource.go: what the calls of `EnsureUpstreamFile` for a route keep of both stores.
use notyetanotherenvoybacken.Common.{
  String, Bool, true, false, ◌≡◌, ◌≢◌, refl, ◌∙◌, sym, ap, Option, List, [], ◌∷◌, Error, lookup,
  contains, arith, string_eq,
}
use notyetanotherenvoybacken.Nginx.{Env, Manager}
use notyetanotherenvoybacken.Address.State.{WorkloadApi, AddressStore}
use notyetanotherenvoybacken.Address.Config.{endpoint_file}
use notyetanotherenvoybacken.Address.Files.{Ensured}
use notyetanotherenvoybacken.Resource.Messages.{RouteBackend}
use notyetanotherenvoybacken.Resource.State.{values_of}
use notyetanotherenvoybacken.Resource.Book.{backend_to_upstream_name}
use notyetanotherenvoybacken.Resource.Listed.{contains-add_to_reverse_map}
use notyetanotherenvoybacken.System.State.{System, IsShared, put_resources, put_addresses}
use notyetanotherenvoybacken.System.Routes.{note_route}

-- One system leads to another that has the same routes and the same maps, and still lists the routes
-- and marks the services that it did. The address store's mutex is free and the manager shared.
pub record Keeps (s t : System) : Type 0 where
  pub free : t.addresses.locked ≡ false
  pub shared : IsShared t
  pub routes : t.resources.routes ≡ s.resources.routes
  pub services : t.addresses.service_map ≡ s.addresses.service_map
  pub workloads : t.addresses.workload_map ≡ s.addresses.workload_map
  pub lists :
      (service_key route_key : String)
      → contains route_key (values_of s.resources.service_to_routes service_key) ≡ true
      → contains route_key (values_of t.resources.service_to_routes service_key) ≡ true
  pub marks :
      (k : String)
      → contains k s.addresses.active_services ≡ true
      → contains k t.addresses.active_services ≡ true

-- another state of the manager changes nothing of that
pub written_manager-Keeps :
    (t : System) (m : Manager)
    → t.addresses.locked ≡ false
    → Keeps t (put_resources t (record t.resources { nginx = m }))
written_manager-Keeps t m free = record {
  free = free;
  shared = refl;
  routes = refl;
  services = refl;
  workloads = refl;
  lists = λ service_key route_key h. h;
  marks = λ k h. h;
}

-- nor does the resource store's mutex
pub Keeps-relock :
    (s t : System) (b c : Bool)
    → Keeps (record s { locked = b }) t
    → Keeps s (record t { locked = c })
Keeps-relock s t b c k = record {
  free = k.free;
  shared = k.shared;
  routes = k.routes;
  services = k.services;
  workloads = k.workloads;
  lists = k.lists;
  marks = k.marks;
}

-- Only upstream files are changed.
abbrev pub SameRest : System → System → Type 0
SameRest s t =
    (f : String)
    → ((key : String) → f ≢ endpoint_file key)
    → lookup f t.resources.nginx.files ≡ lookup f s.resources.nginx.files

pub Keeps-refl : (s : System) → s.addresses.locked ≡ false → IsShared s → Keeps s s
Keeps-refl s free shared = record {
  free = free;
  shared = shared;
  routes = refl;
  services = refl;
  workloads = refl;
  lists = λ service_key route_key h. h;
  marks = λ k h. h;
}

pub Keeps-trans : {s t u : System} → Keeps s t → Keeps t u → Keeps s u
Keeps-trans p q = record {
  free = q.free;
  shared = q.shared;
  routes = q.routes ∙ p.routes;
  services = q.services ∙ p.services;
  workloads = q.workloads ∙ p.workloads;
  lists =
      λ service_key route_key h. q.lists service_key route_key (p.lists service_key route_key h);
  marks = λ k h. q.marks k (p.marks k h);
}

-- The route is listed under the service of a backend that has one, and the service is active.
abbrev pub Tracks : String → RouteBackend → System → Type 0
Tracks route_key b t =
    (backend_to_upstream_name b.backend).0 ≢ ""
    → (contains route_key
          (values_of t.resources.service_to_routes (backend_to_upstream_name b.backend).1)
        ≡ true)
      × (contains (backend_to_upstream_name b.backend).1 t.addresses.active_services ≡ true)

-- so it is for each of these backends
abbrev pub AllTracked : String → List RouteBackend → System → Type 0
AllTracked route_key [] t = Unit
AllTracked route_key (b ∷ bs) t = Tracks route_key b t × AllTracked route_key bs t

pub Keeps-AllTracked :
    (route_key : String) (bs : List RouteBackend) {t u : System}
    → Keeps t u
    → AllTracked route_key bs t
    → AllTracked route_key bs u
Keeps-AllTracked route_key [] k all = tt
Keeps-AllTracked route_key (b ∷ bs) k (tracked, all) = (
  λ named. let (listed, active) = tracked named in (k.lists _ _ listed, k.marks _ active),
  Keeps-AllTracked route_key bs k all,
)

pub SameRest-trans : (s t u : System) → SameRest s t → SameRest t u → SameRest s u
SameRest-trans s t u p q f other = q f other ∙ p f other

module _ (s : System) (route_key key : String) (a : AddressStore) where
  -- both stores when `EnsureUpstreamFile` has left this address store
  abbrev pub after_ensure : System
  after_ensure = put_addresses (note_route key route_key s) a

  pub after_ensure-Keeps :
      {env : Env} {api : WorkloadApi} {r : Bool × Option Error}
      → a.locked ≡ false
      → Ensured env api key s.addresses r a
      → Keeps s after_ensure
  after_ensure-Keeps free v = record {
    free = free;
    shared = refl;
    routes = refl;
    services = v.services;
    workloads = v.workloads;
    lists = λ j k h.
        ground
          (arith, h, contains-add_to_reverse_map s.resources.service_to_routes key route_key j k);
    marks = λ k h. ground (arith, h, v.active k);
  }

  pub after_ensure-SameRest :
      {env : Env} {api : WorkloadApi} {r : Bool × Option Error}
      → IsShared s
      → Ensured env api key s.addresses r a
      → SameRest s after_ensure
  after_ensure-SameRest shared v f other =
      v.others f (other key) ∙ ap (λ m. lookup f m.files) (sym shared)

  pub after_ensure_lists :
      {env : Env} {api : WorkloadApi} {r : Bool × Option Error}
      → Ensured env api key s.addresses r a
      → (contains route_key (values_of after_ensure.resources.service_to_routes key) ≡ true)
        × (contains key after_ensure.addresses.active_services ≡ true)
  after_ensure_lists v = (
    ground (
      arith,
      contains-add_to_reverse_map s.resources.service_to_routes key route_key key route_key,
    ),
    ground (arith, v.active key),
  )
