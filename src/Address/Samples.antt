-- ===== src/Address/Samples.antt =====
-- Concrete messages, stores and outsides for the tests.
use mathlib.Core.List.Perm
use notyetanotherenvoybacken.Common.{
  String, none, some, [], ◌∷◌, external, Result, ok, err, ◌==◌, if◌then◌else◌, string_eq, true,
  false,
}
use notyetanotherenvoybacken.Nginx.{Env, Manager}
use notyetanotherenvoybacken.Address.State.{
  PortMessage, WorkloadMessage, AddressMessage, workload_address, Resource, WorkloadApi,
  AddressStore,
}

-- An outside where everything succeeds.
abbrev pub calm : Env
calm = record {
  build = λ config. ok "config";
  write_file = λ n f text. none;
  remove_file = λ n f. none;
  config_test = λ n files. none;
  signal_reload = λ n files. none;
  visits = λ keys. keys;
  visits_perm = Perm.refl;
}

-- The same, but `nginx -t` fails.
abbrev pub broken : Env
broken = record calm { config_test = λ n files. some (external 1, "emerg") }

abbrev pub http : PortMessage
http = record { service_port = 80; target_port = 8080; port_protocol = 1 }

abbrev pub pod : WorkloadMessage
pod = record {
  uid = "//Pod/default/echo-1";
  status = 0;
  addresses = (10 ∷ 0 ∷ 0 ∷ 7 ∷ []) ∷ [];
  services = ("default/echo", http ∷ []) ∷ [];
}

-- the pod without an address
abbrev pub homeless : WorkloadMessage
homeless = record pod { addresses = [] }

-- the pod under another service
abbrev pub moved : WorkloadMessage
moved = record pod { services = ("default/other", http ∷ []) ∷ [] }

abbrev pub decode : String → Result AddressMessage
decode body =
    if body == "pod"
    then ok (workload_address pod)
    else if body == "homeless"
    then ok (workload_address homeless)
    else if body == "moved"
    then ok (workload_address moved)
    else err (external 2)

abbrev pub api : WorkloadApi
api = record {
  unmarshal = decode;
  healthy = 0;
  unknown_protocol = 0;
  automatic_families = 0;
  protocol_string = λ n. "P";
  families_string = λ n. "F";
  mode_string = λ n. "M";
  health_policy_string = λ n. "H";
  preference_string = λ n. "R";
}

abbrev pub nginx : Manager
nginx = record {
  config_path = "/etc/nginx";
  nginx_binary = "/usr/sbin/nginx";
  files = [];
  loaded = none;
  clock = 0;
}

abbrev pub resource : String → Resource
resource body = record { name = body; body = body }

abbrev pub echo : String
echo = "default/echo/80"

-- a route waits for the service
abbrev pub waiting : AddressStore
waiting = record {
  locked = false;
  service_map = [];
  workload_map = [];
  nginx = nginx;
  active_services = echo ∷ [];
  has_callback = true;
}
