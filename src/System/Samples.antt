-- ===== src/System/Samples.antt =====
-- Concrete messages and stores for the tests of both stores.
use Prim.Native.String.{◌++◌}
use notyetanotherenvoybacken.Common.{
  String, none, some, [], ◌∷◌, ◌+◌, ◌*◌, ◌/◌, ◌%◌, ℕ, Result, ok, err, external, decimal, ◌==◌,
  if◌then◌else◌, string_eq, false, true, ◌≡◌, refl, returned,
}
use notyetanotherenvoybacken.Address.Samples.{calm, api, nginx, waiting}
use notyetanotherenvoybacken.Address.State.{new_address_store}
use notyetanotherenvoybacken.Address.Locked.{with_lock, set_service_available_callback}
use notyetanotherenvoybacken.Resource.State.{new_resource_store}
use notyetanotherenvoybacken.Resource.Messages.{
  service_backend, RouteBackend, RouteMatch, exact_value, path_prefix, Route,
}
use notyetanotherenvoybacken.Resource.Removals.{Kind, route_kind}
use notyetanotherenvoybacken.Resource.Weights.{Float64}
use notyetanotherenvoybacken.System.State.{Outside, System, new_system, connect_stores}

-- numbers in ten-thousandths
abbrev pub fixed : Float64
fixed = record {
  number = ℕ;
  zero = 0;
  hundred = 100;
  of_int32 = λ w. w;
  plus = λ a b. a + b;
  times = λ a b. a * b;
  divided = λ a b. a * 10000 / b;
  two_decimals =
      λ x. decimal (x / 10000) ++ "." ++ decimal (x / 1000 % 10) ++ decimal (x / 100 % 10);
}

-- the service echo of the namespace default
abbrev pub echo_backend : RouteBackend
echo_backend = record {
  backend = some (record { kind = service_backend "default" "echo"; port = 80 });
  weight = 0;
}

-- GET with a header
abbrev pub get : RouteMatch
get = record {
  path = some (path_prefix "/api");
  method = some "GET";
  headers = record { name = "X-Env"; value = exact_value "prod" } ∷ [];
  query_params = [];
}

abbrev pub echo_route : Route
echo_route = record {
  key = "default/echo.0";
  name = none;
  listener_key = "default/gw.http";
  hostnames = [];
  matches = get ∷ [];
  backends = echo_backend ∷ [];
}

abbrev pub decode : String → Result Kind
decode body = if body == "echo" then ok (route_kind echo_route) else err (external 0)

abbrev pub outside : Outside
outside = record { env = calm; workloads = api; unmarshal = decode; https = 1; float64 = fixed }

-- the route waits for its service
abbrev pub hopeful : System
hopeful = record {
  locked = false;
  resources = record {
    binds = [];
    listeners = [];
    routes = ("default/echo.0", echo_route) ∷ [];
    bind_to_listeners = [];
    listener_to_routes = ("default/gw.http", "default/echo.0" ∷ []) ∷ [];
    service_to_routes = ("default/echo/80", "default/echo.0" ∷ []) ∷ [];
    server_files = [];
    nginx = nginx;
  };
  addresses = waiting;
}

-- the stores of a new manager
abbrev pub fresh : System
fresh = record {
  locked = false;
  resources = new_resource_store nginx;
  addresses = record (new_address_store nginx) { has_callback = true };
}

pub fresh_made : new_system nginx ≡ returned fresh
unfolding new_system connect_stores set_service_available_callback with_lock new_address_store
fresh_made = refl
