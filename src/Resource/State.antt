-- ===== src/Resource/State.antt =====
-- resource.go: the state of `ResourceStore`, with its reverse lookups.
use notyetanotherenvoybacken.Common.{
  ℕ, String, Option, none, some, List, [], ◌∷◌, ◌++◌, Dict, lookup, insert, erase, contains,
  is_empty, ◌==◌, if◌then◌else◌, string_eq,
}
use notyetanotherenvoybacken.Nginx.{Manager}
pub use notyetanotherenvoybacken.Resource.Messages.{
  Bind, TlsConfig, ListenerName, Listener, BackendKind, service_backend, other_backend, no_kind,
  BackendReference, RouteBackend, Route,
}

-- `ServerFileConfig`
pub record ServerFileConfig : Type 0 where
  pub listener_key : String
  pub hostname : String
  pub port : ℕ
  pub protocol : ℕ
  pub tls_config : Option TlsConfig
  pub route_keys : List String

-- a reverse lookup
abbrev pub ReverseMap : Type 0
ReverseMap = Dict (List String)

-- `ResourceStore`, less the mutex and the address store
pub record ResourceStore : Type 0 where
  pub binds : Dict Bind
  pub listeners : Dict Listener
  pub routes : Dict Route
  pub bind_to_listeners : ReverseMap
  pub listener_to_routes : ReverseMap
  pub service_to_routes : ReverseMap
  pub server_files : Dict ServerFileConfig
  pub nginx : Manager

-- `NewResourceStore`, less the callback that it sets
unfoldable pub new_resource_store : Manager → ResourceStore
new_resource_store nginx = record {
  binds = [];
  listeners = [];
  routes = [];
  bind_to_listeners = [];
  listener_to_routes = [];
  service_to_routes = [];
  server_files = [];
  nginx = nginx;
}

-- the values under a key; a missing key has none
unfoldable pub values_of : ReverseMap → String → List String
values_of m key = elim (lookup key m) [ none ↦ [] | some vs ↦ vs ]

-- `addToReverseMap`
unfoldable pub add_to_reverse_map : ReverseMap → String → String → ReverseMap
add_to_reverse_map m key value =
    if contains value (values_of m key) then m else insert key (values_of m key ++ (value ∷ [])) m

unfoldable pub remove_first : String → List String → List String
remove_first value [] = []
remove_first value (v ∷ vs) =
    let rest = remove_first value vs in if v == value then vs else v ∷ rest

-- `removeFromReverseMap`
unfoldable pub remove_from_reverse_map : ReverseMap → String → String → ReverseMap
unfolding remove_first
remove_from_reverse_map m key value =
    let rest = remove_first value (values_of m key) in
    if is_empty rest then erase key m else insert key rest m
