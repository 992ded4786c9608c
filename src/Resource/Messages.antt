-- ===== src/Resource/Messages.antt =====
-- resource.go: the messages of the agentgateway API that the resource store reads.
use notyetanotherenvoybacken.Common.{ℕ, String, Option, List}

-- `resourceapi.Bind`
pub record Bind : Type 0 where
  pub key : String
  pub port : ℕ

-- `resourceapi.TLSConfig`
pub record TlsConfig : Type 0 where
  pub cert : String
  pub private_key : String

-- `resourceapi.ListenerName`
pub record ListenerName : Type 0 where
  pub gateway_namespace : String
  pub gateway_name : String
  pub listener_name : String

-- `resourceapi.Listener`
pub record Listener : Type 0 where
  pub key : String
  pub name : Option ListenerName
  pub bind_key : String
  pub hostname : String
  pub protocol : ℕ
  pub tls : Option TlsConfig

-- the oneof of `resourceapi.BackendReference`
pub data BackendKind : Type 0 where
  service_backend : String → String → BackendKind
  other_backend : BackendKind
  no_kind : BackendKind

-- `resourceapi.BackendReference`: the namespace and the hostname of a service, and the port
pub record BackendReference : Type 0 where
  pub kind : BackendKind
  pub port : ℕ

-- `resourceapi.RouteBackend`; the weight is the 32-bit pattern of an int32
pub record RouteBackend : Type 0 where
  pub backend : Option BackendReference
  pub weight : ℕ

-- the oneofs of `resourceapi.HeaderMatch` and of `resourceapi.QueryMatch`
pub data MatchValue : Type 0 where
  exact_value : String → MatchValue
  regex_value : String → MatchValue
  no_value : MatchValue

-- `resourceapi.HeaderMatch`, and `resourceapi.QueryMatch`
pub record NamedMatch : Type 0 where
  pub name : String
  pub value : MatchValue

-- `resourceapi.PathMatch`, a oneof
pub data PathMatch : Type 0 where
  exact_path : String → PathMatch
  path_prefix : String → PathMatch
  regex_path : String → PathMatch
  no_path : PathMatch

-- `resourceapi.RouteMatch`; `method` is the field `Exact` of its method match
pub record RouteMatch : Type 0 where
  pub path : Option PathMatch
  pub method : Option String
  pub headers : List NamedMatch
  pub query_params : List NamedMatch

-- `resourceapi.RouteName`
pub record RouteName : Type 0 where
  pub namespace : String
  pub name : String
  pub kind : String

-- `resourceapi.Route`
pub record Route : Type 0 where
  pub key : String
  pub name : Option RouteName
  pub listener_key : String
  pub hostnames : List String
  pub matches : List RouteMatch
  pub backends : List RouteBackend
