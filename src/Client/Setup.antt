-- ===== src/Client/Setup.antt =====
-- client.go: the configuration and `NewADSClient`.
use notyetanotherenvoybacken.Common.{
  ℕ, String, Bool, ◌||◌, Option, none, some, [], ◌∷◌, Dict, Error, message, because, Result, ok,
  err, sprintf, decimal, ◌==◌, if◌then◌else◌, string_eq, nat_eq,
}

-- `Config`, less the handlers, which `AdsClient` has. A `time.Duration` is the 64-bit pattern of
-- its nanoseconds.
pub record Config : Type 0 where
  pub server_address : String
  pub namespace : String
  pub gateway_name : String
  pub name : String
  pub token : String
  pub initial_reconnect_delay : ℕ
  pub max_reconnect_delay : ℕ
  pub dial_timeout : ℕ

-- `core.Node`
pub record Node : Type 0 where
  pub id : String
  pub metadata : Dict String

-- What the libraries answer when the client is set up.
pub record Dialer : Type 0 where
  -- the error of `net.SplitHostPort`
  pub split_host_port : String → Option Error
  -- the error of `structpb.NewStruct`
  pub new_struct : Dict String → Option Error
  -- the error of `grpc.NewClient`
  pub new_client : String → Option Error
  -- `rand.IntN`
  pub int_n : ℕ → ℕ

-- `ADSClient`, less the connection and the handlers
pub record AdsClient : Type 0 where
  pub token : String
  pub node_info : Node
  pub config : Config

abbrev pub second : ℕ
second = 1000000000

-- a default for a duration that is not set
unfoldable pub or_else : ℕ → ℕ → ℕ
or_else d default = if d == 0 then default else d

unfoldable pub with_defaults : Config → Config
unfolding or_else
with_defaults cfg = record cfg {
  initial_reconnect_delay = or_else cfg.initial_reconnect_delay 1000000000;
  max_reconnect_delay = or_else cfg.max_reconnect_delay 30000000000;
  dial_timeout = or_else cfg.dial_timeout 10000000000;
}

abbrev pub role_name : Config → String
role_name cfg = sprintf (cfg.namespace ∷ "~" ∷ cfg.gateway_name ∷ [])

abbrev pub metadata_of : Config → Dict String
metadata_of cfg =
    ("NAMESPACE", cfg.namespace)
    ∷ ("GATEWAY", cfg.gateway_name)
    ∷ ("NAME", cfg.name)
    ∷ ("role", role_name cfg)
    ∷ []

abbrev pub node_name : Config → String
node_name cfg = sprintf (
    "agentgateway~" ∷ cfg.name ∷ "~" ∷ cfg.name ∷ "." ∷ cfg.namespace ∷ "~" ∷ cfg.namespace
    ∷ ".svc.cluster.local" ∷ [])

abbrev pub lacks_required : Config → Bool
lacks_required cfg =
    cfg.namespace == "" || cfg.gateway_name == "" || cfg.token == "" || cfg.server_address == ""

abbrev pub client_of : Config → AdsClient
client_of cfg = record {
  token = cfg.token;
  node_info = record { id = node_name cfg; metadata = metadata_of cfg };
  config = cfg;
}

module _ (dialer : Dialer) where
  -- a random name, if none is set
  unfoldable pub with_name : Config → Config
  with_name cfg = record cfg {
    name =
        if cfg.name == ""
        then sprintf (cfg.gateway_name ∷ "-" ∷ decimal (dialer.int_n 1000000) ∷ [])
        else cfg.name;
  }

  unfoldable pub dial : Config → Result AdsClient
  dial cfg = elim (dialer.new_client cfg.server_address) [
    | some e ↦ err (because "error dialing xDS server" e)
    | none ↦ ok (client_of cfg)
  ]

  unfoldable pub describe : Config → Result AdsClient
  unfolding dial
  describe cfg = elim (dialer.new_struct (metadata_of cfg)) [
    | some e ↦ err (because "failed to create client metadata" e)
    | none ↦ dial cfg
  ]

  unfoldable pub check_address : Config → Result AdsClient
  unfolding describe with_name with_defaults
  check_address cfg = elim (dialer.split_host_port cfg.server_address) [
    | some e ↦ err (because "invalid server address" e)
    | none ↦ describe (with_name (with_defaults cfg))
  ]

  -- `NewADSClient`
  unfoldable pub new_ads_client : Config → Result AdsClient
  unfolding check_address
  new_ads_client cfg =
      if lacks_required cfg
      then err (message "serveraddress, namespace, gatewayname and token are required")
      else check_address cfg
