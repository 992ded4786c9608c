-- ===== src/Address/State.antt =====
-- The messages of istio's workloadapi that address.go reads, and the state of `AddressStore`.
use text.Mathlib.Text.{starts_with}
use notyetanotherenvoybacken.Common.{
  ℕ, String, Bool, false, Option, none, some, List, [], ◌∷◌, Dict, Set, Result, lookup, contains,
}
use notyetanotherenvoybacken.Net.{Addr, addr_from_slice}
use notyetanotherenvoybacken.Nginx.{Manager}

-- `workloadapi.Port`
pub record PortMessage : Type 0 where
  pub service_port : ℕ
  pub target_port : ℕ
  pub port_protocol : ℕ

-- `workloadapi.LoadBalancing`; enumerations are their numbers
pub record LoadBalancing : Type 0 where
  pub mode : ℕ
  pub health_policy : ℕ
  pub routing_preference : List ℕ

-- `workloadapi.Workload`; `services` is a protobuf map, in any order
pub record WorkloadMessage : Type 0 where
  pub uid : String
  pub status : ℕ
  pub addresses : List (List ℕ)
  pub services : Dict (List PortMessage)

-- `workloadapi.Service`
pub record ServiceMessage : Type 0 where
  pub name : String
  pub namespace : String
  pub ports : List PortMessage
  pub load_balancing : Option LoadBalancing
  pub ip_families : ℕ

-- `workloadapi.Address`, a oneof
pub data AddressMessage : Type 0 where
  workload_address : WorkloadMessage → AddressMessage
  service_address : ServiceMessage → AddressMessage
  no_address : AddressMessage

-- `discovery.Resource`: its name, and the bytes of its `Any`
pub record Resource : Type 0 where
  pub name : String
  pub body : String

-- What the generated code of workloadapi provides.
pub record WorkloadApi : Type 0 where
  -- `anypb.UnmarshalTo` into an `Address`
  pub unmarshal : String → Result AddressMessage
  pub healthy : ℕ
  pub unknown_protocol : ℕ
  pub automatic_families : ℕ
  pub protocol_string : ℕ → String
  pub families_string : ℕ → String
  pub mode_string : ℕ → String
  pub health_policy_string : ℕ → String
  pub preference_string : ℕ → String

-- `Service`
pub record Service : Type 0 where
  pub port : ℕ
  pub target_port : ℕ
  pub app_protocol : ℕ
  pub load_balancing : Option LoadBalancing
  pub ip_families : ℕ
  pub workloads : Set

-- `ServiceMap`
abbrev pub ServiceMap : Type 0
ServiceMap = Dict Service

-- `Workload`
pub record Workload : Type 0 where
  pub address : Addr
  pub services : Set

-- `WorkloadMap`
abbrev pub WorkloadMap : Type 0
WorkloadMap = Dict Workload

-- `AddressStore`. The manager is the object that both stores point to. `locked` is the mutex, and
-- `has_callback` tells whether the callback is set.
pub record AddressStore : Type 0 where
  pub locked : Bool
  pub service_map : ServiceMap
  pub workload_map : WorkloadMap
  pub nginx : Manager
  pub active_services : Set
  pub has_callback : Bool

-- `NewAddressStore`
unfoldable pub new_address_store : Manager → AddressStore
new_address_store nginx = record {
  locked = false;
  service_map = [];
  workload_map = [];
  nginx = nginx;
  active_services = [];
  has_callback = false;
}

-- `isPod` of utils.go
unfoldable pub is_pod : String → Bool
is_pod name = starts_with name "//Pod"

-- `getWorkloadIPs` of utils.go
unfoldable pub get_workload_ips : List (List ℕ) → List Addr
get_workload_ips [] = []
get_workload_ips (bytes ∷ rest) = elim (addr_from_slice bytes) [
  | some ip ↦ ip ∷ get_workload_ips rest
  | none ↦ get_workload_ips rest
]

-- Whether the workload is recorded with that service.
unfoldable pub serves : WorkloadMap → String → String → Bool
serves m uid key = elim (lookup uid m) [ none ↦ false | some w ↦ contains key w.services ]

-- Whether the service is recorded with that workload.
unfoldable pub lists : ServiceMap → String → String → Bool
lists m key uid = elim (lookup key m) [ none ↦ false | some s ↦ contains uid s.workloads ]
