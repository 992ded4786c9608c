-- ===== src/Address/Config.antt =====
-- address.go: the upstream file of a service, written by `updateServiceConfig`.
use notyetanotherenvoybacken.Common.{
  String, Option, none, some, List, [], ◌∷◌, map, Error, message, lookup, sprintf, join, decimal,
  is_empty, ◌==◌, if◌then◌else◌, nat_eq,
}
use notyetanotherenvoybacken.Net.{addr_string}
use notyetanotherenvoybacken.Nginx.{Env, Manager, write_config, delete_config}
use notyetanotherenvoybacken.Nginx.Directive.{
  Directive, Directives, nil, cons, simple, block, comment, append,
}
use notyetanotherenvoybacken.Nginx.Names.{service_key_to_filename, service_key_to_upstream_name}
use notyetanotherenvoybacken.Address.State.{
  LoadBalancing, WorkloadApi, Service, Workload, WorkloadMap, AddressStore,
}

-- the file of a service, below the configuration path
unfoldable pub endpoint_file : String → String
endpoint_file key = sprintf ("endpoints/" ∷ service_key_to_filename key ∷ [])

-- `server IP:targetPort`
unfoldable pub server_directive : Service → Workload → Directive
server_directive svc w =
    simple "server" (sprintf (addr_string w.address ∷ ":" ∷ decimal svc.target_port ∷ []) ∷ [])

-- The servers of the workloads that the workload map knows; the others are skipped.
unfoldable pub server_directives : WorkloadMap → Service → List String → Directives
server_directives m svc [] = nil
server_directives m svc (uid ∷ uids) = elim (lookup uid m) [
  | none ↦ server_directives m svc uids
  | some w ↦ cons (server_directive svc w) (server_directives m svc uids)
]

module _ (api : WorkloadApi) where
  -- the comment about the application protocol, unless it is unknown
  protocol_comment : Service → Directives
  protocol_comment svc =
      if svc.app_protocol == api.unknown_protocol
      then nil
      else cons (comment (sprintf ("AppProtocol: " ∷ api.protocol_string svc.app_protocol ∷ [])))
          nil

  preferences : LoadBalancing → String
  preferences lb =
      if is_empty lb.routing_preference
      then ""
      else sprintf (
          ", routing_preference=[["
          ∷ join " " (map api.preference_string lb.routing_preference)
          ∷ "]]"
          ∷ [])

  -- the comment about load balancing, if it is set
  balancing_comment : Option LoadBalancing → Directives
  balancing_comment none = nil
  balancing_comment (some lb) =
      cons
        (comment (
          sprintf (
            "LoadBalancing: mode="
            ∷ api.mode_string lb.mode
            ∷ ", health_policy="
            ∷ api.health_policy_string lb.health_policy
            ∷ preferences lb
            ∷ [])))
        nil

  -- the comment about IP families, unless they are automatic
  families_comment : Service → Directives
  families_comment svc =
      if svc.ip_families == api.automatic_families
      then nil
      else cons (comment (sprintf ("IPFamilies: " ∷ api.families_string svc.ip_families ∷ []))) nil

  -- the comments before the servers
  unfoldable pub comment_directives : Service → Directives
  unfolding protocol_comment preferences balancing_comment families_comment
  comment_directives svc =
      append (protocol_comment svc)
        (append (balancing_comment svc.load_balancing) (families_comment svc))

  -- The configuration that a service's file holds when it has these servers.
  unfoldable pub upstream_config : String → Service → Directives → Directives
  upstream_config key svc servers =
      cons
        (block "upstream" (service_key_to_upstream_name key ∷ [])
          (append (comment_directives svc) servers))
        nil

abbrev with_nginx : AddressStore → Option Error × Manager → Option Error × AddressStore
with_nginx a (e, m) = (e, record a { nginx = m })

module _ (env : Env) (api : WorkloadApi) where
  -- with no server, nothing is written and no error is returned
  unfoldable pub write_servers :
      AddressStore → String → Service → Directives → Option Error × AddressStore
  write_servers a key svc nil = (none, a)
  write_servers a key svc (cons d ds) =
      with_nginx a
        (write_config env a.nginx (endpoint_file key) (upstream_config api key svc (cons d ds)))

  -- `updateServiceConfig`
  unfoldable pub update_service_config : AddressStore → String → Option Error × AddressStore
  unfolding write_servers
  update_service_config a key = elim (lookup key a.service_map) [
    | none ↦ (some (message (sprintf ("service " ∷ key ∷ " not found in service map" ∷ []))), a)
    | some svc ↦
        write_servers a key svc (server_directives a.workload_map svc (env.visits svc.workloads))
  ]

-- `deleteServiceConfig`
unfoldable pub delete_service_config : Env → AddressStore → String → Option Error × AddressStore
delete_service_config env a key = with_nginx a (delete_config env a.nginx (endpoint_file key))
