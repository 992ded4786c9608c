-- ===== src/Backend/Tests.antt =====
-- The client and the address store together, where NGINX refuses the configuration.
use notyetanotherenvoybacken.Common.{
  String, ok, false, ◌≡◌, refl, none, some, [], ◌∷◌, Error, external, with_output, Outcome,
  returned, lookup, insert, contains, add, add_all, decimal, join, replace_all, string_dec,
  ℕ_discrete,
}
use notyetanotherenvoybacken.Net.{addr_from_slice, addr_string}
use notyetanotherenvoybacken.Nginx.{write_config, reload}
use notyetanotherenvoybacken.Nginx.Names.{service_key_to_filename, service_key_to_upstream_name}
use notyetanotherenvoybacken.Address.State.{is_pod, get_workload_ips}
use notyetanotherenvoybacken.Address.Workloads.{
  workload_service_key, create_workload, update_workload, add_port, add_ports, add_services,
}
use notyetanotherenvoybacken.Address.Config.{
  endpoint_file, server_directive, server_directives, comment_directives, upstream_config,
  update_service_config,
}
use notyetanotherenvoybacken.Address.Update.{
  Updated, services_of, note_services, after_update, process_workload, process_address,
  process_resources, refresh_one, refresh, reload_if, finish_update, conclude, update,
}
use notyetanotherenvoybacken.Address.Samples.{broken, api, resource, waiting}
use notyetanotherenvoybacken.Client.Setup.{Node}
use notyetanotherenvoybacken.Client.Stream.{
  Response, Handlers, received, eof, Connection, Session, stuck, ack, receive_loop,
}
use notyetanotherenvoybacken.System.State.{Outside, System, put_addresses}
use notyetanotherenvoybacken.System.Samples.{outside, hopeful}
use notyetanotherenvoybacken.Backend.{resource_handler_store, failed_update_sticks}
use notyetanotherenvoybacken.Backend.Main.{World, main}
use notyetanotherenvoybacken.Backend.Runs.{LeavesSound, main-LeavesSound}

abbrev result : Outcome Updated → Updated
result (returned u) = u
result _ = record { error = none; store = waiting; notified = [] }

abbrev failed : Updated
failed = result (update broken api waiting (resource "pod" ∷ []))

abbrev emerg : Error
emerg = with_output "nginx config test failed" (external 1) "emerg"

failed_error : failed.error ≡ some emerg
unfolding update process_resources process_address process_workload update_workload create_workload
    add_services add_ports add_port after_update note_services services_of conclude refresh
    refresh_one update_service_config server_directives server_directive upstream_config
    comment_directives endpoint_file service_key_to_filename service_key_to_upstream_name
    workload_service_key reload_if reload write_config finish_update lookup insert contains add
    add_all decimal join replace_all addr_string addr_from_slice get_workload_ips is_pod string_dec
    ℕ_discrete
failed_error = refl

failed_returns : update broken api waiting (resource "pod" ∷ []) ≡ returned failed
unfolding update process_resources process_address process_workload update_workload create_workload
    add_services add_ports add_port after_update note_services services_of conclude refresh
    refresh_one update_service_config server_directives server_directive upstream_config
    comment_directives endpoint_file service_key_to_filename service_key_to_upstream_name
    workload_service_key reload_if reload write_config finish_update lookup insert contains add
    add_all decimal join replace_all addr_string addr_from_slice get_workload_ips is_pod string_dec
    ℕ_discrete
failed_returns = refl

-- NGINX refuses the configuration
abbrev refusing : Outside
refusing = record outside { env = broken }

abbrev handlers : Handlers System
handlers = resource_handler_store refusing

-- a route waits for the service of the pod
abbrev before : Session System
before = record { sent = []; state = hopeful }

abbrev added : String → Response
added nonce = record {
  type_url = "type.googleapis.com/istio.workload.Address";
  nonce = nonce;
  resources = resource "pod" ∷ [];
  removed_resources = [];
}

abbrev node : Node
node = record { id = "n"; metadata = [] }

abbrev stream : Connection
stream = record { opening = none; send = λ n. none; turns = []; visits = λ keys. keys }

failed_update_sticks_example :
    receive_loop node stream handlers
      (received (added "1") ∷ received (added "2") ∷ eof ∷ [])
      before
    ≡ (
      stuck,
      record {
        sent = ack node (added "1") (some emerg) ∷ [];
        state = put_addresses hopeful failed.store;
      },
    )
unfolding resource_handler_store lookup string_dec
failed_update_sticks_example =
    failed_update_sticks refusing node stream handlers before (added "1") (added "2") (eof ∷ [])
      failed emerg refl refl refl refl refl refl failed_returns failed_error

-- everything that the program meets goes well, and a pod comes
abbrev lucky : World
lucky = record {
  endpoint = "127.0.0.1:9978";
  token_file = ok "token";
  parse_unverified = λ token.
      ok (record { audience = "agentgateway" ∷ []; namespace = "default"; service_account = "gw" });
  host = record {
    mkdir_all = λ path. none;
    config_test = λ binary. none;
    start_command = λ binary. none;
    process_state = λ binary. none;
  };
  dialer = record {
    split_host_port = λ address. none;
    new_struct = λ fields. none;
    new_client = λ address. none;
    int_n = λ n. 7;
  };
  verdicts = record { status_code = λ e. none; is_context_error = λ e. false };
  outside = outside;
  rounds =
      record {
        before = none;
        during_delay = none;
        connection = record stream { turns = received (added "1") ∷ [] };
        after = none;
      }
      ∷ [];
}

main-LeavesSound_example : LeavesSound (main lucky)
main-LeavesSound_example = main-LeavesSound lucky
