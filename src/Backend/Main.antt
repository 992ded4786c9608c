-- ===== src/Backend/Main.antt =====
-- nginxbackend/main.go: the function `main`, with the parts that it sets up and runs.
use notyetanotherenvoybacken.Common.{
  String, Option, none, some, List, Error, Outcome, returned, panicked, blocked, Result, ok, err,
  trim_space,
}
use notyetanotherenvoybacken.Nginx.{Manager}
use notyetanotherenvoybacken.Nginx.Start.{Host, new_manager, start_nginx}
use notyetanotherenvoybacken.Token.{Claims, gateway_and_namespace_from_jwt}
use notyetanotherenvoybacken.Client.Setup.{Config, Dialer, new_ads_client}
use notyetanotherenvoybacken.Client.Stream.{Ending, waiting, ended, crashed, stuck}
use notyetanotherenvoybacken.Client.Start.{Verdicts, Attempt, Loop, start}
use notyetanotherenvoybacken.System.State.{Outside, System, new_system}
use notyetanotherenvoybacken.Backend.{resource_handler_store}

-- What `main` meets outside: the flags, the token file, and what the libraries, the operating system
-- and the control plane answer.
pub record World : Type 1 where
  -- the flag `endpoint`
  pub endpoint : String
  -- `os.ReadFile` of the flag `token-file`
  pub token_file : Result String
  pub parse_unverified : String → Result Claims
  pub host : Host
  pub dialer : Dialer
  pub verdicts : Verdicts
  pub outside : Outside
  pub rounds : List Attempt

-- How far `main` came: it exits with a message and an error, with the stores if the client ran; or
-- the client ended without an error or waits, with the stores as it left them; or one of its handlers
-- panicked or blocks, somewhere in its work on the stores; or the stores could not be made.
pub data Run : Type 0 where
  fatal : String → Error → Option System → Run
  ran : Ending → System → Run
  lost : Ending → Run
  no_stores : Run

-- the configuration of the client
abbrev pub client_config : String → String → String → String → Config
client_config endpoint namespace gateway_name token = record {
  server_address = endpoint;
  namespace = namespace;
  gateway_name = gateway_name;
  name = "";
  token = token;
  initial_reconnect_delay = 0;
  max_reconnect_delay = 0;
  dial_timeout = 0;
}

-- what `main` makes of the end of the client
unfoldable pub after_client : Ending × Loop System → Run
after_client (waiting, l) = ran waiting l.state
after_client (ended none, l) = ran (ended none) l.state
after_client (ended (some e), l) = fatal "error running client" e (some l.state)
after_client (crashed, l) = lost crashed
after_client (stuck, l) = lost stuck

module _ (world : World) where
  -- the client is made and runs on the two stores
  unfoldable pub run_client : System → Config → Run
  unfolding after_client
  run_client s config = elim (new_ads_client world.dialer config) [
    | err e ↦ fatal "error initiating the client" e none
    | ok c ↦ after_client (
        start world.verdicts c.node_info c.config (resource_handler_store world.outside)
          world.rounds s)
  ]

  -- the stores of the manager
  unfoldable pub make_stores : Config → Outcome System → Run
  unfolding run_client
  make_stores config (returned s) = run_client s config
  make_stores config panicked = no_stores
  make_stores config blocked = no_stores

  -- NGINX starts before the stores are made
  unfoldable pub run_manager : Config → Manager → Run
  unfolding make_stores
  run_manager config m = elim (start_nginx world.host m) [
    | some e ↦ fatal "Failed to start NGINX" e none
    | none ↦ make_stores config (new_system m)
  ]

  unfoldable pub with_names : String → String × String → Run
  unfolding run_manager
  with_names content (gateway_name, namespace) = elim (new_manager world.host "" "").1 [
    | err e ↦ fatal "Failed to create NGINX manager" e none
    | ok m ↦
        run_manager (client_config world.endpoint namespace gateway_name (trim_space content)) m
  ]

  unfoldable pub with_token : String → Run
  unfolding with_names
  with_token content = elim (gateway_and_namespace_from_jwt world.parse_unverified content) [
    | err e ↦ fatal "Failed to decode the service token" e none
    | ok names ↦ with_names content names
  ]

  -- `main`, less the probe server and the log
  unfoldable pub main : Run
  unfolding with_token
  main = elim world.token_file [
    | err e ↦ fatal "Failed to read token file" e none
    | ok content ↦ with_token content
  ]
