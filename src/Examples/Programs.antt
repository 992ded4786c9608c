-- ===== src/Examples/Programs.antt =====
-- examples/dump/main.go and examples/adsgui/main.go: `main`.
use notyetanotherenvoybacken.Common.{
  ℕ, String, false, Option, none, some, List, [], ◌∷◌, Error, Result, ok, err, ◌>>=◌, returned,
  trim_space,
}
use notyetanotherenvoybacken.Address.State.{AddressMessage}
use notyetanotherenvoybacken.Resource.Removals.{Kind}
use notyetanotherenvoybacken.Debug.{
  DebugStore, new_debug_store, update_addresses, remove_addresses, update_kinds, remove_kinds,
}
use notyetanotherenvoybacken.Client.Setup.{Config, Dialer, new_ads_client}
use notyetanotherenvoybacken.Client.Stream.{
  Handler, Handlers, Ending, waiting, ended, crashed, stuck,
}
use notyetanotherenvoybacken.Client.Start.{Verdicts, Attempt, Loop, start}
use notyetanotherenvoybacken.Examples.Feed.{Codec, Feed, new_feed, shown_handlers}

-- What the programs meet outside: their flags, the token file, and what the libraries and the
-- control plane answer.
pub record World : Type 1 where
  pub endpoint : String
  pub namespace : String
  pub gateway_name : String
  -- `os.ReadFile` of the flag `token-file`
  pub token_file : Result String
  pub dialer : Dialer
  pub verdicts : Verdicts
  pub codec : Codec
  pub rounds : List Attempt

-- How far a program came: it stops with a message and an error, with the handlers' state if the
-- client ran; or the client ended without an error or waits; or a handler panicked or blocks.
pub data Run (S : Type 0) : Type 0 where
  fatal : String → Error → Option S → Run S
  ran : Ending → S → Run S
  lost : Ending → Run S

-- what is said of each error
pub record Messages : Type 0 where
  pub no_token : String
  pub no_client : String
  pub client_failed : String

module _ {S : Type 0} (said : Messages) (world : World) (handlers : Handlers S) where
  unfoldable pub after_client : Ending × Loop S → Run S
  after_client (waiting, l) = ran waiting l.state
  after_client (ended none, l) = ran (ended none) l.state
  after_client (ended (some e), l) = fatal said.client_failed e (some l.state)
  after_client (crashed, l) = lost crashed
  after_client (stuck, l) = lost stuck

  -- the configuration of the client
  abbrev pub client_config : String → Config
  client_config token = record {
    server_address = world.endpoint;
    namespace = world.namespace;
    gateway_name = world.gateway_name;
    name = "";
    token = token;
    initial_reconnect_delay = 0;
    max_reconnect_delay = 0;
    dial_timeout = 0;
  }

  -- the client is made and runs
  unfoldable pub run_client : S → String → Run S
  unfolding after_client
  run_client s token = elim (new_ads_client world.dialer (client_config token)) [
    | err e ↦ fatal said.no_client e none
    | ok c ↦ after_client (start world.verdicts c.node_info c.config handlers world.rounds s)
  ]

  -- the token is read first
  unfoldable pub run_program : S → Run S
  unfolding run_client
  run_program s = elim world.token_file [
    | err e ↦ fatal said.no_token e none
    | ok content ↦ run_client s (trim_space content)
  ]

-- the debug stores of the dump
pub record Stores : Type 0 where
  pub addresses : DebugStore AddressMessage
  pub resources : DebugStore Kind

-- `main` of the dump, less the log: nobody receives from its stores
module _ (world : World) where
  abbrev pub dumped_addresses : Handler Stores
  dumped_addresses = record {
    remove = λ names s. remove_addresses false names s.addresses >>= λ (e, t).
        returned (e, record s { addresses = t });
    update = λ rs s.
        update_addresses world.codec.unmarshal_address false rs s.addresses >>= λ (e, t).
        returned (e, record s { addresses = t });
  }

  abbrev pub dumped_resources : Handler Stores
  dumped_resources = record {
    remove = λ names s.
        remove_kinds false names s.resources >>= λ (e, t). returned (e, record s { resources = t });
    update = λ rs s. update_kinds world.codec.unmarshal_resource false rs s.resources >>= λ (e, t).
        returned (e, record s { resources = t });
  }

  abbrev pub dump_handlers : Handlers Stores
  dump_handlers =
      ("type.googleapis.com/istio.workload.Address", some dumped_addresses)
      ∷ ("type.googleapis.com/agentgateway.dev.resource.Resource", some dumped_resources)
      ∷ []

  unfoldable pub dump_main : Run Stores
  unfolding run_program new_debug_store
  dump_main =
      run_program
        (record {
          no_token = "Failed to read token file";
          no_client = "error initiating the client";
          client_failed = "error running client";
        })
        world dump_handlers (record { addresses = new_debug_store; resources = new_debug_store })

  -- `main` of the screen, beside the program that shows it, which receives this often; it panics with
  -- the error alone
  unfoldable pub gui_main : ℕ → Run Feed
  unfolding run_program new_feed shown_handlers
  gui_main receives =
      run_program (record { no_token = ""; no_client = ""; client_failed = "" }) world
        (shown_handlers world.codec) (new_feed receives)
