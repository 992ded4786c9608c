-- ===== src/Client/Tests.antt =====
-- The client on concrete streams, and the theorems at inputs that meet their hypotheses.
use notyetanotherenvoybacken.Common.{
  ℕ, String, false, ◌≡◌, refl, Option, none, some, List, [], ◌∷◌, ◌++◌, map, Error, external,
  because, ok, returned, arith, lookup, string_dec, ℕ_discrete,
}
use notyetanotherenvoybacken.Client.Setup.{Config, Node, AdsClient, Dialer, new_ads_client}
use notyetanotherenvoybacken.Client.Stream.{
  Response, Handler, Handlers, Turn, failed, received, Connection, Ending, ended, ack, subscription,
  call_handler, subscribe, receive_loop, run_stream,
}
use notyetanotherenvoybacken.Client.Start.{
  Verdicts, Attempt, Loop, next_delay, is_permanent_error, one_attempt, attempts, start,
}
use notyetanotherenvoybacken.Client.Answers.{
  Stop, Ran, run_stream-Ran, run_stream-ids, request_id, response_id,
}
use notyetanotherenvoybacken.Client.Backoff.{Waited, start-Waited}
use notyetanotherenvoybacken.Client.Endings.{Live, one_more, no_more, Justified, start-Justified}
use notyetanotherenvoybacken.Client.Ready.{Ready, new_ads_client-Ready}

abbrev config : Config
config = record {
  server_address = "agentgateway:9978";
  namespace = "default";
  gateway_name = "gw";
  name = "";
  token = "t";
  initial_reconnect_delay = 1000000000;
  max_reconnect_delay = 3000000000;
  dial_timeout = 0;
}

abbrev dialer : Dialer
dialer = record {
  split_host_port = λ a. none;
  new_struct = λ m. none;
  new_client = λ a. none;
  int_n = λ n. 42;
}

abbrev node : Node
node = record { id = "agentgateway~gw-42~gw-42.default~default.svc.cluster.local"; metadata = [] }

new_ads_client-Ready_example :
    (c : AdsClient) × (new_ads_client dialer config ≡ ok c) × Ready config c
unfolding string_dec
new_ads_client-Ready_example = new_ads_client-Ready dialer config refl refl (λ m. refl) refl

-- A handler that keeps the names it was given, and refuses to remove anything.
abbrev keeper : Handler (List String)
keeper = record {
  remove = λ names s. returned (some (external 5), s);
  update = λ resources s. returned (none, map (λ r. r.name) resources ++ s);
}

abbrev handlers : Handlers (List String)
handlers = ("Address", some keeper) ∷ []

abbrev added : Response
added = record {
  type_url = "Address";
  nonce = "n1";
  resources = record { name = "pod"; body = "" } ∷ [];
  removed_resources = [];
}

abbrev removed : Response
removed = record {
  type_url = "Address";
  nonce = "n2";
  resources = [];
  removed_resources = "pod" ∷ [];
}

abbrev other : Response
other = record { type_url = "Other"; nonce = "n3"; resources = []; removed_resources = [] }

abbrev stream : List Turn → Connection
stream turns = record { opening = none; send = λ n. none; turns = turns; visits = λ keys. keys }

abbrev busy : Connection
busy = stream (received added ∷ received removed ∷ received other ∷ [])

busy_sent :
    (run_stream node busy handlers []).1.sent
    ≡ subscription node "Address"
      ∷ ack node added none
      ∷ ack node removed (some (external 5))
      ∷ ack node other none
      ∷ []
unfolding run_stream subscribe receive_loop lookup string_dec call_handler
busy_sent = refl

run_stream-Ran_example :
    Ran node handlers busy.turns
      (record { sent = map (subscription node) ("Address" ∷ []); state = [] })
      (run_stream node busy handlers [])
run_stream-Ran_example = run_stream-Ran node busy handlers (λ n. refl) [] refl

run_stream-ids_example :
    (rs : List Response) × (rest : List Turn) × (busy.turns ≡ map received rs ++ rest)
    × (map request_id (run_stream node busy handlers []).1.sent
        ≡ map request_id (map (subscription node) ("Address" ∷ [])) ++ map response_id rs)
    × Stop handlers
        (run_stream node busy handlers []).1.state
        rest
        (run_stream node busy handlers []).0
run_stream-ids_example = run_stream-ids node busy handlers [] refl (λ n. refl)

-- the number of a library's error, below the texts that wrap it
abbrev code_of : Error → Option ℕ
code_of (external n) = some n
code_of (because why e) = code_of e
code_of _ = none

abbrev verdicts : Verdicts
verdicts = record { status_code = code_of; is_context_error = λ e. false }

abbrev broken : ℕ → Attempt
broken n = record {
  before = none;
  during_delay = none;
  connection = stream (failed (external n) ∷ []);
  after = none;
}

-- five streams break, the last one for good
abbrev rounds : List Attempt
rounds = broken 14 ∷ broken 14 ∷ broken 14 ∷ broken 14 ∷ broken 16 ∷ []

abbrev end : Ending × Loop (List String)
end = start verdicts node config handlers rounds []

end_waited : end.1.waited ≡ 1000000000 ∷ 2000000000 ∷ 3000000000 ∷ 3000000000 ∷ []
unfolding start one_attempt attempts next_delay is_permanent_error run_stream subscribe receive_loop
    ℕ_discrete
end_waited = refl

start-Waited_example : Waited config end.1
start-Waited_example =
    start-Waited verdicts node config handlers rounds [] (omega arith) (omega arith)

end_error : end.0 ≡ ended (some (because "stream recv error" (external 16)))
unfolding start one_attempt attempts next_delay is_permanent_error run_stream subscribe receive_loop
    ℕ_discrete
end_error = refl

rounds-Live : Live rounds
rounds-Live = one_more refl refl refl (
    one_more refl refl refl
      (one_more refl refl refl (one_more refl refl refl (one_more refl refl refl no_more))))

start-Justified_example : Justified verdicts end.0
start-Justified_example = start-Justified verdicts node config handlers rounds [] rounds-Live
