-- ===== src/Client/Stream.antt =====
-- client.go: one stream, `runStream` and `sendAck`.
use notyetanotherenvoybacken.Common.{
  ℕ, String, Option, none, some, List, [], ◌∷◌, ◌++◌, Dict, Error, message, because, Outcome,
  returned, panicked, blocked, lookup, sprintf, is_empty, length, map, if◌then◌else◌,
}
use notyetanotherenvoybacken.Address.State.{Resource}
use notyetanotherenvoybacken.Client.Setup.{Node}

-- `discovery.DeltaDiscoveryResponse`, as far as the client reads it
pub record Response : Type 0 where
  pub type_url : String
  pub nonce : String
  pub resources : List Resource
  pub removed_resources : List String

-- the error detail of a request: the message is `handler error: ` and the error
pub record Detail : Type 0 where
  pub code : ℕ
  pub cause : Error

-- `discovery.DeltaDiscoveryRequest`
pub record Request : Type 0 where
  pub node : Node
  pub type_url : String
  pub response_nonce : String
  pub error_detail : Option Detail

-- `ResourceTypeHandler`, on the state that the handlers share
pub record Handler {ℓ} (S : Type ℓ) : Type ℓ where
  pub remove : List String → S → Outcome (Option Error × S)
  pub update : List Resource → S → Outcome (Option Error × S)

-- `ResourceTypeStore`; a nil handler is none
abbrev pub Handlers {ℓ} : Type ℓ → Type ℓ
Handlers S = Dict (Option (Handler S))

-- What a round of the receive loop meets: the context is done, the stream ends, it fails, or a
-- response arrives.
pub data Turn : Type 0 where
  done : Error → Turn
  eof : Turn
  failed : Error → Turn
  received : Response → Turn

-- What the gRPC library answers on one stream.
pub record Connection : Type 0 where
  -- the error of `DeltaAggregatedResources`
  pub opening : Option Error
  -- the error of the `Send` that comes after so many others
  pub send : ℕ → Option Error
  pub turns : List Turn
  -- the order in which `range` visits the keys of the handlers
  pub visits : List String → List String

-- The requests handed to `Send`, in order, and the handlers' state.
pub record Session {ℓ} (S : Type ℓ) : Type ℓ where
  pub sent : List Request
  pub state : S

-- How far `runStream` came: it waits for the next turn, it returned, or a handler panicked or
-- blocked. A session that crashed or is stuck has the state in which that handler was called: what
-- the handler did to it since is not told.
pub data Ending : Type 0 where
  waiting : Ending
  ended : Option Error → Ending
  crashed : Ending
  stuck : Ending

-- `codes.Internal`
abbrev pub internal : ℕ
internal = 13

abbrev pub detail_of : Option Error → Option Detail
detail_of none = none
detail_of (some e) = some (record { code = internal; cause = e })

-- the request that `sendAck` sends: an ACK, or a NACK if there is an error
unfoldable pub ack : Node → Response → Option Error → Request
ack node resp handler_err = record {
  node = node;
  type_url = resp.type_url;
  response_nonce = resp.nonce;
  error_detail = detail_of handler_err;
}

abbrev pub subscription : Node → String → Request
subscription node res_type = record {
  node = node;
  type_url = res_type;
  response_nonce = "";
  error_detail = none;
}

module _ {ℓ} {S : Type ℓ} (h : Handler S) where
  -- the updates, which a failed removal leaves out
  unfoldable pub process_updates : Response → Option Error × S → Outcome (Option Error × S)
  process_updates resp (some e, s) = returned (some e, s)
  process_updates resp (none, s) =
      if is_empty resp.resources then returned (none, s) else h.update resp.resources s

  unfoldable pub after_removals : Response → Outcome (Option Error × S) → Outcome (Option Error × S)
  unfolding process_updates
  after_removals resp (returned r) = process_updates resp r
  after_removals resp panicked = panicked
  after_removals resp blocked = blocked

  -- the removals, then the updates
  unfoldable pub call_handler : Response → S → Outcome (Option Error × S)
  unfolding after_removals
  call_handler resp s = after_removals resp (
      if is_empty resp.removed_resources
      then returned (none, s)
      else h.remove resp.removed_resources s)

module _ {ℓ} {S : Type ℓ} (node : Node) (conn : Connection) where
  -- the loop that subscribes to each type
  unfoldable pub subscribe : List String → Session S → Option Error × Session S
  subscribe [] s = (none, s)
  subscribe (res_type ∷ rest) s = elim (conn.send (length s.sent)) [
    | some e ↦ (
      some (because (sprintf ("error subscribing to " ∷ res_type ∷ [])) e),
      record s { sent = s.sent ++ (subscription node res_type ∷ []) },
    )
    | none ↦ subscribe rest (record s { sent = s.sent ++ (subscription node res_type ∷ []) })
  ]

-- What a round of the loop comes to.
pub data Round {ℓ} (S : Type ℓ) : Type ℓ where
  goes_on : Session S → Round S
  stops : Ending → Session S → Round S

abbrev pub push {ℓ} : {S : Type ℓ} → Request → Session S → Session S
push req s = record s { sent = s.sent ++ (req ∷ []) }

module _ {ℓ} {S : Type ℓ} (node : Node) (conn : Connection) (handlers : Handlers S) where
  -- `sendAck`, with the text that wraps its error
  unfoldable pub send_ack : String → Response → Option Error → Session S → Round S
  send_ack why resp handler_err s = elim (conn.send (length s.sent)) [
    | none ↦ goes_on (push (ack node resp handler_err) s)
    | some e ↦ stops (ended (some (because why e))) (push (ack node resp handler_err) s)
  ]

  unfoldable pub after_call : Response → Session S → Outcome (Option Error × S) → Round S
  unfolding send_ack
  after_call resp s (returned (e, st)) =
      send_ack "failed to send ACK/NACK" resp e (record s { state = st })
  after_call resp s panicked = stops crashed s
  after_call resp s blocked = stops stuck s

  -- by the handler of the response's type, if there is one
  unfoldable pub dispatch : Response → Session S → Option (Option (Handler S)) → Round S
  unfolding send_ack after_call
  dispatch resp s none = send_ack "failed to send ACK for unknown type" resp none s
  dispatch resp s (some none) =
      stops
        (ended (
          some (
            message
              (sprintf ("handler for typeURL " ∷ resp.type_url ∷ " is nil, THIS IS A BUG" ∷ [])))))
        s
  dispatch resp s (some (some h)) = after_call resp s (call_handler h resp s.state)

  -- the body of the receive loop
  unfoldable pub receive_one : Turn → Session S → Round S
  unfolding dispatch
  receive_one (done e) s = stops (ended (some e)) s
  receive_one eof s = stops (ended none) s
  receive_one (failed e) s = stops (ended (some (because "stream recv error" e))) s
  receive_one (received resp) s = dispatch resp s (lookup resp.type_url handlers)

  -- the receive loop, on the turns it has
  unfoldable pub receive_loop : List Turn → Session S → Ending × Session S
  unfolding receive_one
  receive_loop [] s = (waiting, s)
  receive_loop (turn ∷ turns) s = elim (receive_one turn s) [
    | goes_on s' ↦ receive_loop turns s'
    | stops ending s' ↦ (ending, s')
  ]

  unfoldable pub after_subscribe : Option Error × Session S → Ending × Session S
  unfolding receive_loop
  after_subscribe (some e, s) = (ended (some e), s)
  after_subscribe (none, s) = receive_loop conn.turns s

  -- `runStream`, on the state of the handlers
  unfoldable pub run_stream : S → Ending × Session S
  unfolding after_subscribe
  run_stream state = elim conn.opening [
    | some e ↦
        (ended (some (because "error starting the stream" e)), record { sent = []; state = state })
    | none ↦ after_subscribe (
        subscribe node conn (conn.visits (map (λ (k, h). k) handlers))
          (record { sent = []; state = state }))
  ]
