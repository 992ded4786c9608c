-- ===== src/Client/Answers.antt =====
-- client.go: what the receive loop of `runStream` answers to the responses.
use mathlib.Core.List.{append-nil, append_assoc, map-append}
use notyetanotherenvoybacken.Common.{
  ℕ, String, ◌≡◌, refl, sym, ap, ◌∙◌, Option, none, some, List, [], ◌∷◌, ◌++◌, map, Error, because,
  Outcome, returned, panicked, blocked, lookup, length,
}
use notyetanotherenvoybacken.Client.Setup.{Node}
use notyetanotherenvoybacken.Client.Stream.{
  Response, Request, Handler, Handlers, Turn, received, done, eof, failed, Connection, Session,
  Ending, waiting, ended, crashed, stuck, Round, goes_on, stops, ack, subscription, push,
  call_handler, subscribe, after_subscribe, send_ack, after_call, dispatch, receive_one,
  receive_loop, run_stream,
}
use notyetanotherenvoybacken.Client.Served.{Served, Fits, fits, call_handler-Fits}

-- The responses, each with its one answer: an ACK if no handler knows the type or the handler
-- served it, a NACK with the handler's error otherwise.
pub data Answered {ℓ} {S : Type ℓ} (node : Node) (handlers : Handlers S)
    : S → List Response → List Request → S → Type ℓ where
  none_left : {s : S} → Answered node handlers s [] [] s
  unknown :
      {r : Response} {rs : List Response} {qs : List Request} {s u : S}
      → lookup r.type_url handlers ≡ none
      → Answered node handlers s rs qs u
      → Answered node handlers s (r ∷ rs) (ack node r none ∷ qs) u
  known :
      {r : Response} {rs : List Response} {qs : List Request} {s t u : S} {h : Handler S}
      {e : Option Error}
      → lookup r.type_url handlers ≡ some (some h)
      → Served h r s e t
      → Answered node handlers t rs qs u
      → Answered node handlers s (r ∷ rs) (ack node r e ∷ qs) u

-- Why the loop stops in a state before these turns, on a stream that takes every request: there is
-- no turn, the next one is no response, or its response has a handler that is nil, panics or blocks.
pub data Stop {ℓ} {S : Type ℓ} (handlers : Handlers S) (s : S) : List Turn → Ending → Type ℓ where
  no_turns : Stop handlers s [] waiting
  context_done : {e : Error} {ts : List Turn} → Stop handlers s (done e ∷ ts) (ended (some e))
  closed : {ts : List Turn} → Stop handlers s (eof ∷ ts) (ended none)
  broken :
      {e : Error} {ts : List Turn}
      → Stop handlers s (failed e ∷ ts) (ended (some (because "stream recv error" e)))
  nil_handler :
      {r : Response} {e : Error} {ts : List Turn}
      → lookup r.type_url handlers ≡ some none
      → Stop handlers s (received r ∷ ts) (ended (some e))
  handler_panics :
      {r : Response} {h : Handler S} {ts : List Turn}
      → lookup r.type_url handlers ≡ some (some h)
      → call_handler h r s ≡ panicked
      → Stop handlers s (received r ∷ ts) crashed
  handler_blocks :
      {r : Response} {h : Handler S} {ts : List Turn}
      → lookup r.type_url handlers ≡ some (some h)
      → call_handler h r s ≡ blocked
      → Stop handlers s (received r ∷ ts) stuck

-- What a run of the receive loop from one session to another did with the turns: it answered
-- the responses that came first, and stopped for a reason that the next turn gives.
pub record Ran {ℓ} {S : Type ℓ} (node : Node) (handlers : Handlers S) (turns : List Turn)
    (s : Session S) (end : Ending × Session S) : Type ℓ where
  pub responses : List Response
  pub rest : List Turn
  pub answers : List Request
  pub came : turns ≡ map received responses ++ rest
  pub all_sent : end.1.sent ≡ s.sent ++ answers
  pub answered : Answered node handlers s.state responses answers end.1.state
  pub stop : Stop handlers end.1.state rest end.0

module _ {ℓ} {S : Type ℓ} (node : Node) (conn : Connection) (handlers : Handlers S)
    (free : (n : ℕ) → conn.send n ≡ none) where
  -- What a round does for the loop: before turns that ran, it ran too; or it ends the run.
  Good : Turn → Session S → Round S → Type ℓ
  Good t s (goes_on s') =
      (ts : List Turn) (end : Ending × Session S)
      → Ran node handlers ts s' end
      → Ran node handlers (t ∷ ts) s end
  Good t s (stops ending s') = (ts : List Turn) → Ran node handlers (t ∷ ts) s (ending, s')

  stopped :
      (t : Turn) (s : Session S) (ending : Ending)
      → ((ts : List Turn) → Stop handlers s.state (t ∷ ts) ending)
      → Good t s (stops ending s)
  unfolding Good
  stopped t s ending why ts = record {
    responses = [];
    rest = t ∷ ts;
    answers = [];
    came = refl;
    all_sent = sym (append-nil s.sent);
    answered = none_left;
    stop = why ts;
  }

  -- The answer to a response, where the rest of the run goes on from the state it leaves.
  send_ack-Good :
      (why : String) (r : Response) (e : Option Error) (s : Session S) (t : S)
      → ((rs : List Response) (qs : List Request) (u : S)
          → Answered node handlers t rs qs u
          → Answered node handlers s.state (r ∷ rs) (ack node r e ∷ qs) u)
      → Good (received r) s (send_ack node conn handlers why r e (record s { state = t }))
  unfolding Good send_ack
  send_ack-Good why r e s t step =
      rw (free (length s.sent), send_ack, Good)
        (λ ts end ran. record {
          responses = r ∷ ran.responses;
          rest = ran.rest;
          answers = ack node r e ∷ ran.answers;
          came = ap (received r ∷◌) ran.came;
          all_sent = ran.all_sent ∙ append_assoc s.sent (ack node r e ∷ []) ran.answers;
          answered = step ran.responses ran.answers end.1.state ran.answered;
          stop = ran.stop;
        })

  after_call-Good :
      (r : Response) (s : Session S) (h : Handler S)
      → lookup r.type_url handlers ≡ some (some h)
      → (o : Outcome (Option Error × S)) → call_handler h r s.state ≡ o
      → Fits h r s.state o
      → Good (received r) s (after_call node conn handlers r s o)
  unfolding after_call
  after_call-Good r s h k (returned (e, t)) c (fits v) =
      send_ack-Good "failed to send ACK/NACK" r e s t (λ rs qs u rest. known k v rest)
  after_call-Good r s h k panicked c v = stopped (received r) s crashed (λ ts. handler_panics k c)
  after_call-Good r s h k blocked c v = stopped (received r) s stuck (λ ts. handler_blocks k c)

  dispatch-Good :
      (r : Response) (s : Session S) (found : Option (Option (Handler S)))
      → lookup r.type_url handlers ≡ found
      → Good (received r) s (dispatch node conn handlers r s found)
  unfolding dispatch
  dispatch-Good r s none k =
      send_ack-Good "failed to send ACK for unknown type" r none s s.state
        (λ rs qs u rest. unknown k rest)
  dispatch-Good r s (some none) k = stopped (received r) s _ (λ ts. nil_handler k)
  dispatch-Good r s (some (some h)) k =
      after_call-Good r s h k (call_handler h r s.state) refl (call_handler-Fits h r s.state)

  receive_loop-go :
      (t : Turn) (ts : List Turn) (s : Session S) (round : Round S)
      → Good t s round
      → ((s' : Session S) → Ran node handlers ts s' (receive_loop node conn handlers ts s'))
      → Ran node handlers (t ∷ ts) s (elim round [
        | goes_on s' ↦ receive_loop node conn handlers ts s'
        | stops ending s' ↦ (ending, s')
      ])
  unfolding Good
  receive_loop-go t ts s (goes_on s') g ih = g ts (receive_loop node conn handlers ts s') (ih s')
  receive_loop-go t ts s (stops ending s') g ih = g ts

  receive_one-Good : (t : Turn) (s : Session S) → Good t s (receive_one node conn handlers t s)
  unfolding receive_one
  receive_one-Good (done e) s = stopped (done e) s (ended (some e)) (λ ts. context_done)
  receive_one-Good eof s = stopped eof s (ended none) (λ ts. closed)
  receive_one-Good (failed e) s = stopped (failed e) s _ (λ ts. broken)
  receive_one-Good (received r) s = dispatch-Good r s (lookup r.type_url handlers) refl

  -- Every response is answered once, in order, with the handlers' results, until a turn stops
  -- the loop.
  pub receive_loop-Ran :
      (turns : List Turn) (s : Session S)
      → Ran node handlers turns s (receive_loop node conn handlers turns s)
  unfolding receive_loop
  receive_loop-Ran [] s = record {
    responses = [];
    rest = [];
    answers = [];
    came = refl;
    all_sent = sym (append-nil s.sent);
    answered = none_left;
    stop = no_turns;
  }
  receive_loop-Ran (t ∷ ts) s =
      receive_loop-go t ts s (receive_one node conn handlers t s) (receive_one-Good t s)
        (receive_loop-Ran ts)

  subscribe_lem :
      (types : List String) (s : Session S)
      → subscribe node conn types s
        ≡ (none, record s { sent = s.sent ++ map (subscription node) types })
  unfolding subscribe
  subscribe_lem [] s = rw (append-nil s.sent)
  subscribe_lem (t ∷ ts) s =
      rw (subscribe, free (length s.sent))
        (subscribe_lem ts (push (subscription node t) s)
          ∙ ap (λ q. (none, record s { sent = q }))
              (append_assoc s.sent (subscription node t ∷ []) (map (subscription node) ts)))

  -- On a stream that opens and takes every request, the client first subscribes to the type of
  -- every handler, in the order in which the map is visited. Then it answers the responses, each
  -- once and in order, with what the handlers made of it, up to the turn where it stops. It stops
  -- only where no turn is left, where the turn is no response, or where the handler of the response
  -- is nil, panics or blocks.
  pub run_stream-Ran :
      (state : S)
      → conn.opening ≡ none
      → Ran node handlers conn.turns
          (record {
            sent = map (subscription node) (conn.visits (map (λ (k, h). k) handlers));
            state = state;
          })
          (run_stream node conn handlers state)
  unfolding run_stream after_subscribe subscribe
  run_stream-Ran state opens =
      rw
        (
          opens,
          subscribe_lem (conn.visits (map (λ (k, h). k) handlers))
              (record { sent = []; state = state }),
        )
        (receive_loop-Ran conn.turns _)

-- What identifies a message: its type and its nonce.
pub response_id : Response → String × String
response_id r = (r.type_url, r.nonce)

pub request_id : Request → String × String
request_id q = (q.type_url, q.response_nonce)

-- The answers carry, in order, the types and the nonces of the responses.
pub Answered-ids {ℓ} :
    {S : Type ℓ} {node : Node} {handlers : Handlers S} {s u : S} {rs : List Response}
    {qs : List Request}
    → Answered node handlers s rs qs u
    → map request_id qs ≡ map response_id rs
unfolding request_id response_id ack
Answered-ids none_left = refl
Answered-ids (unknown {r = r} k rest) = ap ((r.type_url, r.nonce) ∷◌) (Answered-ids rest)
Answered-ids (known {r = r} k v rest) = ap ((r.type_url, r.nonce) ∷◌) (Answered-ids rest)

module _ {ℓ} {S : Type ℓ} (node : Node) (conn : Connection) (handlers : Handlers S) where
  -- What is sent on a stream that opens and takes every request: after one subscription for each
  -- type, one answer for each of the responses that came first, in order, with the type and the
  -- nonce of the response. The client leaves a turn unanswered only where it stops: it is no
  -- response, or the handler of the response is nil, panics or blocks.
  pub run_stream-ids :
      (state : S)
      → conn.opening ≡ none
      → ((n : ℕ) → conn.send n ≡ none)
      → (rs : List Response) × (rest : List Turn) × (conn.turns ≡ map received rs ++ rest)
        × (map request_id (run_stream node conn handlers state).1.sent
            ≡ map request_id (map (subscription node) (conn.visits (map (λ (k, h). k) handlers)))
              ++ map response_id rs)
        × Stop handlers
            (run_stream node conn handlers state).1.state
            rest
            (run_stream node conn handlers state).0
  run_stream-ids state opens free =
      let ran = run_stream-Ran node conn handlers free state opens in
      (
        ran.responses,
        ran.rest,
        ran.came,
        ap (map request_id) ran.all_sent
            ∙ map-append request_id _ ran.answers
            ∙ ap
                (map request_id (map (subscription node) (conn.visits (map (λ (k, h). k) handlers)))
                  ++◌)
                (Answered-ids ran.answered),
        ran.stop,
      )
