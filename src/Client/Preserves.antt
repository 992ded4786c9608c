-- ===== src/Client/Preserves.antt =====
-- client.go: what every handler preserves of the state, a stream preserves.
use notyetanotherenvoybacken.Common.{
  String, ◌≡◌, refl, Option, none, some, List, [], ◌∷◌, Error, Outcome, returned, panicked, blocked,
  Ends, Option-cases, Bool-cases, inl, inr, lookup, is_empty, length,
}
use notyetanotherenvoybacken.Address.State.{Resource}
use notyetanotherenvoybacken.Client.Setup.{Node}
use notyetanotherenvoybacken.Client.Stream.{
  Response, Handler, Handlers, Turn, done, eof, failed, received, Connection, Session, Ending,
  waiting, ended, crashed, stuck, Round, goes_on, stops, process_updates, after_removals,
  call_handler, subscribe, send_ack, after_call, dispatch, receive_one, receive_loop,
  after_subscribe, run_stream,
}

-- A stream neither blocks nor crashes, or the type holds.
abbrev pub IsFine : Type 0 → Ending → Type 0
IsFine bad waiting = Unit
IsFine bad (ended e) = Unit
IsFine bad crashed = bad
IsFine bad stuck = bad

module _ {ℓ} {S : Type ℓ} (bad : Type 0) (P : S → Type 0) where
  -- Both calls of a handler preserve the predicate, or they do not return, and then the first type
  -- holds.
  abbrev pub HandlerKeeps : Handler S → Type ℓ
  HandlerKeeps h =
      ((names : List String) (s : S) → P s → Ends bad (λ x. P x.1) (h.remove names s))
      × ((rs : List Resource) (s : S) → P s → Ends bad (λ x. P x.1) (h.update rs s))

  process_updates-keeps :
      (h : Handler S) (r : Response) (x : Option Error × S)
      → HandlerKeeps h
      → P x.1
      → Ends bad (λ y. P y.1) (process_updates h r x)
  unfolding process_updates
  process_updates-keeps h r (some e, s) k p = p
  process_updates-keeps h r (none, s) k p = elim (Bool-cases (is_empty r.resources)) [
    | inl e ↦ rw (e, process_updates) p
    | inr e ↦ rw (e, process_updates) (k.1 r.resources s p)
  ]

  after_removals-keeps :
      (h : Handler S) (r : Response) (o : Outcome (Option Error × S))
      → HandlerKeeps h
      → Ends bad (λ x. P x.1) o
      → Ends bad (λ x. P x.1) (after_removals h r o)
  unfolding after_removals
  after_removals-keeps h r (returned x) k p = process_updates-keeps h r x k p
  after_removals-keeps h r panicked k p = p
  after_removals-keeps h r blocked k p = p

  call_handler-keeps :
      (h : Handler S) (r : Response) (s : S)
      → HandlerKeeps h
      → P s
      → Ends bad (λ x. P x.1) (call_handler h r s)
  unfolding call_handler
  call_handler-keeps h r s k p = elim (Bool-cases (is_empty r.removed_resources)) [
    | inl e ↦ rw (e, call_handler) (after_removals-keeps h r (returned (none, s)) k p)
    | inr e ↦
        rw (e, call_handler)
          (after_removals-keeps h r (h.remove r.removed_resources s) k
            (k.0 r.removed_resources s p))
  ]

  -- the predicate after a round
  abbrev RoundKeeps : Round S → Type 0
  RoundKeeps (goes_on s) = P s.state
  RoundKeeps (stops ending s) = P s.state × IsFine bad ending

  -- the predicate after a stream
  abbrev pub EndKeeps : Ending × Session S → Type 0
  EndKeeps (ending, s) = P s.state × IsFine bad ending

module _ {ℓ} {S : Type ℓ} (bad : Type 0) (P : S → Type 0) (node : Node) (conn : Connection)
    (handlers : Handlers S)
    (keeps : (type_url : String) (h : Handler S)
      → lookup type_url handlers ≡ some (some h)
      → HandlerKeeps bad P h) where
  send_ack-keeps :
      (why : String) (r : Response) (e : Option Error) (s : Session S)
      → P s.state
      → RoundKeeps bad P (send_ack node conn handlers why r e s)
  unfolding send_ack
  send_ack-keeps why r e s p = elim (Option-cases (conn.send (length s.sent))) [
    | inl n ↦ rw (n, send_ack) p
    | inr (x, n) ↦ rw (n, send_ack) (p, tt)
  ]

  after_call-keeps :
      (r : Response) (s : Session S) (o : Outcome (Option Error × S))
      → P s.state
      → Ends bad (λ x. P x.1) o
      → RoundKeeps bad P (after_call node conn handlers r s o)
  unfolding after_call
  after_call-keeps r s (returned (e, t)) p q =
      send_ack-keeps "failed to send ACK/NACK" r e (record s { state = t }) q
  after_call-keeps r s panicked p q = (p, q)
  after_call-keeps r s blocked p q = (p, q)

  dispatch-keeps :
      (r : Response) (s : Session S) (found : Option (Option (Handler S)))
      → lookup r.type_url handlers ≡ found
      → P s.state
      → RoundKeeps bad P (dispatch node conn handlers r s found)
  unfolding dispatch
  dispatch-keeps r s none e p = send_ack-keeps "failed to send ACK for unknown type" r none s p
  dispatch-keeps r s (some none) e p = (p, tt)
  dispatch-keeps r s (some (some h)) e p =
      after_call-keeps r s (call_handler h r s.state) p
        (call_handler-keeps bad P h r s.state (keeps r.type_url h e) p)

  receive_one-keeps :
      (turn : Turn) (s : Session S)
      → P s.state
      → RoundKeeps bad P (receive_one node conn handlers turn s)
  unfolding receive_one
  receive_one-keeps (done e) s p = (p, tt)
  receive_one-keeps eof s p = (p, tt)
  receive_one-keeps (failed e) s p = (p, tt)
  receive_one-keeps (received r) s p = dispatch-keeps r s (lookup r.type_url handlers) refl p

  round_cases :
      (turns : List Turn) (turn : Turn) (s : Session S) (r : Round S)
      → receive_one node conn handlers turn s ≡ r
      → RoundKeeps bad P r
      → ((t : Session S) → P t.state → EndKeeps bad P (receive_loop node conn handlers turns t))
      → EndKeeps bad P (receive_loop node conn handlers (turn ∷ turns) s)
  unfolding receive_loop
  round_cases turns turn s (goes_on t) e p k = rw (receive_loop, e) (k t p)
  round_cases turns turn s (stops ending t) e p k = rw (receive_loop, e) p

  receive_loop-keeps :
      (turns : List Turn) (s : Session S)
      → P s.state
      → EndKeeps bad P (receive_loop node conn handlers turns s)
  unfolding receive_loop
  receive_loop-keeps [] s p = (p, tt)
  receive_loop-keeps (turn ∷ turns) s p =
      round_cases turns turn s _ refl (receive_one-keeps turn s p) (receive_loop-keeps turns)

  subscribe-keeps :
      (types : List String) (s : Session S) → P s.state → P (subscribe node conn types s).1.state
  unfolding subscribe
  subscribe-keeps [] s p = p
  subscribe-keeps (type ∷ rest) s p = elim (Option-cases (conn.send (length s.sent))) [
    | inl n ↦ rw (n, subscribe) (subscribe-keeps rest _ p)
    | inr (e, n) ↦ rw (n, subscribe) p
  ]

  after_subscribe-keeps :
      (x : Option Error × Session S)
      → P x.1.state
      → EndKeeps bad P (after_subscribe node conn handlers x)
  unfolding after_subscribe
  after_subscribe-keeps (some e, s) p = (p, tt)
  after_subscribe-keeps (none, s) p = receive_loop-keeps conn.turns s p

  pub run_stream-keeps : (s : S) → P s → EndKeeps bad P (run_stream node conn handlers s)
  unfolding run_stream
  run_stream-keeps s p = elim (Option-cases conn.opening) [
    | inl n ↦
        rw (n, run_stream)
          (after_subscribe-keeps _ (subscribe-keeps _ (record { sent = []; state = s }) p))
    | inr (e, n) ↦ rw (n, run_stream) (p, tt)
  ]
