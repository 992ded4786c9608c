-- ===== src/Client/Start.antt =====
-- client.go: the reconnection loop, `Start`.
use notyetanotherenvoybacken.Common.{
  ℕ, ◌+◌, ◌*◌, ◌%◌, ◌^◌, Bool, false, ◌||◌, Option, none, some, List, [], ◌∷◌, ◌++◌, Error, ltb,
  ◌==◌, if◌then◌else◌, nat_eq,
}
use notyetanotherenvoybacken.Client.Setup.{Config, Node}
use notyetanotherenvoybacken.Client.Stream.{
  Connection, Handlers, Session, Request, Ending, waiting, ended, crashed, stuck, run_stream,
}

-- `a > b` on 64-bit integers with a sign, by their bit patterns
unfoldable pub int64_gt : ℕ → ℕ → Bool
int64_gt a b = ltb ((b + 2 ^ 63) % 2 ^ 64) ((a + 2 ^ 63) % 2 ^ 64)

-- the next delay: twice the last one, in 64 bits, and the maximum at most
unfoldable pub next_delay : Config → ℕ → ℕ
unfolding int64_gt
next_delay cfg delay =
    let doubled = (delay * 2) % 2 ^ 64 in
    if int64_gt doubled cfg.max_reconnect_delay then cfg.max_reconnect_delay else doubled

-- What the gRPC library and the context package say of an error.
pub record Verdicts : Type 0 where
  -- the code of `status.FromError`, where it finds one
  pub status_code : Error → Option ℕ
  -- `errors.Is` of `context.Canceled` or `context.DeadlineExceeded`
  pub is_context_error : Error → Bool

-- `codes.InvalidArgument`, `codes.PermissionDenied`, `codes.Unauthenticated`
abbrev pub is_permanent_code : Option ℕ → Bool
is_permanent_code none = false
is_permanent_code (some c) = c == 16 || c == 7 || c == 3

-- `isPermanentError` of an error
unfoldable pub is_permanent_error : Verdicts → Error → Bool
is_permanent_error v e = is_permanent_code (v.status_code e) || v.is_context_error e

-- What a round of the reconnection loop meets: the context's error before it, during the delay
-- and after the stream, none while the context is live; and the stream.
pub record Attempt : Type 0 where
  pub before : Option Error
  pub during_delay : Option Error
  pub connection : Connection
  pub after : Option Error

-- The loop's variables: `attempt` and `reconnectDelay`; with what it has done, the delays it waited
-- and the requests of each stream.
pub record Loop {ℓ} (S : Type ℓ) : Type ℓ where
  pub attempt : ℕ
  pub delay : ℕ
  pub waited : List ℕ
  pub streams : List (List Request)
  pub state : S

-- What a round comes to.
pub data Next {ℓ} (S : Type ℓ) : Type ℓ where
  again : Loop S → Next S
  exits : Ending → Loop S → Next S

module _ {ℓ} {S : Type ℓ} (v : Verdicts) (node : Node) (cfg : Config) (handlers : Handlers S) where
  -- what follows a stream that returned
  unfoldable pub after_stream : Option Error → Option Error → Loop S → Next S
  after_stream ctx_err none l = exits (ended none) l
  after_stream (some c) (some e) l = exits (ended (some e)) l
  after_stream none (some e) l =
      if is_permanent_error v e
      then exits (ended (some e)) l
      else again (record l { attempt = l.attempt + 1 })

  abbrev pub note_stream : Loop S → Session S → Loop S
  note_stream l s = record l { streams = l.streams ++ (s.sent ∷ []); state = s.state }

  unfoldable pub after_run : Option Error → Loop S → Ending × Session S → Next S
  unfolding after_stream
  after_run ctx_err l (waiting, s) = exits waiting (note_stream l s)
  after_run ctx_err l (ended e, s) = after_stream ctx_err e (note_stream l s)
  after_run ctx_err l (crashed, s) = exits crashed (note_stream l s)
  after_run ctx_err l (stuck, s) = exits stuck (note_stream l s)

  unfoldable pub attempt_stream : Attempt → Loop S → Next S
  unfolding after_run
  attempt_stream a l = after_run a.after l (run_stream node a.connection handlers l.state)

  -- the delay before every attempt but the first
  unfoldable pub wait_and_attempt : Attempt → Loop S → Next S
  unfolding attempt_stream
  wait_and_attempt a l = elim a.during_delay [
    | some e ↦ exits (ended (some e)) l
    | none ↦
        attempt_stream a
          (record l { waited = l.waited ++ (l.delay ∷ []); delay = next_delay cfg l.delay })
  ]

  -- the body of the loop
  unfoldable pub one_attempt : Attempt → Loop S → Next S
  unfolding wait_and_attempt attempt_stream
  one_attempt a l = elim a.before [
    | some e ↦ exits (ended (some e)) l
    | none ↦ if ltb 0 l.attempt then wait_and_attempt a l else attempt_stream a l
  ]

  -- the loop, on the attempts it has
  unfoldable pub attempts : List Attempt → Loop S → Ending × Loop S
  unfolding one_attempt
  attempts [] l = (waiting, l)
  attempts (a ∷ rest) l = elim (one_attempt a l) [
    | again l' ↦ attempts rest l'
    | exits ending l' ↦ (ending, l')
  ]

abbrev pub first_loop {ℓ} : {S : Type ℓ} → Config → S → Loop S
first_loop cfg s = record {
  attempt = 0;
  delay = cfg.initial_reconnect_delay;
  waited = [];
  streams = [];
  state = s;
}

-- `Start`, less the closing of the connection
unfoldable pub start {ℓ} :
    {S : Type ℓ} → Verdicts → Node → Config → Handlers S → List Attempt → S → Ending × Loop S
unfolding attempts
start v node cfg handlers rounds s = attempts v node cfg handlers rounds (first_loop cfg s)
