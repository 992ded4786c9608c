-- ===== src/Client/Kept.antt =====
-- client.go: what every handler preserves of the state, `Start` preserves.
use notyetanotherenvoybacken.Common.{
  String, ◌≡◌, refl, Option, none, some, List, [], ◌∷◌, Error, Option-cases, Bool-cases, inl, inr,
  lookup, ltb,
}
use notyetanotherenvoybacken.Client.Setup.{Node, Config}
use notyetanotherenvoybacken.Client.Stream.{
  Handler, Handlers, Session, Ending, waiting, ended, crashed, stuck, run_stream,
}
use notyetanotherenvoybacken.Client.Start.{
  Verdicts, is_permanent_error, Attempt, Loop, Next, again, exits, after_stream, after_run,
  attempt_stream, wait_and_attempt, one_attempt, attempts, first_loop, start,
}
use notyetanotherenvoybacken.Client.Preserves.{IsFine, HandlerKeeps, EndKeeps, run_stream-keeps}

module _ {ℓ} {S : Type ℓ} (bad : Type 0) (P : S → Type 0) (v : Verdicts) (node : Node)
    (cfg : Config) (handlers : Handlers S)
    (keeps : (type_url : String) (h : Handler S)
      → lookup type_url handlers ≡ some (some h)
      → HandlerKeeps bad P h) where
  abbrev NextKeeps : Next S → Type 0
  NextKeeps (again l) = P l.state
  NextKeeps (exits ending l) = P l.state × IsFine bad ending

  -- the predicate after the reconnection loop, which neither blocks nor crashes, or the type holds
  abbrev pub LoopKeeps : Ending × Loop S → Type 0
  LoopKeeps (ending, l) = P l.state × IsFine bad ending

  after_stream-keeps :
      (ctx e : Option Error) (l : Loop S)
      → P l.state
      → NextKeeps (after_stream v node cfg handlers ctx e l)
  unfolding after_stream
  after_stream-keeps ctx none l p = (p, tt)
  after_stream-keeps (some c) (some e) l p = (p, tt)
  after_stream-keeps none (some e) l p = elim (Bool-cases (is_permanent_error v e)) [
    | inl h ↦ rw (h, after_stream) (p, tt)
    | inr h ↦ rw (h, after_stream) p
  ]

  after_run-keeps :
      (ctx : Option Error) (l : Loop S) (r : Ending × Session S)
      → EndKeeps bad P r
      → NextKeeps (after_run v node cfg handlers ctx l r)
  unfolding after_run
  after_run-keeps ctx l (waiting, s) p = p
  after_run-keeps ctx l (ended e, s) p = after_stream-keeps ctx e _ p.0
  after_run-keeps ctx l (crashed, s) p = p
  after_run-keeps ctx l (stuck, s) p = p

  attempt_stream-keeps :
      (a : Attempt) (l : Loop S) → P l.state → NextKeeps (attempt_stream v node cfg handlers a l)
  unfolding attempt_stream
  attempt_stream-keeps a l p =
      after_run-keeps a.after l (run_stream node a.connection handlers l.state)
        (run_stream-keeps bad P node a.connection handlers keeps l.state p)

  wait_and_attempt-keeps :
      (a : Attempt) (l : Loop S) → P l.state → NextKeeps (wait_and_attempt v node cfg handlers a l)
  unfolding wait_and_attempt
  wait_and_attempt-keeps a l p = elim (Option-cases a.during_delay) [
    | inl n ↦ rw (n, wait_and_attempt) (attempt_stream-keeps a _ p)
    | inr (e, n) ↦ rw (n, wait_and_attempt) (p, tt)
  ]

  one_attempt-keeps :
      (a : Attempt) (l : Loop S) → P l.state → NextKeeps (one_attempt v node cfg handlers a l)
  unfolding one_attempt
  one_attempt-keeps a l p = elim (Option-cases a.before) [
    | inr (e, n) ↦ rw (n, one_attempt) (p, tt)
    | inl n ↦ elim (Bool-cases (ltb 0 l.attempt)) [
      | inl h ↦ rw (n, one_attempt, h) (wait_and_attempt-keeps a l p)
      | inr h ↦ rw (n, one_attempt, h) (attempt_stream-keeps a l p)
    ]
  ]

  attempt_cases :
      (rounds : List Attempt) (a : Attempt) (l : Loop S) (n : Next S)
      → one_attempt v node cfg handlers a l ≡ n
      → NextKeeps n
      → ((k : Loop S) → P k.state → LoopKeeps (attempts v node cfg handlers rounds k))
      → LoopKeeps (attempts v node cfg handlers (a ∷ rounds) l)
  unfolding attempts
  attempt_cases rounds a l (again k) e p rest = rw (attempts, e) (rest k p)
  attempt_cases rounds a l (exits ending k) e p rest = rw (attempts, e) p

  attempts-keeps :
      (rounds : List Attempt) (l : Loop S)
      → P l.state
      → LoopKeeps (attempts v node cfg handlers rounds l)
  unfolding attempts
  attempts-keeps [] l p = (p, tt)
  attempts-keeps (a ∷ rounds) l p =
      attempt_cases rounds a l _ refl (one_attempt-keeps a l p) (attempts-keeps rounds)

  -- What every handler preserves holds of the state that `Start` leaves, which neither blocks nor
  -- crashes if no handler does.
  pub start-keeps :
      (rounds : List Attempt) (s : S) → P s → LoopKeeps (start v node cfg handlers rounds s)
  unfolding start
  start-keeps rounds s p = attempts-keeps rounds (first_loop cfg s) p
