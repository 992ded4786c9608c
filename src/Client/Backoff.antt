-- ===== src/Client/Backoff.antt =====
-- client.go: the delays of `Start`, and the errors that end it.
use native.Mathlib.Nat.{mul_assoc, pow-suc}
use mathlib.Core.Path.{ap₂}
use notyetanotherenvoybacken.Common.{
  length-snoc, ℕ, zero, suc, ◌*◌, ◌-◌, ◌^◌, ◌<◌, ◌≤◌, ◌≡◌, refl, sym, ap, ◌∙◌, Option, none, some,
  List, [], ◌∷◌, ◌++◌, Error, arith, length, ltb, if◌then◌else◌, Option-cases, Bool-cases, inl, inr,
}
use notyetanotherenvoybacken.Client.Setup.{Config, Node}
use notyetanotherenvoybacken.Client.Stream.{
  Handlers, Session, Ending, waiting, ended, crashed, stuck,
}
use notyetanotherenvoybacken.Client.Start.{
  Verdicts, Attempt, Loop, Next, again, exits, int64_gt, next_delay, is_permanent_error,
  after_stream, after_run, note_stream, attempt_stream, wait_and_attempt, one_attempt, attempts,
  first_loop, start,
}

-- The smaller of two numbers.
least : ℕ → ℕ → ℕ
least m n = if ltb m n then m else n

-- The delay after so many delays: the initial one doubled each time, and the maximum at most.
delay_after : Config → ℕ → ℕ
delay_after cfg n = least (cfg.initial_reconnect_delay * 2 ^ n) cfg.max_reconnect_delay

-- The first delays, as many as that.
delays : Config → ℕ → List ℕ
delays cfg zero = []
delays cfg (suc n) = delays cfg n ++ (delay_after cfg n ∷ [])

next_delay_lem :
    (cfg : Config) (d : ℕ)
    → d ≤ cfg.max_reconnect_delay
    → cfg.max_reconnect_delay < 2 ^ 62
    → next_delay cfg d ≡ least (d * 2) cfg.max_reconnect_delay
unfolding next_delay int64_gt least
next_delay_lem cfg d h m = ground arith

least_le : (a m : ℕ) → least a m ≤ m
unfolding least
least_le a m = ground arith

least_twice : (a m : ℕ) → least (least a m * 2) m ≡ least (a * 2) m
unfolding least
least_twice a m = ground arith

next_delay-after :
    (cfg : Config) (n : ℕ)
    → cfg.max_reconnect_delay < 2 ^ 62
    → next_delay cfg (delay_after cfg n) ≡ delay_after cfg (suc n)
unfolding delay_after
next_delay-after cfg n m =
    next_delay_lem cfg (delay_after cfg n) (least_le _ _) m
    ∙ least_twice (cfg.initial_reconnect_delay * 2 ^ n) cfg.max_reconnect_delay
    ∙ ap (λ d. least d cfg.max_reconnect_delay)
        (mul_assoc cfg.initial_reconnect_delay (2 ^ n) 2
          ∙ ap (cfg.initial_reconnect_delay *◌) (sym (pow-suc 2 n)))

-- The loop waited once for each stream but the first, each time as long as the schedule says.
pub Waited {ℓ} : {S : Type ℓ} → Config → Loop S → Type 0
Waited cfg l = l.waited ≡ delays cfg (length l.streams - 1)

module _ {ℓ} {S : Type ℓ} (v : Verdicts) (node : Node) (cfg : Config) (handlers : Handlers S) where
  -- at the head of the loop, and after a stream
  record Paced (l : Loop S) : Type 0 where
    counted : l.attempt ≡ length l.streams
    due : l.delay ≡ delay_after cfg (length l.streams - 1)
    kept : Waited cfg l

  record Tried (l : Loop S) : Type 0 where
    counted : suc l.attempt ≡ length l.streams
    due : l.delay ≡ delay_after cfg (length l.streams - 1)
    kept : Waited cfg l

  PacedNext : Next S → Type 0
  PacedNext (again l) = Paced l
  PacedNext (exits ending l) = Waited cfg l

  after_stream-Paced :
      (ctx_err e : Option Error) (l : Loop S)
      → Tried l
      → PacedNext (after_stream v node cfg handlers ctx_err e l)
  unfolding after_stream PacedNext Waited
  after_stream-Paced ctx_err none l t = t.kept
  after_stream-Paced (some c) (some e) l t = t.kept
  after_stream-Paced none (some e) l t = elim (Bool-cases (is_permanent_error v e)) [
    | inl h ↦ rw (h, PacedNext) t.kept
    | inr h ↦ rw (h, PacedNext) (record { counted = omega arith; due = t.due; kept = t.kept })
  ]

  after_run-Paced :
      (ctx_err : Option Error) (l : Loop S) (end : Ending × Session S)
      → Tried (note_stream v node cfg handlers l end.1)
      → PacedNext (after_run v node cfg handlers ctx_err l end)
  unfolding after_run PacedNext Waited
  after_run-Paced ctx_err l (waiting, s) t = t.kept
  after_run-Paced ctx_err l (ended e, s) t = after_stream-Paced ctx_err e _ t
  after_run-Paced ctx_err l (crashed, s) t = t.kept
  after_run-Paced ctx_err l (stuck, s) t = t.kept

  -- the loop after the delay that is due
  abbrev delayed : Loop S → Loop S
  delayed l = record l { waited = l.waited ++ (l.delay ∷ []); delay = next_delay cfg l.delay }

  last_index :
      (l : Loop S) (s : Session S)
      → length (note_stream v node cfg handlers l s).streams ≡ suc (length l.streams)
  last_index l s = length-snoc l.streams s.sent

  first-Tried :
      (l : Loop S) (s : Session S)
      → Paced l
      → l.attempt ≡ 0
      → Tried (note_stream v node cfg handlers l s)
  unfolding Waited
  first-Tried l s p z = record {
    counted = ap suc p.counted ∙ sym (last_index l s);
    due = p.due ∙ ap (delay_after cfg) (ground (arith, last_index l s, p.counted));
    kept = p.kept ∙ ap (delays cfg) (ground (arith, last_index l s, p.counted));
  }

  later-Tried :
      (l : Loop S) (s : Session S)
      → cfg.max_reconnect_delay < 2 ^ 62
      → Paced l
      → 0 < l.attempt
      → Tried (note_stream v node cfg handlers (delayed l) s)
  unfolding Waited delays
  later-Tried l s m p z =
      let before : suc (length l.streams - 1) ≡ length l.streams = ground (arith, p.counted) in
      let now : suc (length l.streams - 1) ≡ length (l.streams ++ (s.sent ∷ [])) - 1 =
        ground (arith, last_index l s, before) in
      record {
        counted = ap suc p.counted ∙ sym (last_index l s);
        due =
            ap (next_delay cfg) p.due
            ∙ next_delay-after cfg (length l.streams - 1) m
            ∙ ap (delay_after cfg) now;
        kept = ap₂ (λ ws d. ws ++ (d ∷ [])) p.kept p.due ∙ ap (delays cfg) now;
      }

  one_attempt-Paced :
      (a : Attempt) (l : Loop S)
      → cfg.initial_reconnect_delay ≤ cfg.max_reconnect_delay
      → cfg.max_reconnect_delay < 2 ^ 62
      → Paced l
      → PacedNext (one_attempt v node cfg handlers a l)
  unfolding one_attempt wait_and_attempt attempt_stream PacedNext Waited
  one_attempt-Paced a l i m p = elim (Option-cases a.before) [
    | inr (e, h) ↦ rw (one_attempt, h, PacedNext) p.kept
    | inl h ↦ elim (Bool-cases (ltb 0 l.attempt)) [
      | inr z ↦
          rw (one_attempt, h, z) (after_run-Paced a.after l _ (first-Tried l _ p (ground arith)))
      | inl z ↦ elim (Option-cases a.during_delay) [
        | inr (e, d) ↦ rw (one_attempt, h, z, d, PacedNext) p.kept
        | inl d ↦
            rw (one_attempt, h, z, d)
              (after_run-Paced a.after (delayed l) _ (later-Tried l _ m p (ground arith)))
      ]
    ]
  ]

  go_on-Waited :
      (rest : List Attempt) (n : Next S)
      → ((l : Loop S) → Paced l → Waited cfg (attempts v node cfg handlers rest l).1)
      → PacedNext n
      → Waited cfg
          (elim n as (λ x. Ending × Loop S) [
            | again l' ↦ attempts v node cfg handlers rest l'
            | exits ending l' ↦ (ending, l')
          ]).1
  unfolding PacedNext
  go_on-Waited rest (again l') ih p = ih l' p
  go_on-Waited rest (exits ending l') ih p = p

  attempts-Waited :
      (rounds : List Attempt) (l : Loop S)
      → cfg.initial_reconnect_delay ≤ cfg.max_reconnect_delay
      → cfg.max_reconnect_delay < 2 ^ 62
      → Paced l
      → Waited cfg (attempts v node cfg handlers rounds l).1
  unfolding attempts
  attempts-Waited [] l i m p = p.kept
  attempts-Waited (a ∷ rest) l i m p =
      go_on-Waited rest (one_attempt v node cfg handlers a l)
        (λ l' p'. attempts-Waited rest l' i m p') (one_attempt-Paced a l i m p)

  first_due :
      cfg.initial_reconnect_delay ≤ cfg.max_reconnect_delay
      → cfg.initial_reconnect_delay ≡ delay_after cfg 0
  unfolding delay_after least
  first_due i = ground arith

  -- `Start` waits once before each stream but the first: the first time for the initial delay,
  -- then twice as long each time, and never longer than the maximum, where the initial delay is
  -- the maximum at most and the maximum is below 2^62 nanoseconds.
  pub start-Waited :
      (rounds : List Attempt) (state : S)
      → cfg.initial_reconnect_delay ≤ cfg.max_reconnect_delay
      → cfg.max_reconnect_delay < 2 ^ 62
      → Waited cfg (start v node cfg handlers rounds state).1
  unfolding start Waited delays
  start-Waited rounds state i m =
      attempts-Waited rounds (first_loop cfg state) i m
        (record { counted = refl; due = first_due i; kept = refl })
