-- ===== src/Client/Endings.antt =====
-- client.go: what ends `Start`.
use notyetanotherenvoybacken.Common.{
  true, ◌≡◌, none, some, List, [], ◌∷◌, ◌++◌, ltb, Bool-cases, inl, inr,
}
use notyetanotherenvoybacken.Client.Setup.{Config, Node}
use notyetanotherenvoybacken.Client.Stream.{
  Handlers, Session, Ending, waiting, ended, crashed, stuck,
}
use notyetanotherenvoybacken.Client.Start.{
  Verdicts, Attempt, Loop, Next, again, exits, is_permanent_error, after_stream, after_run,
  attempt_stream, wait_and_attempt, one_attempt, attempts, first_loop, start, next_delay,
}

-- The context stays live in every one of the rounds.
pub data Live : List Attempt → Type 0 where
  no_more : Live []
  one_more :
      {a : Attempt} {rest : List Attempt}
      → a.before ≡ none
      → a.during_delay ≡ none
      → a.after ≡ none
      → Live rest
      → Live (a ∷ rest)

-- An error that the loop ends with is permanent.
pub Justified : Verdicts → Ending → Type 0
Justified v (ended (some e)) = is_permanent_error v e ≡ true
Justified v (ended none) = Unit
Justified v waiting = Unit
Justified v crashed = Unit
Justified v stuck = Unit

module _ {ℓ} {S : Type ℓ} (v : Verdicts) (node : Node) (cfg : Config) (handlers : Handlers S) where
  JustifiedNext : Next S → Type 0
  JustifiedNext (again l) = Unit
  JustifiedNext (exits ending l) = Justified v ending

  after_run-Justified :
      (l : Loop S) (end : Ending × Session S)
      → JustifiedNext (after_run v node cfg handlers none l end)
  unfolding after_run after_stream JustifiedNext Justified
  after_run-Justified l (waiting, s) = tt
  after_run-Justified l (ended none, s) = tt
  after_run-Justified l (ended (some e), s) = elim (Bool-cases (is_permanent_error v e)) [
    | inl h ↦ rw (h, JustifiedNext, Justified) h
    | inr h ↦ rw (h, JustifiedNext) tt
  ]
  after_run-Justified l (crashed, s) = tt
  after_run-Justified l (stuck, s) = tt

  one_attempt-Justified :
      (a : Attempt) (l : Loop S)
      → a.before ≡ none
      → a.during_delay ≡ none
      → a.after ≡ none
      → JustifiedNext (one_attempt v node cfg handlers a l)
  unfolding one_attempt wait_and_attempt attempt_stream
  one_attempt-Justified a l b d f = elim (Bool-cases (ltb 0 l.attempt)) [
    | inl z ↦
        rw (one_attempt, b, z, d, f)
          (after_run-Justified
            (record l { waited = l.waited ++ (l.delay ∷ []); delay = next_delay cfg l.delay }) _)
    | inr z ↦ rw (one_attempt, b, z, f) (after_run-Justified l _)
  ]

  go_on-Justified :
      (rest : List Attempt) (n : Next S)
      → JustifiedNext n
      → ((l : Loop S) → Justified v (attempts v node cfg handlers rest l).0)
      → Justified v
          (elim n as (λ x. Ending × Loop S) [
            | again l' ↦ attempts v node cfg handlers rest l'
            | exits ending l' ↦ (ending, l')
          ]).0
  unfolding JustifiedNext
  go_on-Justified rest (again l') p ih = ih l'
  go_on-Justified rest (exits ending l') p ih = p

  attempts-Justified :
      (rounds : List Attempt) (l : Loop S)
      → Live rounds
      → Justified v (attempts v node cfg handlers rounds l).0
  unfolding attempts Justified
  attempts-Justified [] l h = tt
  attempts-Justified (a ∷ rest) l (one_more b d f h) =
      go_on-Justified rest (one_attempt v node cfg handlers a l) (one_attempt-Justified a l b d f)
        (λ l'. attempts-Justified rest l' h)

  -- While the context stays live, an error that ends `Start` is one that `isPermanentError` calls
  -- permanent.
  pub start-Justified :
      (rounds : List Attempt) (state : S)
      → Live rounds
      → Justified v (start v node cfg handlers rounds state).0
  unfolding start
  start-Justified rounds state h = attempts-Justified rounds (first_loop cfg state) h
