-- ===== src/Client/Served.antt =====
-- client.go: how one handler serves one response.
use notyetanotherenvoybacken.Common.{
  true, false, ◌≡◌, refl, Option, none, some, Error, Outcome, returned, panicked, blocked, is_empty,
  Bool-cases, inl, inr,
}
use notyetanotherenvoybacken.Client.Stream.{
  Response, Handler, process_updates, call_handler, after_removals,
}

module _ {ℓ} {S : Type ℓ} (h : Handler S) (resp : Response) where
  -- The removals of a response leave this state: there are none, or the handler removes them.
  pub data Removed (s : S) : S → Type ℓ where
    no_removals : is_empty resp.removed_resources ≡ true → Removed s s
    removes :
        {t : S}
        → is_empty resp.removed_resources ≡ false
        → h.remove resp.removed_resources s ≡ returned (none, t)
        → Removed s t

  -- The handler serves a response: this is its error, if it has one, and the state it leaves.
  pub data Served (s : S) : Option Error → S → Type ℓ where
    removal_fails :
        {e : Error} {t : S}
        → is_empty resp.removed_resources ≡ false
        → h.remove resp.removed_resources s ≡ returned (some e, t)
        → Served s (some e) t
    no_updates : {t : S} → Removed s t → is_empty resp.resources ≡ true → Served s none t
    updates :
        {e : Option Error} {t u : S}
        → Removed s t
        → is_empty resp.resources ≡ false
        → h.update resp.resources t ≡ returned (e, u)
        → Served s e u

  -- What a call of the handler comes to: it served the response, if it returned.
  pub data Fits (s : S) : Outcome (Option Error × S) → Type ℓ where
    fits : {e : Option Error} {t : S} → Served s e t → Fits s (returned (e, t))
    panics : Fits s panicked
    blocks : Fits s blocked

  update-Fits :
      {s t : S}
      → Removed s t
      → is_empty resp.resources ≡ false
      → (o : Outcome (Option Error × S)) → h.update resp.resources t ≡ o
      → Fits s o
  update-Fits r x (returned (e, u)) h' = fits (updates r x h')
  update-Fits r x panicked h' = panics
  update-Fits r x blocked h' = blocks

  process_updates-Fits : {s t : S} → Removed s t → Fits s (process_updates h resp (none, t))
  unfolding process_updates
  process_updates-Fits {t = t} r = elim (Bool-cases (is_empty resp.resources)) [
    | inl x ↦ rw x (fits (no_updates r x))
    | inr x ↦ rw x (update-Fits r x (h.update resp.resources t) refl)
  ]

  after_removals-Fits :
      {s : S}
      → is_empty resp.removed_resources ≡ false
      → (o : Outcome (Option Error × S)) → h.remove resp.removed_resources s ≡ o
      → Fits s (after_removals h resp o)
  unfolding after_removals process_updates
  after_removals-Fits x (returned (none, t)) h' = process_updates-Fits (removes x h')
  after_removals-Fits x (returned (some e, t)) h' = fits (removal_fails x h')
  after_removals-Fits x panicked h' = panics
  after_removals-Fits x blocked h' = blocks

  pub call_handler-Fits : (s : S) → Fits s (call_handler h resp s)
  unfolding call_handler
  call_handler-Fits s = elim (Bool-cases (is_empty resp.removed_resources)) [
    | inl x ↦ rw x (process_updates-Fits (no_removals x))
    | inr x ↦ rw x (after_removals-Fits x (h.remove resp.removed_resources s) refl)
  ]
