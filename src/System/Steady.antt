-- ===== src/System/Steady.antt =====
-- resource.go: as long as no route moves to another listener, the handlers of the resource store go on
-- returning.
use notyetanotherenvoybacken.Common.{
  String, ◌≡◌, List, Outcome, returned, panicked, blocked, Returns, Ends, Ends-eq, Option, Error,
}
use notyetanotherenvoybacken.Address.State.{Resource}
use notyetanotherenvoybacken.Address.State.{new_address_store}
use notyetanotherenvoybacken.Nginx.{Manager}
use notyetanotherenvoybacken.Address.Locked.{with_lock, set_service_available_callback}
use notyetanotherenvoybacken.Resource.Removals.{unchanged}
use notyetanotherenvoybacken.Resource.Exact.{Exact}
use notyetanotherenvoybacken.Resource.Steady.{
  IsSteady, Exact-NoStale, record_resources-Exact, remove_all-Exact, new-Exact,
}
use notyetanotherenvoybacken.System.State.{Outside, System, connect_stores, new_system}
use notyetanotherenvoybacken.System.Handlers.{
  update_resources, remove_from_system, update_addresses, remove_addresses,
}
use notyetanotherenvoybacken.System.Finished.{
  AreFree, update_resources-AreFree, remove_from_system-AreFree,
}
use notyetanotherenvoybacken.System.Exact.{
  IsExact, update_resources-Exact, remove_from_system-Exact, update_addresses-Exact,
  remove_addresses-Exact,
}

Returns-Ends-both {ℓ} :
    {A : Type ℓ} (P Q : A → Type 0) (o : Outcome A)
    → Returns P o
    → Ends (Unit {0}) Q o
    → Returns (λ x. P x × Q x) o
Returns-Ends-both P Q (returned x) h k = (h, k)
Returns-Ends-both P Q panicked h k = absurd h
Returns-Ends-both P Q blocked h k = absurd h

module _ (out : Outside) (m : Manager) where
  -- The states of both stores that calls of their handlers lead to from new ones, where no message
  -- moves a route to another listener.
  pub data SteadyReach : System → Type 0 where
    start : {s : System} → new_system m ≡ returned s → SteadyReach s
    resources_updated :
        {s t : System} (rs : List Resource)
        → SteadyReach s
        → IsSteady out.env out.unmarshal s.resources rs
        → update_resources out s rs ≡ returned t
        → SteadyReach t
    resources_removed :
        {s t : System} (names : List String)
        → SteadyReach s
        → remove_from_system out s names ≡ returned t
        → SteadyReach t
    addresses_updated :
        {s t : System} (rs : List Resource) (e : Option Error)
        → SteadyReach s
        → update_addresses out s rs ≡ returned (e, t)
        → SteadyReach t
    addresses_removed :
        {s t : System} (names : List String) (e : Option Error)
        → SteadyReach s
        → remove_addresses out s names ≡ returned (e, t)
        → SteadyReach t

  new_system-Exact : Ends (Unit {0}) IsExact (new_system m)
  unfolding new_system connect_stores set_service_available_callback with_lock new_address_store
  new_system-Exact = new-Exact m

  SteadyReach-Exact : (s : System) → SteadyReach s → Exact s.resources
  SteadyReach-Exact t (start e) = Ends-eq (Unit {0}) IsExact (new_system m) t e new_system-Exact
  SteadyReach-Exact t (resources_updated {s} rs r steady e) =
      Ends-eq (Unit {0}) IsExact (update_resources out s rs) t e
        (update_resources-Exact out s rs (SteadyReach-Exact s r) steady)
  SteadyReach-Exact t (resources_removed {s} names r e) =
      Ends-eq (Unit {0}) IsExact (remove_from_system out s names) t e
        (remove_from_system-Exact out s names (SteadyReach-Exact s r))
  SteadyReach-Exact t (addresses_updated {s} rs x r e) =
      Ends-eq (Unit {0}) (λ y. IsExact y.1) (update_addresses out s rs) (x, t) e
        (update_addresses-Exact out s rs (SteadyReach-Exact s r))
  SteadyReach-Exact t (addresses_removed {s} names x r e) =
      Ends-eq (Unit {0}) (λ y. IsExact y.1) (remove_addresses out s names) (x, t) e
        (remove_addresses-Exact out s names (SteadyReach-Exact s r))

  -- In every state of both stores that calls of their handlers lead to from new ones, where no
  -- message moved a route to another listener, and where both mutexes are free: `Update` of the
  -- resource store, with messages that move none, and `Remove` with any names return, whatever the
  -- outside answers. They leave both mutexes free, and the listings of the routes exact: a listener
  -- lists each key once, and only keys of routes that are its own.
  pub steady_handlers_return :
      (s : System) (rs : List Resource) (names : List String)
      → SteadyReach s
      → AreFree s
      → IsSteady out.env out.unmarshal s.resources rs
      → Returns (λ t. AreFree t × Exact t.resources) (update_resources out s rs)
        × Returns (λ t. AreFree t × Exact t.resources) (remove_from_system out s names)
  steady_handlers_return s rs names r free steady =
      let v = SteadyReach-Exact s r in
      (
        Returns-Ends-both AreFree IsExact (update_resources out s rs)
            (update_resources-AreFree out s rs free (
              Exact-NoStale _
                (record_resources-Exact out.env out.unmarshal s.resources rs v steady)))
            (update_resources-Exact out s rs v steady),
        Returns-Ends-both AreFree IsExact (remove_from_system out s names)
            (remove_from_system-AreFree out s names free
              (Exact-NoStale _ (remove_all-Exact (unchanged s.resources) names v)))
            (remove_from_system-Exact out s names v),
      )
