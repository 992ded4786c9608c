-- ===== src/Backend/Runs.antt =====
-- nginxbackend/main.go: whatever the program meets, its stores stay sound.
use mathlib.Core.Path.{subst}
use mathlib.Core.Option.{some-injective}
use notyetanotherenvoybacken.Common.{
  Bool, true, false, if◌then◌else◌, String, ◌≡◌, refl, none, some, Ends-bind, Ends-if, Result-cases,
  Option-cases, inl, inr, lookup,
}
use notyetanotherenvoybacken.Nginx.{Manager}
use notyetanotherenvoybacken.Nginx.Start.{new_manager, start_nginx}
use notyetanotherenvoybacken.Token.{gateway_and_namespace_from_jwt}
use notyetanotherenvoybacken.Client.Setup.{Config, new_ads_client}
use notyetanotherenvoybacken.Client.Stream.{Handler, Ending, waiting, ended, crashed, stuck}
use notyetanotherenvoybacken.Client.Start.{Loop}
use notyetanotherenvoybacken.Client.Preserves.{HandlerKeeps}
use notyetanotherenvoybacken.Client.Kept.{start-keeps}
use notyetanotherenvoybacken.Address.State.{new_address_store}
use notyetanotherenvoybacken.Address.Locked.{with_lock, set_service_available_callback}
use notyetanotherenvoybacken.Address.Linked.{Linked}
use notyetanotherenvoybacken.Resource.Listed.{Listed}
use notyetanotherenvoybacken.System.State.{Outside, System, IsShared, connect_stores, new_system}
use notyetanotherenvoybacken.System.Handlers.{update_resources, remove_from_system}
use notyetanotherenvoybacken.System.Reached.{
  SystemReach, resources_updated, resources_removed, addresses_updated, addresses_removed,
}
use notyetanotherenvoybacken.System.Composed.{SystemReach-Parts}
use notyetanotherenvoybacken.Backend.{address_handler, resource_handler, resource_handler_store}
use notyetanotherenvoybacken.Backend.Main.{
  World, Run, fatal, ran, lost, no_stores, after_client, run_client, make_stores, run_manager,
  with_names, with_token, main,
}

module _ (out : Outside) (m : Manager) where
  address_handler-keeps : HandlerKeeps (Unit {0}) (SystemReach out m) (address_handler out)
  unfolding address_handler
  address_handler-keeps = (
    λ names s p. Ends-if (λ x. SystemReach out m x.1) _ (λ (e, t) h. addresses_removed names e p h),
    λ rs s p. Ends-if (λ x. SystemReach out m x.1) _ (λ (e, t) h. addresses_updated rs e p h),
  )

  resource_handler-keeps : HandlerKeeps (Unit {0}) (SystemReach out m) (resource_handler out)
  unfolding resource_handler
  resource_handler-keeps = (
    λ names s p.
        Ends-bind (Unit {0}) (SystemReach out m) (λ x. SystemReach out m x.1)
          (remove_from_system out s names) _
          (Ends-if (SystemReach out m) _ (λ t h. resources_removed names p h)) (λ t h. h),
    λ rs s p.
        Ends-bind (Unit {0}) (SystemReach out m) (λ x. SystemReach out m x.1)
          (update_resources out s rs) _
          (Ends-if (SystemReach out m) _ (λ t h. resources_updated rs p h)) (λ t h. h),
  )

  either_handler :
      (b c : Bool) (h : Handler System)
      → (if b
          then some (some (address_handler out))
          else if c
          then some (some (resource_handler out))
          else none)
        ≡ some (some h)
      → HandlerKeeps (Unit {0}) (SystemReach out m) h
  either_handler true c h e =
      subst (HandlerKeeps (Unit {0}) (SystemReach out m))
        (some-injective _ _ (some-injective _ _ e)) address_handler-keeps
  either_handler false true h e =
      subst (HandlerKeeps (Unit {0}) (SystemReach out m))
        (some-injective _ _ (some-injective _ _ e)) resource_handler-keeps
  either_handler false false h e = absurd cc

  resource_handler_store-keeps :
      (type_url : String) (h : Handler System)
      → lookup type_url (resource_handler_store out) ≡ some (some h)
      → HandlerKeeps (Unit {0}) (SystemReach out m) h
  unfolding resource_handler_store lookup
  resource_handler_store-keeps type_url h e = either_handler _ _ h e

-- The stores share the manager, each service that a workload is recorded with lists the workload, and
-- every route stands in the reverse lookup of its listener.
abbrev pub IsSound : System → Type 0
IsSound s = IsShared s × Linked s.addresses × Listed s.resources

-- The run makes the stores, if it comes so far, and leaves them in a sound state; a run that lost
-- itself in a handler leaves none to speak of.
abbrev pub LeavesSound : Run → Type 0
LeavesSound (fatal why e none) = Unit
LeavesSound (fatal why e (some s)) = IsSound s
LeavesSound (ran ending s) = IsSound s
LeavesSound (lost ending) = Unit
LeavesSound no_stores = ⊥

module _ (world : World) where
  SystemReach-IsSound : (m : Manager) (s : System) → SystemReach world.outside m s → IsSound s
  SystemReach-IsSound m s r =
      let (v, linked, listed) = SystemReach-Parts world.outside m s r in (v.shared, linked, listed)

  after_client-LeavesSound :
      (x : Ending × Loop System) → IsSound x.1.state → LeavesSound (after_client x)
  unfolding after_client
  after_client-LeavesSound (waiting, l) p = p
  after_client-LeavesSound (ended none, l) p = p
  after_client-LeavesSound (ended (some e), l) p = p
  after_client-LeavesSound (crashed, l) p = tt
  after_client-LeavesSound (stuck, l) p = tt

  run_client-LeavesSound :
      (m : Manager) (s : System) (config : Config)
      → SystemReach world.outside m s
      → LeavesSound (run_client world s config)
  unfolding run_client
  run_client-LeavesSound m s config p = elim (Result-cases (new_ads_client world.dialer config)) [
    | inr (e, n) ↦ rw (n, run_client) tt
    | inl (c, n) ↦
        rw (n, run_client)
          (after_client-LeavesSound _ (
            SystemReach-IsSound m _ (
              (start-keeps (Unit {0}) (SystemReach world.outside m) world.verdicts c.node_info
                c.config (resource_handler_store world.outside)
                (resource_handler_store-keeps world.outside m) world.rounds s p).0)))
  ]

  make_stores-LeavesSound :
      (m : Manager) (config : Config) → LeavesSound (make_stores world config (new_system m))
  unfolding make_stores new_system connect_stores set_service_available_callback with_lock
      new_address_store
  make_stores-LeavesSound m config = run_client-LeavesSound m _ config (SystemReach.start refl)

  run_manager-LeavesSound :
      (config : Config) (m : Manager) → LeavesSound (run_manager world config m)
  unfolding run_manager
  run_manager-LeavesSound config m = elim (Option-cases (start_nginx world.host m)) [
    | inr (e, n) ↦ rw (n, run_manager) tt
    | inl n ↦ rw (n, run_manager) (make_stores-LeavesSound m config)
  ]

  with_names-LeavesSound :
      (content : String) (names : String × String) → LeavesSound (with_names world content names)
  unfolding with_names
  with_names-LeavesSound content (gateway_name, namespace) =
      elim (Result-cases (new_manager world.host "" "").1) [
        | inr (e, n) ↦ rw (n, with_names) tt
        | inl (m, n) ↦ rw (n, with_names) (run_manager-LeavesSound _ m)
      ]

  with_token-LeavesSound : (content : String) → LeavesSound (with_token world content)
  unfolding with_token
  with_token-LeavesSound content =
      elim (Result-cases (gateway_and_namespace_from_jwt world.parse_unverified content)) [
        | inr (e, n) ↦ rw (n, with_token) tt
        | inl (names, n) ↦ rw (n, with_token) (with_names-LeavesSound content names)
      ]

  -- Whatever `main` meets: if its client ended or waits for the control plane, both stores share the
  -- manager, each service that a workload is recorded with lists the workload, and every route stands
  -- in the reverse lookup of its listener. Else it exits before the client runs, or a handler panicked
  -- or blocks; it never fails to make the stores.
  pub main-LeavesSound : LeavesSound (main world)
  unfolding main
  main-LeavesSound = elim (Result-cases world.token_file) [
    | inr (e, n) ↦ rw (n, main) tt
    | inl (content, n) ↦ rw (n, main) (with_token-LeavesSound content)
  ]
