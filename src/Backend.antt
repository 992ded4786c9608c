-- ===== src/Backend.antt =====
-- nginxbackend/main.go: the two stores as handlers of the xDS client.
use notyetanotherenvoybacken.Common.{
  ℕ, String, Bool, true, false, ◌&&◌, ◌≡◌, refl, sym, ap, ◌∙◌, Option, none, some, List, [], ◌∷◌,
  Error, Outcome, returned, panicked, blocked, ◌>>=◌, lookup, is_empty, length, Bool-cases, inl,
  inr, arith, if◌then◌else◌,
}
use notyetanotherenvoybacken.Address.State.{Resource}
use notyetanotherenvoybacken.Address.Update.{Updated, update}
use notyetanotherenvoybacken.Address.Locked.{remove_resources}
use notyetanotherenvoybacken.Address.Lock.{IsDeaf, update_mutex, update-silent}
use notyetanotherenvoybacken.System.State.{Outside, System, put_addresses}
use notyetanotherenvoybacken.System.Handlers.{
  notify_all, update_resources, remove_from_system, update_addresses, remove_addresses,
}
use notyetanotherenvoybacken.Client.Setup.{Node}
use notyetanotherenvoybacken.Client.Stream.{
  Response, Handler, Handlers, Turn, received, Connection, Session, Ending, stuck, ack, push, Round,
  goes_on, stops, process_updates, after_removals, call_handler, send_ack, after_call, dispatch,
  receive_one, receive_loop,
}
pub mod Main
pub mod Runs
mod Tests

-- The handlers of both types of resources, on the state of both stores.
module _ (out : Outside) where
  -- `addressStore` in `resourceHandlerStore`
  unfoldable pub address_handler : Handler System
  address_handler = record {
    remove = λ names s. remove_addresses out s names;
    update = λ resources s. update_addresses out s resources;
  }

  -- `resourceStore` in `resourceHandlerStore`; its handlers return no error
  unfoldable pub resource_handler : Handler System
  resource_handler = record {
    remove = λ names s. remove_from_system out s names >>= λ t. returned (none, t);
    update = λ resources s. update_resources out s resources >>= λ t. returned (none, t);
  }

  -- `resourceHandlerStore`
  unfoldable pub resource_handler_store : Handlers System
  unfolding address_handler resource_handler
  resource_handler_store =
      ("type.googleapis.com/istio.workload.Address", some address_handler)
      ∷ ("type.googleapis.com/agentgateway.dev.resource.Resource", some resource_handler)
      ∷ []

module _ (out : Outside) where
  -- The handler's result after a failed reload: its error, and a store that is deaf.
  failed_update :
      (a : System) (rs : List Resource) (u : Updated) (e : Error)
      → update out.env out.workloads a.addresses rs ≡ returned u
      → u.error ≡ some e
      → (address_handler out).update rs a ≡ returned (some e, put_addresses a u.store)
  unfolding address_handler update_addresses notify_all
  failed_update a rs u e h p =
      rw (h, update-silent out.env out.workloads a.addresses rs u e h p, p) refl

  failed_call :
      (r : Response) (a : System) (u : Updated) (e : Error)
      → is_empty r.removed_resources ≡ true
      → is_empty r.resources ≡ false
      → update out.env out.workloads a.addresses r.resources ≡ returned u
      → u.error ≡ some e
      → call_handler (address_handler out) r a ≡ returned (some e, put_addresses a u.store)
  unfolding call_handler after_removals process_updates
  failed_call r a u e none_removed some_updated h p =
      rw (none_removed, some_updated) (failed_update a r.resources u e h p)

  deaf_call :
      (r : Response) (a : System)
      → (is_empty r.removed_resources && is_empty r.resources) ≡ false
      → IsDeaf out.env out.workloads a.addresses
      → call_handler (address_handler out) r a ≡ blocked
  unfolding call_handler after_removals process_updates address_handler update_addresses
      remove_addresses remove_resources
  deaf_call r a some_work (updates, removals, _, _, _) =
      elim (Bool-cases (is_empty r.removed_resources)) [
        | inr x ↦ rw (x, removals r.removed_resources) refl
        | inl x ↦
            let updated : is_empty r.resources ≡ false = ground (arith, x, some_work) in
            rw (x, updated, updates r.resources) refl
      ]

  first_round :
      (node : Node) (conn : Connection) (handlers : Handlers System) (s : Session System)
      (r : Response) (u : Updated) (e : Error)
      → lookup r.type_url handlers ≡ some (some (address_handler out))
      → conn.send (length s.sent) ≡ none
      → call_handler (address_handler out) r s.state
        ≡ returned (some e, put_addresses s.state u.store)
      → receive_one node conn handlers (received r) s
        ≡ goes_on (push (ack node r (some e)) (record s { state = put_addresses s.state u.store }))
  unfolding receive_one
  first_round node conn handlers s r u e k free c =
      rw (k, dispatch, c, after_call, send_ack, free) refl

  deaf_round :
      (node : Node) (conn : Connection) (handlers : Handlers System) (s : Session System)
      (r : Response)
      → lookup r.type_url handlers ≡ some (some (address_handler out))
      → call_handler (address_handler out) r s.state ≡ blocked
      → receive_one node conn handlers (received r) s ≡ stops stuck s
  unfolding receive_one
  deaf_round node conn handlers s r k c = rw (k, dispatch, c, after_call) refl

  -- When `Update` returns an error for a response without removals (a failed reload), and the
  -- stream takes the answer, the answer is a NACK. At the next response with resources or removals
  -- for the address store the client waits for ever: it is not answered, and no later turn is
  -- looked at.
  pub failed_update_sticks :
      (node : Node) (conn : Connection) (handlers : Handlers System) (s : Session System)
      (first second : Response) (rest : List Turn) (u : Updated) (e : Error)
      → lookup first.type_url handlers ≡ some (some (address_handler out))
      → lookup second.type_url handlers ≡ some (some (address_handler out))
      → conn.send (length s.sent) ≡ none
      → is_empty first.removed_resources ≡ true
      → is_empty first.resources ≡ false
      → (is_empty second.removed_resources && is_empty second.resources) ≡ false
      → update out.env out.workloads s.state.addresses first.resources ≡ returned u
      → u.error ≡ some e
      → receive_loop node conn handlers (received first ∷ received second ∷ rest) s ≡ (
        stuck,
        push (ack node first (some e)) (record s { state = put_addresses s.state u.store }),
      )
  unfolding receive_loop
  failed_update_sticks node conn handlers s first second rest u e k1 k2 free none_removed
        some_updated work h p =
      let next =
        push (ack node first (some e)) (record s { state = put_addresses s.state u.store }) in
      let deaf = (update_mutex out.env out.workloads s.state.addresses first.resources u h).1 e p in
      rw
        (
          receive_loop,
          first_round node conn handlers s first u e k1 free
              (failed_call first s.state u e none_removed some_updated h p),
          receive_loop,
          deaf_round node conn handlers next second k2
              (deaf_call second (put_addresses s.state u.store) work deaf),
        )
        refl
