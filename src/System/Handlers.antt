-- ===== src/System/Handlers.antt =====
-- resource.go, address.go: the handlers of both stores, with the calls of the other store.
use notyetanotherenvoybacken.Common.{
  String, ◌||◌, not, Option, List, [], ◌∷◌, Error, Outcome, returned, ◌>>=◌, is_empty,
  if◌then◌else◌,
}
use notyetanotherenvoybacken.Nginx.{reload}
use notyetanotherenvoybacken.Address.State.{Resource}
use notyetanotherenvoybacken.Address.Update.{update}
use notyetanotherenvoybacken.Address.Locked.{remove_resources}
use notyetanotherenvoybacken.Resource.State.{values_of}
use notyetanotherenvoybacken.Resource.Book.{Changes}
use notyetanotherenvoybacken.Resource.Removals.{record_resources}
use notyetanotherenvoybacken.Resource.Server.{generate_server_file}
use notyetanotherenvoybacken.Resource.Remove.{remove_from_store}
use notyetanotherenvoybacken.System.State.{
  Outside, System, put_resources, put_addresses, with_resource_lock,
}
use notyetanotherenvoybacken.System.Routes.{generate_route_file}

module _ (out : Outside) where
  -- the loop over the affected server files; an error is logged only
  unfoldable pub write_servers : System → List String → Outcome System
  write_servers s [] = returned s
  write_servers s (key ∷ keys) =
      generate_server_file out.env out.https s.resources key >>= λ (e, r).
      write_servers (put_resources s r) keys

  -- the loop over route files; an error is logged only
  unfoldable pub write_routes : System → List String → Outcome System
  write_routes s [] = returned s
  write_routes s (key ∷ keys) = generate_route_file out s key >>= λ (e, t). write_routes t keys

  -- a reload whose error is logged only
  abbrev pub reload_system : System → System
  reload_system s =
      put_resources s (record s.resources { nginx = (reload out.env s.resources.nginx).1 })

  -- phases 5 and 6 of `Update`
  unfoldable pub apply_changes : System → Changes → Outcome System
  unfolding write_servers write_routes
  apply_changes s c = write_servers (put_resources s c.store) (out.env.visits c.servers) >>= λ t.
      write_routes t (out.env.visits c.routes) >>= λ u.
      returned (if not (is_empty c.servers) || not (is_empty c.routes) then reload_system u else u)

  -- `Update` of the resource store, which returns no error
  unfoldable pub update_resources : System → List Resource → Outcome System
  unfolding apply_changes with_resource_lock
  update_resources s resources =
      with_resource_lock s
        λ t. apply_changes t (record_resources out.env out.unmarshal t.resources resources)

  -- `Remove` of the resource store, which returns no error
  unfoldable pub remove_from_system : System → List String → Outcome System
  unfolding with_resource_lock
  remove_from_system s names = with_resource_lock s λ t.
      remove_from_store out.env out.https t.resources names >>= λ r. returned (put_resources t r)

  abbrev pub regenerate : System → List String → Outcome System
  regenerate s [] = returned s
  regenerate s (key ∷ keys) = write_routes s (key ∷ keys) >>= λ t. returned (reload_system t)

  -- `onServiceAvailable`
  unfoldable pub on_service_available : System → String → Outcome System
  unfolding write_routes with_resource_lock
  on_service_available s service_key =
      with_resource_lock s λ t. regenerate t (values_of t.resources.service_to_routes service_key)

  -- the calls of the callback at the end of the address store's `Update`
  unfoldable pub notify_all : System → List String → Outcome System
  unfolding on_service_available
  notify_all s [] = returned s
  notify_all s (key ∷ keys) = on_service_available s key >>= λ t. notify_all t keys

  -- `Update` of the address store
  unfoldable pub update_addresses : System → List Resource → Outcome (Option Error × System)
  unfolding notify_all
  update_addresses s resources = update out.env out.workloads s.addresses resources >>= λ u.
      notify_all (put_addresses s u.store) u.notified >>= λ t. returned (u.error, t)

  -- `Remove` of the address store
  unfoldable pub remove_addresses : System → List String → Outcome (Option Error × System)
  remove_addresses s names = remove_resources out.env out.workloads s.addresses names >>= λ (e, a).
      returned (e, put_addresses s a)
