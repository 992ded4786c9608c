-- ===== src/System/Finished.antt =====
-- resource.go, address.go: the handlers of both stores return, whatever the outside answers.
use notyetanotherenvoybacken.Common.{
  ℕ, String, Bool, true, false, not, ◌||◌, ◌≡◌, refl, Option, none, some, Error, Option-cases, inl,
  inr, List, [], ◌∷◌, returned, ◌>>=◌, Returns, Returns-bind, Ends, Ends-Returns, is_empty,
  if◌then◌else◌,
}
use notyetanotherenvoybacken.Nginx.{Env}
use notyetanotherenvoybacken.Address.State.{Resource}
use notyetanotherenvoybacken.Address.Update.{Updated, update}
use notyetanotherenvoybacken.Address.Lock.{update_mutex, update-silent}
use notyetanotherenvoybacken.Address.Locked.{ensure_upstream_file}
use notyetanotherenvoybacken.Resource.State.{ResourceStore, values_of}
use notyetanotherenvoybacken.Resource.Book.{Changes}
use notyetanotherenvoybacken.Resource.Removals.{record_resources, remove_all, unchanged}
use notyetanotherenvoybacken.Resource.Remove.{settle_servers, remove_from_store}
use notyetanotherenvoybacken.Resource.Server.{generate_server_file}
use notyetanotherenvoybacken.Resource.Stale.{NoStale, NoStale-Finds, OnlyFiles, OnlyFiles-NoStale}
use notyetanotherenvoybacken.Resource.Settled.{generate_server_file-Returns, settle_servers-Ends}
use notyetanotherenvoybacken.System.State.{
  Outside, System, put_resources, put_addresses, with_resource_lock-Returns,
}
use notyetanotherenvoybacken.System.Routes.{ensure_upstream}
use notyetanotherenvoybacken.System.Handlers.{
  write_servers, write_routes, reload_system, apply_changes, update_resources, remove_from_system,
  regenerate, on_service_available, notify_all, update_addresses,
}
use notyetanotherenvoybacken.System.Steps.{write_routes-keeps, regenerate-keeps}

abbrev IsFree : System → Type 0
IsFree s = s.addresses.locked ≡ false

-- Both mutexes are free.
abbrev pub AreFree : System → Type 0
AreFree s = (s.locked ≡ false) × IsFree s

module _ (out : Outside) where
  ensure_upstream-IsFree :
      (s : System) (service_key : String)
      → IsFree s
      → Ends ⊥ (λ x. IsFree x.1) (ensure_upstream out s service_key)
  unfolding ensure_upstream ensure_upstream_file
  ensure_upstream-IsFree s service_key free = rw (free, ensure_upstream, ensure_upstream_file) refl

  write_routes-IsFree :
      (s : System) (keys : List String) → IsFree s → Returns IsFree (write_routes out s keys)
  write_routes-IsFree s keys free = Ends-Returns IsFree (write_routes out s keys) (
      write_routes-keeps out ⊥ IsFree (λ t j k h. h) ensure_upstream-IsFree (λ t m h. h) s keys
        free)

  regenerate-IsFree :
      (s : System) (keys : List String) → IsFree s → Returns IsFree (regenerate out s keys)
  regenerate-IsFree s keys free =
      Ends-Returns IsFree (regenerate out s keys) (
        regenerate-keeps out ⊥ IsFree (λ t j k h. h) ensure_upstream-IsFree (λ t m h. h) s keys
          free)

  write_servers-IsFree :
      (s : System) (keys : List String)
      → NoStale s.resources
      → IsFree s
      → Returns IsFree (write_servers out s keys)
  unfolding write_servers
  write_servers-IsFree s [] fresh free = free
  write_servers-IsFree s (key ∷ keys) fresh free =
      Returns-bind (λ x. OnlyFiles s.resources x.1) IsFree
        (generate_server_file out.env out.https s.resources key) _
        (generate_server_file-Returns out.env out.https s.resources key fresh)
        (λ (e, b) same.
          write_servers-IsFree (put_resources s b) keys (OnlyFiles-NoStale s.resources b same fresh)
            free)

  reload_if-IsFree :
      (s : System) (changed : Bool) → IsFree s → IsFree (if changed then reload_system out s else s)
  reload_if-IsFree s true free = free
  reload_if-IsFree s false free = free

  apply_changes-IsFree :
      (s : System) (c : Changes)
      → NoStale c.store
      → IsFree s
      → Returns IsFree (apply_changes out s c)
  unfolding apply_changes
  apply_changes-IsFree s c fresh free =
      Returns-bind IsFree IsFree
        (write_servers out (put_resources s c.store) (out.env.visits c.servers)) _
        (write_servers-IsFree (put_resources s c.store) (out.env.visits c.servers) fresh free)
        (λ t h.
          Returns-bind IsFree IsFree (write_routes out t (out.env.visits c.routes)) _
            (write_routes-IsFree t (out.env.visits c.routes) h)
            (λ u k. reload_if-IsFree u (not (is_empty c.servers) || not (is_empty c.routes)) k))

  on_service_available-AreFree :
      (s : System) (service_key : String)
      → AreFree s
      → Returns AreFree (on_service_available out s service_key)
  unfolding on_service_available
  on_service_available-AreFree s service_key (unlocked, free) =
      with_resource_lock-Returns IsFree AreFree s
        (λ t. regenerate out t (values_of t.resources.service_to_routes service_key)) unlocked
        (regenerate-IsFree (record s { locked = true })
          (values_of s.resources.service_to_routes service_key) free)
        (λ t h. (refl, h))

  notify_all-AreFree :
      (s : System) (services : List String)
      → AreFree s
      → Returns AreFree (notify_all out s services)
  unfolding notify_all
  notify_all-AreFree s [] free = free
  notify_all-AreFree s (key ∷ keys) free =
      Returns-bind AreFree AreFree (on_service_available out s key) _
        (on_service_available-AreFree s key free) (λ t h. notify_all-AreFree t keys h)

module _ (env : Env) (https : ℕ) where
  remove_from_store-Returns :
      (r : ResourceStore) (names : List String)
      → NoStale (remove_all (unchanged r) names).store
      → Returns (λ b. Unit {0}) (remove_from_store env https r names)
  unfolding remove_from_store
  remove_from_store-Returns r names fresh =
      let c = remove_all (unchanged r) names in
      Returns-bind (OnlyFiles c.store) (λ b. Unit {0})
        (settle_servers env https c.store (env.visits c.servers)) _
        (Ends-Returns (OnlyFiles c.store) _ (
          settle_servers-Ends env https ⊥ c.store (env.visits c.servers)
            (NoStale-Finds c.store fresh)))
        (λ b h. tt)

pub update_resources-AreFree :
    (out : Outside) (s : System) (rs : List Resource)
    → AreFree s
    → NoStale (record_resources out.env out.unmarshal s.resources rs).store
    → Returns AreFree (update_resources out s rs)
unfolding update_resources
update_resources-AreFree out s rs (unlocked, free) fresh =
    with_resource_lock-Returns IsFree AreFree s
      (λ t. apply_changes out t (record_resources out.env out.unmarshal t.resources rs)) unlocked
      (apply_changes-IsFree out (record s { locked = true })
        (record_resources out.env out.unmarshal s.resources rs) fresh free)
      (λ t k. (refl, k))

pub remove_from_system-AreFree :
    (out : Outside) (s : System) (names : List String)
    → AreFree s
    → NoStale (remove_all (unchanged s.resources) names).store
    → Returns AreFree (remove_from_system out s names)
unfolding remove_from_system
remove_from_system-AreFree out s names (unlocked, free) fresh =
    with_resource_lock-Returns IsFree AreFree s
      (λ t.
        remove_from_store out.env out.https t.resources names >>= λ r. returned (put_resources t r))
      unlocked
      (Returns-bind (λ b. Unit {0}) IsFree (remove_from_store out.env out.https s.resources names) _
        (remove_from_store-Returns out.env out.https s.resources names fresh) (λ r k. free))
      (λ t k. (refl, k))

-- What `Update` of the address store leaves, by the error of its own part: without one both mutexes
-- are free, and with one the callback was not called and its part is all that was done.
abbrev pub IsAfterUpdate : System → Updated → Option Error × System → Type 0
IsAfterUpdate s u (e, t) =
    (e ≡ u.error)
    × (u.error ≡ none → AreFree t)
    × ((x : Error) → u.error ≡ some x → t ≡ put_addresses s u.store)

update_addresses-IsAfterUpdate :
    (out : Outside) (s : System) (rs : List Resource) (u : Updated)
    → AreFree s
    → update out.env out.workloads s.addresses rs ≡ returned u
    → Returns (IsAfterUpdate s u) (update_addresses out s rs)
unfolding update_addresses notify_all
update_addresses-IsAfterUpdate out s rs u (unlocked, free) h = elim (Option-cases u.error) [
  | inl silent ↦
      rw (h, update_addresses)
        (Returns-bind AreFree (IsAfterUpdate s u)
          (notify_all out (put_addresses s u.store) u.notified) _
          (notify_all-AreFree out (put_addresses s u.store) u.notified
            (unlocked, (update_mutex out.env out.workloads s.addresses rs u h).0 silent))
          (λ t k. (refl, λ n. k, λ x e. cc)))
  | inr (e, failed) ↦
      rw
        (
          h,
          update_addresses,
          update-silent out.env out.workloads s.addresses rs u e h failed,
          notify_all,
        )
        (refl, λ n. cc, λ x k. refl)
]

-- Where both mutexes are free, whatever the outside answers: `Update` and `Remove` of the resource
-- store return with both mutexes free, if no listing of a route is stale when the messages are
-- recorded, or the names removed. `Update` of the address store returns the error of its own part,
-- before the calls of the callback, where that part returns. Without an error it leaves both mutexes
-- free; with one, no callback is called, and the address store is as its own part left it.
pub handlers_return :
    (out : Outside) (s : System) (rs : List Resource) (names : List String) (u : Updated)
    → AreFree s
    → update out.env out.workloads s.addresses rs ≡ returned u
    → (NoStale (record_resources out.env out.unmarshal s.resources rs).store
        → Returns AreFree (update_resources out s rs))
      × (NoStale (remove_all (unchanged s.resources) names).store
          → Returns AreFree (remove_from_system out s names))
      × Returns (IsAfterUpdate s u) (update_addresses out s rs)
handlers_return out s rs names u free h = (
  λ fresh. update_resources-AreFree out s rs free fresh,
  λ fresh. remove_from_system-AreFree out s names free fresh,
  update_addresses-IsAfterUpdate out s rs u free h,
)
