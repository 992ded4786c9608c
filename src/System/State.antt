-- ===== src/System/State.antt =====
-- resource.go, address.go: the state that the two stores share.
use mathlib.Core.Path.{subst}
use notyetanotherenvoybacken.Common.{
  ℕ, String, Bool, true, false, Outcome, returned, blocked, ◌>>=◌, ◌≡◌, sym, Returns, Returns-bind,
  Result, if◌then◌else◌,
}
use notyetanotherenvoybacken.Nginx.{Env, Manager}
use notyetanotherenvoybacken.Address.State.{WorkloadApi, AddressStore, new_address_store}
use notyetanotherenvoybacken.Address.Locked.{set_service_available_callback}
use notyetanotherenvoybacken.Resource.State.{ResourceStore, new_resource_store}
use notyetanotherenvoybacken.Resource.Removals.{Kind}
use notyetanotherenvoybacken.Resource.Weights.{Float64}

-- Code outside the repository: the operating system and NGINX, istio's workloadapi, the API of
-- agentgateway with the number of its `Protocol_HTTPS`, and Go's float64.
pub record Outside : Type 1 where
  pub env : Env
  pub workloads : WorkloadApi
  pub unmarshal : String → Result Kind
  pub https : ℕ
  pub float64 : Float64

-- Both stores, with the resource store's mutex. Each has a copy of the manager that they share.
pub record System : Type 0 where
  pub locked : Bool
  pub resources : ResourceStore
  pub addresses : AddressStore

-- the resource store changes, and with it the address store's copy of the manager
abbrev pub put_resources : System → ResourceStore → System
put_resources s r = record s { resources = r; addresses = record s.addresses { nginx = r.nginx } }

-- the address store changes, and with it the resource store's copy of the manager
abbrev pub put_addresses : System → AddressStore → System
put_addresses s a = record s { addresses = a; resources = record s.resources { nginx = a.nginx } }

-- both copies are the same
abbrev pub IsShared : System → Type 0
IsShared s = s.resources.nginx ≡ s.addresses.nginx

-- `Lock` of the resource store at the start and a deferred `Unlock`
unfoldable pub with_resource_lock : System → (System → Outcome System) → Outcome System
with_resource_lock s f =
    if s.locked
    then blocked
    else (f (record s { locked = true }) >>= λ t. returned (record t { locked = false }))

-- Where the mutex is free, what the call under the mutex leaves is left with the mutex free.
pub with_resource_lock-Returns :
    (P Q : System → Type 0) (s : System) (f : System → Outcome System)
    → s.locked ≡ false
    → Returns P (f (record s { locked = true }))
    → ((t : System) → P t → Q (record t { locked = false }))
    → Returns Q (with_resource_lock s f)
unfolding with_resource_lock
with_resource_lock-Returns P Q s f unlocked h k =
    subst
      (λ b. Returns Q (
        if b
        then blocked
        else (f (record s { locked = true }) >>= λ t. returned (record t { locked = false }))))
      (sym unlocked) (Returns-bind P Q (f (record s { locked = true })) _ h k)

-- `NewResourceStore`, which sets the address store's callback
unfoldable pub connect_stores : Manager → AddressStore → Outcome System
connect_stores nginx a = set_service_available_callback a >>= λ (_, b).
    returned (record { locked = false; resources = new_resource_store nginx; addresses = b })

-- The two stores as main.go makes them.
unfoldable pub new_system : Manager → Outcome System
unfolding connect_stores
new_system nginx = connect_stores nginx (new_address_store nginx)
