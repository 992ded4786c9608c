-- ===== src/Address/Panic.antt =====
-- When `Update` returns, and when it panics on `addrs[0]`.
use notyetanotherenvoybacken.Common.{
  true, false, ◌≡◌, ◌≢◌, refl, some, List, [], ◌∷◌, Result, ok, err, arith, Bool-cases,
  Option-cases, inl, inr, lookup, is_empty, ◌==◌, nat_eq,
}
use notyetanotherenvoybacken.Net.{Addr}
use notyetanotherenvoybacken.Nginx.{Env}
use notyetanotherenvoybacken.Address.State.{
  WorkloadMessage, AddressMessage, workload_address, service_address, no_address, Resource,
  WorkloadApi, Workload, AddressStore, is_pod, get_workload_ips,
}
use notyetanotherenvoybacken.Address.Workloads.{
  Outcome, returned, panicked, blocked, create_at_first, create_new, update_workload,
}
use notyetanotherenvoybacken.Address.Update.{
  Progress, Updated, ◌>>=◌, process_workload, process_address, process_resource, process_resources,
  begin, update,
}

abbrev Returns {ℓ} : {A : Type ℓ} → Outcome A → Type 0
Returns (returned x) = Unit
Returns panicked = ⊥
Returns blocked = ⊥

Returns-bind {ℓ κ} :
    {A : Type ℓ} {B : Type κ} (o : Outcome A) (f : A → Outcome B)
    → Returns o
    → ((x : A) → Returns (f x))
    → Returns (o >>= f)
Returns-bind (returned x) f h k = k x
Returns-bind panicked f h k = absurd h
Returns-bind blocked f h k = absurd h

Returns-eq {ℓ} : {A : Type ℓ} (o : Outcome A) → Returns o → (x : A) × (o ≡ returned x)
Returns-eq (returned x) h = (x, refl)
Returns-eq panicked h = absurd h
Returns-eq blocked h = absurd h

-- A message that has a valid address if it is one of a healthy pod.
abbrev pub HasAddress : WorkloadApi → AddressMessage → Type 0
HasAddress api (workload_address w) =
    is_pod w.uid ≡ true → w.status ≡ api.healthy → get_workload_ips w.addresses ≢ []
HasAddress api (service_address s) = Unit
HasAddress api no_address = Unit

-- Every resource that unmarshals has such a message.
abbrev pub AllHaveAddress : WorkloadApi → List Resource → Type 0
AllHaveAddress api [] = Unit
AllHaveAddress api (res ∷ rest) =
    ((m : AddressMessage) → api.unmarshal res.body ≡ ok m → HasAddress api m)
    × AllHaveAddress api rest

module _ (env : Env) (api : WorkloadApi) where
  create_at_first-Returns :
      (a : AddressStore) (w : WorkloadMessage) (addrs : List Addr)
      → addrs ≢ []
      → Returns (create_at_first api a w addrs)
  unfolding create_at_first
  create_at_first-Returns a w [] h = absurd (h refl)
  create_at_first-Returns a w (addr ∷ _) h = tt

  create_new-Returns :
      (a : AddressStore) (w : WorkloadMessage) (addrs : List Addr)
      → Returns (create_new api a w addrs)
  unfolding create_new create_at_first
  create_new-Returns a w [] = elim (Bool-cases (is_empty w.services)) [
    | inl e ↦ rw e tt
    | inr e ↦ rw e tt
  ]
  create_new-Returns a w (addr ∷ rest) = elim (Bool-cases (is_empty w.services)) [
    | inl e ↦ rw e tt
    | inr e ↦ rw e tt
  ]

  update_workload-Returns :
      (a : AddressStore) (w : WorkloadMessage)
      → (w.status ≡ api.healthy → get_workload_ips w.addresses ≢ [])
      → Returns (update_workload api a w)
  unfolding update_workload
  update_workload-Returns a w h = elim (Bool-cases (w.status == api.healthy)) [
    | inr e ↦ rw (e, update_workload) tt
    | inl e ↦
        rw (e, update_workload)
          (elim (Option-cases (lookup w.uid a.workload_map)) [
            | inl n ↦
                rw (n, update_workload) (create_new-Returns a w (get_workload_ips w.addresses))
            | inr (old, n) ↦
                rw (n, update_workload)
                  (create_at_first-Returns a w (get_workload_ips w.addresses) (h (ground arith)))
          ])
  ]

  process_workload-Returns :
      (pr : Progress) (w : WorkloadMessage)
      → HasAddress api (workload_address w)
      → Returns (process_workload env api pr w)
  unfolding process_workload
  process_workload-Returns pr w h = elim (Bool-cases (is_pod w.uid)) [
    | inr e ↦ rw (e, process_workload) tt
    | inl e ↦
        rw (e, process_workload)
          (elim (Bool-cases (w.status == api.healthy)) [
            | inr f ↦ rw (f, process_workload) tt
            | inl f ↦
                rw (f, process_workload)
                  (Returns-bind (update_workload api pr.store w) _
                    (update_workload-Returns pr.store w (h e)) (λ r. tt))
          ])
  ]

  process_address-Returns :
      (pr : Progress) (m : AddressMessage)
      → HasAddress api m
      → Returns (process_address env api pr m)
  unfolding process_address
  process_address-Returns pr (workload_address w) h = process_workload-Returns pr w h
  process_address-Returns pr (service_address s) h = tt
  process_address-Returns pr no_address h = tt

  process_resource-Returns :
      (pr : Progress) (res : Resource) (u : Result AddressMessage)
      → api.unmarshal res.body ≡ u
      → ((m : AddressMessage) → u ≡ ok m → HasAddress api m)
      → Returns (process_resource env api pr res)
  unfolding process_resource
  process_resource-Returns pr res (err e) q h = rw (q, process_resource) tt
  process_resource-Returns pr res (ok m) q h =
      rw (q, process_resource) (process_address-Returns pr m (h m refl))

  process_resources-Returns :
      (pr : Progress) (rs : List Resource)
      → AllHaveAddress api rs
      → Returns (process_resources env api pr rs)
  unfolding process_resources
  process_resources-Returns pr [] h = tt
  process_resources-Returns pr (res ∷ rest) h =
      Returns-bind (process_resource env api pr res) _
        (process_resource-Returns pr res (api.unmarshal res.body) refl h.0)
        (λ pr'. process_resources-Returns pr' rest h.1)

-- `Update` returns, from every state in which the mutex is free, if each healthy pod among the
-- messages has a valid address.
pub update_returns :
    (env : Env) (api : WorkloadApi) (a : AddressStore) (rs : List Resource)
    → a.locked ≡ false
    → AllHaveAddress api rs
    → (u : Updated) × (update env api a rs ≡ returned u)
update_returns env api a rs free h = Returns-eq (update env api a rs) (
    unfold update in
    rw (free, update)
      (Returns-bind (process_resources env api (begin a) rs) _
        (process_resources-Returns env api (begin a) rs h) (λ pr. tt)))

update_workload_panics :
    (api : WorkloadApi) (a : AddressStore) (w : WorkloadMessage) (old : Workload)
    → w.status ≡ api.healthy
    → lookup w.uid a.workload_map ≡ some old
    → get_workload_ips w.addresses ≡ []
    → update_workload api a w ≡ panicked
unfolding update_workload create_at_first
update_workload_panics api a w old healthy known empty = ground arith

-- Where the mutex is free, `Update` panics if its first message is one of a healthy pod that the
-- store knows and that has no valid address left.
pub update_panics :
    (env : Env) (api : WorkloadApi) (a : AddressStore) (res : Resource) (rest : List Resource)
    (w : WorkloadMessage) (old : Workload)
    → a.locked ≡ false
    → api.unmarshal res.body ≡ ok (workload_address w)
    → is_pod w.uid ≡ true
    → w.status ≡ api.healthy
    → lookup w.uid a.workload_map ≡ some old
    → get_workload_ips w.addresses ≡ []
    → update env api a (res ∷ rest) ≡ panicked
unfolding update process_resources process_resource process_address process_workload
update_panics env api a res rest w old free message pod healthy known empty =
    ground
      (arith, update_workload_panics api (record a { locked = true }) w old healthy known empty)
