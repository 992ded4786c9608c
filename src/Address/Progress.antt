-- ===== src/Address/Progress.antt =====
-- What each resource of an `Update` preserves, the loop over the resources preserves.
use notyetanotherenvoybacken.Common.{
  String, true, false, ◌≡◌, refl, ◌⊎◌, inl, inr, none, List, [], ◌∷◌, lookup, ok, err, Result,
  Option-cases, Bool-cases, is_empty, ◌||◌, ◌==◌, nat_eq,
}
use notyetanotherenvoybacken.Net.{Addr}
use notyetanotherenvoybacken.Nginx.{Env}
use notyetanotherenvoybacken.Address.State.{
  PortMessage, WorkloadMessage, ServiceMessage, AddressMessage, workload_address, service_address,
  no_address, Resource, WorkloadApi, AddressStore, is_pod, get_workload_ips,
}
use notyetanotherenvoybacken.Address.Workloads.{
  Outcome, returned, panicked, blocked, Reply, create_workload, create_at_first, create_new,
  update_workload,
}
use notyetanotherenvoybacken.Address.Update.{
  Progress, ◌>>=◌, forget_workload, after_update, process_port, process_ports, process_workload,
  process_address, process_resource, process_resources, Updated, begin, conclude, update,
}
use notyetanotherenvoybacken.Address.Locked.{with_lock}

-- The predicate holds of what a call returns, if it returns.
abbrev pub IfReturned {ℓ} : {A : Type ℓ} → (A → Type 0) → Outcome A → Type 0
IfReturned P (returned x) = P x
IfReturned P panicked = Unit
IfReturned P blocked = Unit

pub IfReturned-bind {ℓ κ} :
    {A : Type ℓ} {B : Type κ} (P : A → Type 0) (Q : B → Type 0) (o : Outcome A) (f : A → Outcome B)
    → IfReturned P o
    → ((x : A) → P x → IfReturned Q (f x))
    → IfReturned Q (o >>= f)
IfReturned-bind P Q (returned x) f h k = k x h
IfReturned-bind P Q panicked f h k = tt
IfReturned-bind P Q blocked f h k = tt

pub IfReturned-eq {ℓ} :
    {A : Type ℓ} (P : A → Type 0) (o : Outcome A) (x : A) → o ≡ returned x → IfReturned P o → P x
IfReturned-eq P (returned y) x e h = rw (← e_inj) h
  where
    e_inj : y ≡ x
    e_inj = cc
IfReturned-eq P panicked x e h = cc
IfReturned-eq P blocked x e h = cc

pub IfReturned-both {ℓ} :
    {A : Type ℓ} (P Q : A → Type 0) (o : Outcome A)
    → IfReturned P o
    → IfReturned Q o
    → IfReturned (λ x. P x × Q x) o
IfReturned-both P Q (returned x) p q = (p, q)
IfReturned-both P Q panicked p q = tt
IfReturned-both P Q blocked p q = tt

-- The results of `updateWorkload`: a refusal that changes nothing, or the workload created anew.
abbrev pub Recorded : WorkloadApi → AddressStore → WorkloadMessage → AddressStore × Reply → Type 0
Recorded api a w r =
    ((reason : String) × (r ≡ (a, (false, reason, none))))
    ⊎ ((addr : Addr) × (r ≡ (create_workload api a w addr, (true, "", none))))

module _ (api : WorkloadApi) (a : AddressStore) (w : WorkloadMessage) where
  create_at_first-Recorded :
      (addrs : List Addr) → IfReturned (Recorded api a w) (create_at_first api a w addrs)
  unfolding create_at_first
  create_at_first-Recorded [] = tt
  create_at_first-Recorded (addr ∷ _) = inr (addr, refl)

  create_new-Recorded :
      (addrs : List Addr) → IfReturned (Recorded api a w) (create_new api a w addrs)
  unfolding create_new
  create_new-Recorded addrs = elim (Bool-cases (is_empty w.services || is_empty addrs)) [
    | inl e ↦ rw (e, create_new) (inl (_, refl))
    | inr e ↦ rw (e, create_new) (create_at_first-Recorded addrs)
  ]

  pub update_workload-Recorded : IfReturned (Recorded api a w) (update_workload api a w)
  unfolding update_workload
  update_workload-Recorded = elim (Bool-cases (w.status == api.healthy)) [
    | inr e ↦ rw (e, update_workload) (inl (_, refl))
    | inl e ↦
        rw (e, update_workload)
          (elim (Option-cases (lookup w.uid a.workload_map)) [
            | inl n ↦ rw (n, update_workload) (create_new-Recorded (get_workload_ips w.addresses))
            | inr (old, n) ↦
                rw (n, update_workload) (create_at_first-Recorded (get_workload_ips w.addresses))
          ])
  ]

after_update_refused :
    (env : Env) (pr : Progress) (w : WorkloadMessage) (reason : String)
    → after_update env pr w (pr.store, (false, reason, none)) ≡ pr
unfolding after_update
after_update_refused env pr w reason = refl

module _ (env : Env) (api : WorkloadApi) (P : Progress → Type 0)
    (on_forget : (pr : Progress) (uid : String) → P pr → P (forget_workload env pr uid))
    (on_create : (pr : Progress) (w : WorkloadMessage) (addr : Addr) (reason : String)
      → P pr
      → P (after_update env pr w (create_workload api pr.store w addr, (true, reason, none))))
    (on_port : (s : ServiceMessage) (pr : Progress) (p : PortMessage)
      → P pr
      → P (process_port env s pr p)) where
  process_ports-keeps :
      (s : ServiceMessage) (pr : Progress) (ps : List PortMessage)
      → P pr
      → P (process_ports env s pr ps)
  unfolding process_ports
  process_ports-keeps s pr [] h = h
  process_ports-keeps s pr (p ∷ ps) h =
      process_ports-keeps s (process_port env s pr p) ps (on_port s pr p h)

  after_update-keeps :
      (pr : Progress) (w : WorkloadMessage) (r : AddressStore × Reply)
      → P pr
      → Recorded api pr.store w r
      → P (after_update env pr w r)
  after_update-keeps pr w r h (inl (reason, e)) = rw (e, after_update_refused env pr w reason) h
  after_update-keeps pr w r h (inr (addr, e)) = rw e (on_create pr w addr "" h)

  process_workload-keeps :
      (pr : Progress) (w : WorkloadMessage) → P pr → IfReturned P (process_workload env api pr w)
  unfolding process_workload
  process_workload-keeps pr w h = elim (Bool-cases (is_pod w.uid)) [
    | inr e ↦ rw (e, process_workload) h
    | inl e ↦
        rw (e, process_workload)
          (elim (Bool-cases (w.status == api.healthy)) [
            | inr f ↦ rw (f, process_workload) (on_forget pr w.uid h)
            | inl f ↦
                rw (f, process_workload)
                  (IfReturned-bind (Recorded api pr.store w) P (update_workload api pr.store w) _
                    (update_workload-Recorded api pr.store w)
                    (λ r rec. after_update-keeps pr w r h rec))
          ])
  ]

  process_address-keeps :
      (pr : Progress) (m : AddressMessage) → P pr → IfReturned P (process_address env api pr m)
  unfolding process_address
  process_address-keeps pr (workload_address w) h = process_workload-keeps pr w h
  process_address-keeps pr (service_address s) h = process_ports-keeps s pr s.ports h
  process_address-keeps pr no_address h = h

  process_resource-keeps :
      (pr : Progress) (res : Resource) → P pr → IfReturned P (process_resource env api pr res)
  unfolding process_resource
  process_resource-keeps pr res h = go (api.unmarshal res.body) refl
    where
      go :
          (u : Result AddressMessage)
          → api.unmarshal res.body ≡ u
          → IfReturned P (process_resource env api pr res)
      go (err e) q = rw (q, process_resource) h
      go (ok m) q = rw (q, process_resource) (process_address-keeps pr m h)

  pub process_resources-keeps :
      (pr : Progress) (rs : List Resource) → P pr → IfReturned P (process_resources env api pr rs)
  unfolding process_resources
  process_resources-keeps pr [] h = h
  process_resources-keeps pr (res ∷ rest) h =
      IfReturned-bind P P (process_resource env api pr res) _ (process_resource-keeps pr res h)
        (λ pr' h'. process_resources-keeps pr' rest h')

-- `Update` from what holds after its loop to what holds of its result.
pub update-IfReturned :
    (env : Env) (api : WorkloadApi) (a : AddressStore) (rs : List Resource) (P : Progress → Type 0)
    (Q : Updated → Type 0)
    → IfReturned P (process_resources env api (begin a) rs)
    → ((pr : Progress) → P pr → Q (conclude env api pr))
    → IfReturned Q (update env api a rs)
unfolding update
update-IfReturned env api a rs P Q h k = elim (Bool-cases a.locked) [
  | inl e ↦ rw (e, update) tt
  | inr e ↦ rw (e, update) (IfReturned-bind P Q (process_resources env api (begin a) rs) _ h k)
]

-- A handler with a deferred unlock, from what its body leaves.
pub with_lock-IfReturned {ℓ} :
    {A : Type ℓ} (P : A × AddressStore → Type 0) (a : AddressStore)
    (f : AddressStore → A × AddressStore)
    → P (
      (f (record a { locked = true })).0,
      record (f (record a { locked = true })).1 { locked = false },
    )
    → IfReturned P (with_lock a f)
unfolding with_lock
with_lock-IfReturned P a f h = elim (Bool-cases a.locked) [
  | inl e ↦ rw (e, with_lock) tt
  | inr e ↦ rw (e, with_lock) h
]
