-- ===== src/Address/Lock.antt =====
-- The mutex of the address store, the active services, and whom `Update` notifies.
use notyetanotherenvoybacken.Common.{
  String, Bool, true, false, ◌≡◌, refl, ◌∙◌, Option, none, some, List, [], ◌∷◌, Error, arith,
  Option-cases, inl, inr, lookup, contains, Set, contains-add, contains-perm, string_eq,
}
use notyetanotherenvoybacken.Net.{Addr}
use notyetanotherenvoybacken.Nginx.{Env}
use notyetanotherenvoybacken.Address.State.{
  PortMessage, WorkloadMessage, ServiceMessage, Resource, WorkloadApi, AddressStore,
}
use notyetanotherenvoybacken.Address.Workloads.{
  returned, blocked, create_workload, remove_workload_from_services,
}
use notyetanotherenvoybacken.Address.Update.{
  Progress, Updated, forget_workload, note_one, note_services, after_update, process_port,
  process_resources, refresh, reload_if, finish_update, conclude, begin, update,
}
use notyetanotherenvoybacken.Address.Locked.{
  remove_resources, ensure_upstream_file, delete_upstream_file, service_exists,
}
use notyetanotherenvoybacken.Address.Quiet.{SameBook-trans, refresh-SameBook, reload_if-SameBook}
use notyetanotherenvoybacken.Address.Progress.{
  IfReturned, IfReturned-eq, update-IfReturned, process_resources-keeps,
}

-- What stays as it was at the start of `Update`, and that the newly available are active.
pub record Steady (a : AddressStore) (pr : Progress) : Type 0 where
  pub held : pr.store.locked ≡ true
  pub active : pr.store.active_services ≡ a.active_services
  pub callback : pr.store.has_callback ≡ a.has_callback
  pub newly_active : (k : String) → contains k pr.newly ≡ true → contains k a.active_services ≡ true

module _ (env : Env) (api : WorkloadApi) (a : AddressStore) where
  forget_workload-Steady :
      (pr : Progress) (uid : String) → Steady a pr → Steady a (forget_workload env pr uid)
  unfolding forget_workload remove_workload_from_services
  forget_workload-Steady pr uid v = elim (Option-cases (lookup uid pr.store.workload_map)) [
    | inl e ↦ record {
      held = rw (e, remove_workload_from_services) v.held;
      active = rw (e, remove_workload_from_services) v.active;
      callback = rw (e, remove_workload_from_services) v.callback;
      newly_active = v.newly_active;
    }
    | inr (w, e) ↦ record {
      held = rw (e, remove_workload_from_services) v.held;
      active = rw (e, remove_workload_from_services) v.active;
      callback = rw (e, remove_workload_from_services) v.callback;
      newly_active = v.newly_active;
    }
  ]

  note_one-Steady : (pr : Progress) (key : String) → Steady a pr → Steady a (note_one env pr key)
  unfolding note_one
  note_one-Steady pr key v = record {
    held = v.held;
    active = v.active;
    callback = v.callback;
    newly_active = λ k h. ground (arith, contains-add k key pr.newly, v.newly_active k, v.active);
  }

  note_services-Steady :
      (pr : Progress) (keys : List String) → Steady a pr → Steady a (note_services env pr keys)
  unfolding note_services
  note_services-Steady pr [] v = v
  note_services-Steady pr (key ∷ keys) v =
      note_services-Steady (note_one env pr key) keys (note_one-Steady pr key v)

  after_update-Steady :
      (pr : Progress) (w : WorkloadMessage) (addr : Addr) (reason : String)
      → Steady a pr
      → Steady a (after_update env pr w (create_workload api pr.store w addr, (true, reason, none)))
  unfolding after_update create_workload
  after_update-Steady pr w addr reason v = note_services-Steady _ _ (record {
    held = v.held;
    active = v.active;
    callback = v.callback;
    newly_active = v.newly_active;
  })

  -- A Service message never adds to the newly available: the workloads that it finds, it keeps.
  newly-process_port :
      (s : ServiceMessage) (pr : Progress) (p : PortMessage)
      → (process_port env s pr p).newly ≡ pr.newly
  unfolding process_port
  newly-process_port s pr p = ground arith

  process_port-Steady :
      (s : ServiceMessage) (pr : Progress) (p : PortMessage)
      → Steady a pr
      → Steady a (process_port env s pr p)
  process_port-Steady s pr p v = record {
    held = unfold process_port in v.held;
    active = unfold process_port in v.active;
    callback = unfold process_port in v.callback;
    newly_active = λ k h. v.newly_active k (rw newly-process_port at h);
  }

  pub process_resources-Steady :
      (rs : List Resource) → IfReturned (Steady a) (process_resources env api (begin a) rs)
  unfolding contains
  process_resources-Steady rs =
      process_resources-keeps env api (Steady a) forget_workload-Steady after_update-Steady
        process_port-Steady (begin a) rs
        (record { held = refl; active = refl; callback = refl; newly_active = λ k h. cc })

  -- What `Update` leaves of the mutex, the active services and the callback, and whom it notifies.
  record Concluded (u : Updated) : Type 0 where
    released : u.error ≡ none → u.store.locked ≡ false
    kept : (e : Error) → u.error ≡ some e → u.store.locked ≡ true
    active : u.store.active_services ≡ a.active_services
    callback : u.store.has_callback ≡ a.has_callback
    notified_active :
        (k : String) → contains k u.notified ≡ true → contains k a.active_services ≡ true
    silent : (e : Error) → u.error ≡ some e → u.notified ≡ []

  finish_update-Concluded :
      (newly : Set) (r : Option Error × AddressStore)
      → r.1.locked ≡ true
      → r.1.active_services ≡ a.active_services
      → r.1.has_callback ≡ a.has_callback
      → ((k : String) → contains k newly ≡ true → contains k a.active_services ≡ true)
      → Concluded (finish_update env newly r)
  unfolding finish_update contains
  finish_update-Concluded newly (some e, b) held act call new = record {
    released = λ h. cc;
    kept = λ e' h. held;
    active = act;
    callback = call;
    notified_active = λ k h. cc;
    silent = λ e' h. refl;
  }
  finish_update-Concluded newly (none, b) held act call new = record {
    released = λ h. refl;
    kept = λ e' h. cc;
    active = act;
    callback = call;
    notified_active = λ k h. ground (arith, contains-perm k (env.visits_perm newly), new k);
    silent = λ e' h. cc;
  }

  conclude-Concluded : (pr : Progress) → Steady a pr → Concluded (conclude env api pr)
  unfolding conclude
  conclude-Concluded pr v =
      let r : AddressStore × Bool = refresh env api (pr.store, false) (env.visits pr.affected) in
      let same =
        SameBook-trans (refresh-SameBook env api pr.store false (env.visits pr.affected))
          (reload_if-SameBook env r.0 r.1) in
      finish_update-Concluded pr.newly (reload_if env r) (same.locked_eq ∙ v.held)
        (same.active_eq ∙ v.active) (same.callback_eq ∙ v.callback) v.newly_active

  update-Concluded :
      (rs : List Resource) (u : Updated) → update env api a rs ≡ returned u → Concluded u
  update-Concluded rs u e = IfReturned-eq Concluded (update env api a rs) u e (
      update-IfReturned env api a rs (Steady a) Concluded (process_resources-Steady rs)
        conclude-Concluded)

-- Where `Update` returns an error, it calls the callback for no service.
pub update-silent :
    (env : Env) (api : WorkloadApi) (a : AddressStore) (rs : List Resource) (u : Updated)
    (e : Error)
    → update env api a rs ≡ returned u
    → u.error ≡ some e
    → u.notified ≡ []
update-silent env api a rs u e h p = (update-Concluded env api a rs u h).silent e p

abbrev pub IsDeaf : Env → WorkloadApi → AddressStore → Type 0
IsDeaf env api b =
    ((rs : List Resource) → update env api b rs ≡ blocked)
    × ((names : List String) → remove_resources env api b names ≡ blocked)
    × ((key : String) → ensure_upstream_file env api b key ≡ blocked)
    × ((key : String) → delete_upstream_file env b key ≡ blocked)
    × ((key : String) → service_exists b key ≡ blocked)

locked-IsDeaf :
    (env : Env) (api : WorkloadApi) (b : AddressStore) → b.locked ≡ true → IsDeaf env api b
unfolding update remove_resources ensure_upstream_file delete_upstream_file service_exists
locked-IsDeaf env api b h = (λ rs. rw h, λ names. rw h, λ key. rw h, λ key. rw h, λ key. rw h)

-- Where `Update` returns no error, the mutex is free afterwards. Where it returns an error, the
-- mutex stays held: every later call of `Update`, `Remove`, `EnsureUpstreamFile`,
-- `DeleteUpstreamFile` and `ServiceExists` waits for ever.
pub update_mutex :
    (env : Env) (api : WorkloadApi) (a : AddressStore) (rs : List Resource) (u : Updated)
    → update env api a rs ≡ returned u
    → (u.error ≡ none → u.store.locked ≡ false)
      × ((e : Error) → u.error ≡ some e → IsDeaf env api u.store)
update_mutex env api a rs u h =
    let c = update-Concluded env api a rs u h in
    (c.released, λ e p. locked-IsDeaf env api u.store (c.kept e p))

-- `Update` changes neither the set of active services nor the callback, and the keys that it calls
-- the callback with are active services.
pub update_notifies_active :
    (env : Env) (api : WorkloadApi) (a : AddressStore) (rs : List Resource) (u : Updated)
    → update env api a rs ≡ returned u
    → (u.store.active_services ≡ a.active_services)
      × (u.store.has_callback ≡ a.has_callback)
      × ((key : String) → contains key u.notified ≡ true → contains key a.active_services ≡ true)
update_notifies_active env api a rs u h =
    let c = update-Concluded env api a rs u h in (c.active, c.callback, c.notified_active)
