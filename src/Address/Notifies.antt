-- ===== src/Address/Notifies.antt =====
-- address.go: whom `Update` notifies when the first workload of a service arrives.
use notyetanotherenvoybacken.Common.{
  String, Bool, true, false, ◌≡◌, refl, ap, ◌∙◌, Option, none, some, List, [], ◌∷◌, Error, ok,
  arith, contains, Set, contains-add, contains-perm, Bool-cases, inl, inr, ◌==◌, string_eq, nat_eq,
  string_dec,
}
use notyetanotherenvoybacken.Nginx.{Env}
use notyetanotherenvoybacken.Address.State.{
  WorkloadMessage, workload_address, Resource, WorkloadApi, AddressStore, is_pod, serves,
}
use notyetanotherenvoybacken.Address.Workloads.{returned, update_workload}
use notyetanotherenvoybacken.Address.Update.{
  Progress, Updated, services_of, newly_available, note_one, note_services, after_update,
  process_workload, process_address, process_resource, process_resources, refresh, reload_if,
  finish_update, conclude, begin, update,
}
use notyetanotherenvoybacken.Address.Quiet.{SameBook-trans, refresh-SameBook, reload_if-SameBook}
use notyetanotherenvoybacken.Address.Progress.{IfReturned-eq}
use notyetanotherenvoybacken.Address.Affected.{contains-services_of}
use notyetanotherenvoybacken.Address.Preserved.{note_services-store}

module _ (env : Env) (key : String) where
  note_services-keeps :
      (pr : Progress) (keys : List String)
      → contains key pr.newly ≡ true
      → contains key (note_services env pr keys).newly ≡ true
  unfolding note_services note_one
  note_services-keeps pr [] h = h
  note_services-keeps pr (k ∷ ks) h =
      note_services-keeps (note_one env pr k) ks
        (elim (Bool-cases (newly_available env pr.store k)) [
          | inl e ↦ rw e (ground (arith, h, contains-add key k pr.newly))
          | inr e ↦ rw e h
        ])

  note_services-notes :
      (pr : Progress) (keys : List String)
      → contains key keys ≡ true
      → newly_available env pr.store key ≡ true
      → contains key (note_services env pr keys).newly ≡ true
  unfolding note_services note_one contains
  note_services-notes pr [] h n = cc
  note_services-notes pr (k ∷ ks) h n = elim (string_dec key k) [
    | yes e ↦
        note_services-keeps (note_one env pr k) ks
          (rw (← e) (rw n (ground (arith, contains-add key key pr.newly))))
    | no d ↦ note_services-notes (note_one env pr k) ks (ground (arith, h, d)) n
  ]

  finish_update_notifies :
      (newly : Set) (r : Option Error × AddressStore)
      → r.1.has_callback ≡ true
      → contains key newly ≡ true
      → (finish_update env newly r).error ≡ none
      → contains key (finish_update env newly r).notified ≡ true
  unfolding finish_update
  finish_update_notifies newly (some e, b) call new h = cc
  finish_update_notifies newly (none, b) call new h =
      rw call (contains-perm key (env.visits_perm newly) ∙ new)

  conclude_notifies :
      (api : WorkloadApi) (pr : Progress)
      → pr.store.has_callback ≡ true
      → contains key pr.newly ≡ true
      → (conclude env api pr).error ≡ none
      → contains key (conclude env api pr).notified ≡ true
  unfolding conclude
  conclude_notifies api pr call new =
      let r : AddressStore × Bool = refresh env api (pr.store, false) (env.visits pr.affected) in
      let same =
        SameBook-trans (refresh-SameBook env api pr.store false (env.visits pr.affected))
          (reload_if-SameBook env r.0 r.1) in
      finish_update_notifies pr.newly (reload_if env r) (same.callback_eq ∙ call) new

process_accepted :
    (env : Env) (api : WorkloadApi) (pr : Progress) (b : AddressStore) (w : WorkloadMessage)
    (reason : String)
    → is_pod w.uid ≡ true
    → w.status ≡ api.healthy
    → update_workload api pr.store w ≡ returned (b, (true, reason, none))
    → process_workload env api pr w ≡ returned (after_update env pr w (b, (true, reason, none)))
unfolding process_workload
process_accepted env api pr b w reason pod healthy accepted =
    let test : (w.status == api.healthy) ≡ true = ground (arith, healthy) in
    rw (process_workload, pod, test, accepted) refl

after_update-notes :
    (env : Env) (pr : Progress) (b : AddressStore) (w : WorkloadMessage) (reason key : String)
    → serves b.workload_map w.uid key ≡ true
    → newly_available env b key ≡ true
    → contains key (after_update env pr w (b, (true, reason, none))).newly ≡ true
unfolding after_update
after_update-notes env pr b w reason key served new =
    note_services-notes env key _ (env.visits (services_of b.workload_map w.uid))
      (contains-perm key (env.visits_perm (services_of b.workload_map w.uid))
        ∙ contains-services_of b.workload_map w.uid key
        ∙ served)
      new

-- Where the mutex is free and `updateWorkload` accepts the one message of an update, of a healthy pod,
-- an active service that then lists this pod alone is among those that `Update` calls the callback for,
-- if the callback is set and `Update` returns no error.
pub update_notifies :
    (env : Env) (api : WorkloadApi) (a b : AddressStore) (res : Resource) (w : WorkloadMessage)
    (reason key : String) (u : Updated)
    → a.locked ≡ false
    → api.unmarshal res.body ≡ ok (workload_address w)
    → is_pod w.uid ≡ true
    → w.status ≡ api.healthy
    → update_workload api (record a { locked = true }) w ≡ returned (b, (true, reason, none))
    → serves b.workload_map w.uid key ≡ true
    → newly_available env b key ≡ true
    → b.has_callback ≡ true
    → update env api a (res ∷ []) ≡ returned u
    → u.error ≡ none
    → contains key u.notified ≡ true
unfolding update process_resources process_resource process_address after_update
update_notifies env api a b res w reason key u free message pod healthy accepted served new call h =
    IfReturned-eq (λ v. v.error ≡ none → contains key v.notified ≡ true)
      (update env api a (res ∷ [])) u h
      (unfold update in
        rw
          (
            free,
            update,
            process_resources,
            process_resource,
            message,
            process_address,
            process_accepted env api (begin a) b w reason pod healthy accepted,
          )
          (conclude_notifies env key api _
            (ap (λ c. c.has_callback) (note_services-store env _ _) ∙ call)
            (after_update-notes env (begin a) b w reason key served new)))
