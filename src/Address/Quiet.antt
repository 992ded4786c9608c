-- ===== src/Address/Quiet.antt =====
-- What writes configuration files leaves the maps of the address store as they are.
use notyetanotherenvoybacken.Common.{
  String, Bool, true, false, ◌≡◌, refl, ◌∙◌, List, [], ◌∷◌, lookup, contains, Option-cases, inl,
  inr, Bool-cases,
}
use notyetanotherenvoybacken.Nginx.{Env, Manager}
use notyetanotherenvoybacken.Nginx.Directive.{Directives, nil, cons}
use notyetanotherenvoybacken.Address.State.{WorkloadApi, Service, AddressStore}
use notyetanotherenvoybacken.Address.Config.{
  write_servers, update_service_config, delete_service_config,
}
use notyetanotherenvoybacken.Address.Update.{refresh_active, refresh_one, refresh, reload_if}

-- All but the manager is equal.
pub record SameBook (a b : AddressStore) : Type 0 where
  pub locked_eq : b.locked ≡ a.locked
  pub services_eq : b.service_map ≡ a.service_map
  pub workloads_eq : b.workload_map ≡ a.workload_map
  pub active_eq : b.active_services ≡ a.active_services
  pub callback_eq : b.has_callback ≡ a.has_callback

pub SameBook-refl : (a : AddressStore) → SameBook a a
SameBook-refl a = record {
  locked_eq = refl;
  services_eq = refl;
  workloads_eq = refl;
  active_eq = refl;
  callback_eq = refl;
}

pub SameBook-trans : {a b c : AddressStore} → SameBook a b → SameBook b c → SameBook a c
SameBook-trans p q = record {
  locked_eq = q.locked_eq ∙ p.locked_eq;
  services_eq = q.services_eq ∙ p.services_eq;
  workloads_eq = q.workloads_eq ∙ p.workloads_eq;
  active_eq = q.active_eq ∙ p.active_eq;
  callback_eq = q.callback_eq ∙ p.callback_eq;
}

pub SameBook-nginx : (a : AddressStore) (m : Manager) → SameBook a (record a { nginx = m })
SameBook-nginx a m = record {
  locked_eq = refl;
  services_eq = refl;
  workloads_eq = refl;
  active_eq = refl;
  callback_eq = refl;
}

module _ (env : Env) (api : WorkloadApi) where
  write_servers-SameBook :
      (a : AddressStore) (key : String) (svc : Service) (servers : Directives)
      → SameBook a (write_servers env api a key svc servers).1
  unfolding write_servers
  write_servers-SameBook a key svc nil = SameBook-refl a
  write_servers-SameBook a key svc (cons d ds) = SameBook-nginx a _

  pub update_service_config-SameBook :
      (a : AddressStore) (key : String) → SameBook a (update_service_config env api a key).1
  unfolding update_service_config
  update_service_config-SameBook a key = elim (Option-cases (lookup key a.service_map)) [
    | inl e ↦ rw (e, update_service_config) (SameBook-refl a)
    | inr (svc, e) ↦ rw (e, update_service_config) (write_servers-SameBook a key svc _)
  ]

  pub refresh_one-SameBook :
      (a : AddressStore) (needs : Bool) (key : String)
      → SameBook a (refresh_one env api (a, needs) key).0
  unfolding refresh_one refresh_active
  refresh_one-SameBook a needs key = elim (Bool-cases (contains key a.active_services)) [
    | inl e ↦ rw (e, refresh_one) (update_service_config-SameBook a key)
    | inr e ↦ rw (e, refresh_one) (SameBook-refl a)
  ]

  pub refresh-SameBook :
      (a : AddressStore) (needs : Bool) (keys : List String)
      → SameBook a (refresh env api (a, needs) keys).0
  unfolding refresh
  refresh-SameBook a needs [] = SameBook-refl a
  refresh-SameBook a needs (key ∷ keys) =
      let s = refresh_one env api (a, needs) key in
      SameBook-trans (refresh_one-SameBook a needs key) (refresh-SameBook s.0 s.1 keys)

pub delete_service_config-SameBook :
    (env : Env) (a : AddressStore) (key : String) → SameBook a (delete_service_config env a key).1
unfolding delete_service_config
delete_service_config-SameBook env a key = SameBook-nginx a _

pub reload_if-SameBook :
    (env : Env) (a : AddressStore) (needs : Bool) → SameBook a (reload_if env (a, needs)).1
unfolding reload_if
reload_if-SameBook env a true = SameBook-nginx a _
reload_if-SameBook env a false = SameBook-refl a
