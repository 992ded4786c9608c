-- ===== src/Address/Rewrites.antt =====
-- The loop of `Update` that writes the files of the affected active services.
use mathlib.Core.Logic.{if_neg}
use mathlib.Core.Option.{none-ne-some}
use notyetanotherenvoybacken.Common.{
  ℕ, String, Bool, true, ◌≡◌, ◌≢◌, refl, ◌∙◌, ◌⊎◌, inl, inr, none, some, List, [], ◌∷◌, ok,
  Bool-cases, Option-cases, lookup, contains, string_dec, string_eq,
}
use notyetanotherenvoybacken.Nginx.{Env, Manager, write_config, write_text}
use notyetanotherenvoybacken.Nginx.Directive.{Directives, nil, cons}
use notyetanotherenvoybacken.Address.State.{WorkloadApi, Service, AddressStore}
use notyetanotherenvoybacken.Address.Config.{endpoint_file, write_servers, update_service_config}
use notyetanotherenvoybacken.Address.Update.{refresh_active, refresh_one, refresh}
use notyetanotherenvoybacken.Address.Quiet.{SameBook, refresh_one-SameBook}
use notyetanotherenvoybacken.Address.Files.{
  wanted_config, IsWritten, update_service_config-IsWritten, update_service_config_frame,
}

-- Every configuration builds and every write succeeds.
pub record Reliable (env : Env) : Type 0 where
  pub builds : (config : Directives) → (text : String) × (env.build config ≡ ok text)
  pub writes : (n : ℕ) (f text : String) → env.write_file n f text ≡ none

-- No other active service has the same file.
abbrev pub OwnsFile : String → AddressStore → Type 0
OwnsFile key a =
    (k : String)
    → contains k a.active_services ≡ true
    → endpoint_file key ≡ endpoint_file k
    → k ≡ key

pub wanted_config-maps :
    (env : Env) (api : WorkloadApi) (a b : AddressStore) (key : String)
    → b.service_map ≡ a.service_map
    → b.workload_map ≡ a.workload_map
    → wanted_config env api b key ≡ wanted_config env api a key
wanted_config-maps env api a b key p q = rw (p, q)

wanted_config-SameBook :
    (env : Env) (api : WorkloadApi) {a b : AddressStore} (key : String)
    → SameBook a b
    → wanted_config env api b key ≡ wanted_config env api a key
wanted_config-SameBook env api {a} {b} key s =
    wanted_config-maps env api a b key s.services_eq s.workloads_eq

module _ (env : Env) (ok_env : Reliable env) where
  pub write_config-none :
      (m : Manager) (f : String) (c : Directives) → (write_config env m f c).0 ≡ none
  unfolding write_config write_text
  write_config-none m f c =
      let (text, e) = ok_env.builds c in
      rw (e, write_config) (unfold write_text in rw (ok_env.writes m.clock f text, write_text))

  pub write_servers-none :
      (api : WorkloadApi) (a : AddressStore) (key : String) (svc : Service) (servers : Directives)
      → (write_servers env api a key svc servers).0 ≡ none
  unfolding write_servers
  write_servers-none api a key svc nil = refl
  write_servers-none api a key svc (cons d ds) = write_config-none a.nginx _ _

module _ (env : Env) (api : WorkloadApi) (ok_env : Reliable env) (key : String)
    (config : Directives) where
  update_service_config-none :
      (a : AddressStore)
      → wanted_config env api a key ≡ some config
      → (update_service_config env api a key).0 ≡ none
  unfolding update_service_config
  update_service_config-none a h = elim (Option-cases (lookup key a.service_map)) [
    | inl n ↦ absurd (none-ne-some _ (rw (n, wanted_config) at h))
    | inr (svc, n) ↦ rw (n, update_service_config) (write_servers-none env ok_env api a key svc _)
  ]

  -- The state in which the file is due: the service is active and has a configuration.
  pub record IsDue (a : AddressStore) : Type 0 where
    pub active : contains key a.active_services ≡ true
    pub wanted : wanted_config env api a key ≡ some config

  SameBook-IsDue : {a b : AddressStore} → SameBook a b → IsDue a → IsDue b
  SameBook-IsDue s v = record {
    active = rw s.active_eq v.active;
    wanted = wanted_config-SameBook env api key s ∙ v.wanted;
  }

  refresh_one_writes :
      (a : AddressStore) (needs : Bool)
      → IsDue a
      → IsWritten env (refresh_one env api (a, needs) key).0 key config
  unfolding refresh_one refresh_active
  refresh_one_writes a needs v =
      rw (v.active, refresh_one)
        (update_service_config-IsWritten env api a key config v.wanted
          (update_service_config-none a v.wanted))

  refresh_one_frame :
      (a : AddressStore) (needs : Bool) (k : String)
      → endpoint_file key ≢ endpoint_file k
      → lookup (endpoint_file key) (refresh_one env api (a, needs) k).0.nginx.files
        ≡ lookup (endpoint_file key) a.nginx.files
  unfolding refresh_one refresh_active
  refresh_one_frame a needs k h = elim (Bool-cases (contains k a.active_services)) [
    | inl e ↦ rw (e, refresh_one) (update_service_config_frame env api a k (endpoint_file key) h)
    | inr e ↦ rw (e, refresh_one)
  ]

  SameBook-OwnsFile : {a b : AddressStore} → SameBook a b → OwnsFile key a → OwnsFile key b
  SameBook-OwnsFile s v k h = v k (rw s.active_eq at h)

  refresh_one_keeps :
      (a : AddressStore) (needs : Bool) (k : String)
      → IsDue a
      → OwnsFile key a
      → IsWritten env a key config
      → IsWritten env (refresh_one env api (a, needs) k).0 key config
  unfolding refresh_one
  refresh_one_keeps a needs k due owns (text, built, stands) = elim (string_dec k key) [
    | yes e ↦ rw e (refresh_one_writes a needs due)
    | no n ↦ elim (Bool-cases (contains k a.active_services)) [
      | inl act ↦ (text, built, refresh_one_frame a needs k (λ same. n (owns k act same)) ∙ stands)
      | inr idle ↦ rw (idle, refresh_one) (text, built, stands)
    ]
  ]

  pub refresh_writes :
      (a : AddressStore) (needs : Bool) (keys : List String)
      → IsDue a
      → OwnsFile key a
      → (contains key keys ≡ true) ⊎ IsWritten env a key config
      → IsWritten env (refresh env api (a, needs) keys).0 key config
  unfolding refresh contains
  refresh_writes a needs [] due owns (inl h) = absurd cc
  refresh_writes a needs [] due owns (inr w) = w
  refresh_writes a needs (k ∷ keys) due owns h =
      let same = refresh_one-SameBook env api a needs k in
      refresh_writes (refresh_one env api (a, needs) k).0 (refresh_one env api (a, needs) k).1 keys
        (SameBook-IsDue same due) (SameBook-OwnsFile same owns) (next h)
    where
      next :
          (contains key (k ∷ keys) ≡ true) ⊎ IsWritten env a key config
          → (contains key keys ≡ true)
            ⊎ IsWritten env (refresh_one env api (a, needs) k).0 key config
      next (inr w) = inr (refresh_one_keeps a needs k due owns w)
      next (inl c) = elim (string_dec key k) [
        | yes e ↦ inr (rw (← e) (refresh_one_writes a needs due))
        | no n ↦ inl (rw (if_neg _ n) at c)
      ]
