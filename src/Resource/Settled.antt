-- ===== src/Resource/Settled.antt =====
-- resource.go: what the loops over server files leave, and when they return.
use mathlib.Core.Path.{subst}
use notyetanotherenvoybacken.Resource.Remove.{
  has_routes, drop_server_files, settle_server, settle_servers,
}
use notyetanotherenvoybacken.Common.{
  sym, Ends, Ends-bind, Ends-map, Ends-Returns, Returns, ℕ, String, refl, inl, inr, Option, none,
  some, List, [], ◌∷◌, lookup, Option-cases, Bool-cases, string_eq,
}
use notyetanotherenvoybacken.Nginx.{Env}
use notyetanotherenvoybacken.Resource.Messages.{Bind, Listener}
use notyetanotherenvoybacken.Resource.State.{ResourceStore, values_of}
use notyetanotherenvoybacken.Resource.Names.{parse_server_file_key}
use notyetanotherenvoybacken.Resource.Book.{matching_routes}
use notyetanotherenvoybacken.Resource.Server.{write_server, generate_found, generate_server_file}
use notyetanotherenvoybacken.Resource.Stale.{
  NoStale, NoStale-Finds, OnlyFiles, OnlyFiles-trans, matching_routes-with_files, Finds,
}

module _ (env : Env) (https : ℕ) (bad : Type 0) where
  write_server-OnlyFiles :
      (r : ResourceStore) (key : String) (parts : String × String) (l : Listener) (bind : Bind)
      (keys : List String)
      → OnlyFiles r (write_server env https r key parts l bind keys).1
  unfolding write_server
  write_server-OnlyFiles r key parts l bind keys = (_, _, refl)

  generate_found-Ends :
      (r : ResourceStore) (key : String) (parts : String × String) (l : Option Listener)
      → Finds bad r
      → Ends bad (λ x. OnlyFiles r x.1) (generate_found env https r key parts l)
  unfolding generate_found
  generate_found-Ends r key parts none finds = (r.server_files, r.nginx, refl)
  generate_found-Ends r key parts (some l) finds = elim (Option-cases (lookup l.bind_key r.binds)) [
    | inl n ↦ rw (n, generate_found) (r.server_files, r.nginx, refl)
    | inr (bind, n) ↦
        rw (n, generate_found)
          (Ends-bind bad (λ keys. Unit {0}) _
            (matching_routes r (values_of r.listener_to_routes parts.0) parts.1) _
            (finds parts.0 parts.1) (λ keys h. write_server-OnlyFiles r key parts l bind keys))
  ]

  -- Where the routes are found, `generateServerFile` returns; it changes only the server files.
  pub generate_server_file-Ends :
      (r : ResourceStore) (key : String)
      → Finds bad r
      → Ends bad (λ x. OnlyFiles r x.1) (generate_server_file env https r key)
  unfolding generate_server_file
  generate_server_file-Ends r key finds =
      generate_found-Ends r key (parse_server_file_key key) _ finds

  settle_server-Ends :
      (r : ResourceStore) (key : String)
      → Finds bad r
      → Ends bad (OnlyFiles r) (settle_server env https r key)
  unfolding settle_server drop_server_files
  settle_server-Ends r key finds = elim (Bool-cases (has_routes (lookup key r.server_files))) [
    | inl e ↦
        rw (e, settle_server)
          (Ends-bind bad (λ x. OnlyFiles r x.1) (OnlyFiles r) (generate_server_file env https r key)
            _ (generate_server_file-Ends r key finds) (λ x h. h))
    | inr e ↦ rw (e, settle_server) (_, _, refl)
  ]

  pub OnlyFiles-Finds : (r b : ResourceStore) → OnlyFiles r b → Finds bad r → Finds bad b
  OnlyFiles-Finds r b (f, m, e) finds = subst (Finds bad) (sym e) λ listener_key hostname.
      rw (matching_routes-with_files r f m (values_of r.listener_to_routes listener_key) hostname)
        (finds listener_key hostname)

  pub settle_servers-Ends :
      (r : ResourceStore) (keys : List String)
      → Finds bad r
      → Ends bad (OnlyFiles r) (settle_servers env https r keys)
  unfolding settle_servers
  settle_servers-Ends r [] finds = (r.server_files, r.nginx, refl)
  settle_servers-Ends r (key ∷ keys) finds =
      Ends-bind bad (OnlyFiles r) _ (settle_server env https r key) _
        (settle_server-Ends r key finds)
        (λ b same.
          Ends-map bad (OnlyFiles b) (OnlyFiles r) (settle_servers env https b keys)
            (settle_servers-Ends b keys (OnlyFiles-Finds r b same finds))
            (λ c more. OnlyFiles-trans r b c same more))

-- Without a stale listing, `generateServerFile` returns.
pub generate_server_file-Returns :
    (env : Env) (https : ℕ) (r : ResourceStore) (key : String)
    → NoStale r
    → Returns (λ x. OnlyFiles r x.1) (generate_server_file env https r key)
generate_server_file-Returns env https r key fresh =
    Ends-Returns (λ x. OnlyFiles r x.1) (generate_server_file env https r key)
      (generate_server_file-Ends env https ⊥ r key (NoStale-Finds r fresh))
