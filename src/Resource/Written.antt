-- ===== src/Resource/Written.antt =====
-- resource.go: what `generateServerFile` leaves behind.
use notyetanotherenvoybacken.Common.{
  ℕ, String, ◌≡◌, refl, ◌∙◌, Option, none, some, List, [], Error, ok, arith, returned, lookup,
  lookup-insert, Option-cases, inl, inr, string_eq, nat_eq,
}
use notyetanotherenvoybacken.Nginx.{Env, Manager}
use notyetanotherenvoybacken.Nginx.Directive.{Directives, nil, cons, block}
use notyetanotherenvoybacken.Nginx.Writes.{write_config-succeeds}
use notyetanotherenvoybacken.Resource.Names.{server_file, parse_server_file_key}
use notyetanotherenvoybacken.Resource.State.{Bind, Listener, ResourceStore, values_of}
use notyetanotherenvoybacken.Resource.Stale.{NoStale}
use notyetanotherenvoybacken.Resource.Server.{
  server_config, server_entry, write_block, write_server, generate_found, generate_server_file,
}
use notyetanotherenvoybacken.Resource.ServerBlock.{
  serving, IsServer, body_of, matching_routes-serving, body-IsServer,
}

-- What `generateServerFile` comes to: without the listener or its bind nothing changes; with both
-- the entry and, without an error, the file of the server are those of the listener's routes that
-- are for the hostname.
pub data Generated (env : Env) (https : ℕ) (r : ResourceStore) (key : String)
    : Option Error → ResourceStore → Type 0 where
  no_listener :
      lookup (parse_server_file_key key).0 r.listeners ≡ none → Generated env https r key none r
  no_bind :
      {l : Listener}
      → lookup (parse_server_file_key key).0 r.listeners ≡ some l
      → lookup l.bind_key r.binds ≡ none
      → Generated env https r key none r
  written :
      {l : Listener} {bind : Bind} {e : Option Error} {b : ResourceStore} {keys : List String}
      → lookup (parse_server_file_key key).0 r.listeners ≡ some l
      → lookup l.bind_key r.binds ≡ some bind
      → serving r
          (parse_server_file_key key).1
          (values_of r.listener_to_routes (parse_server_file_key key).0)
        ≡ keys
      → lookup key b.server_files
        ≡ some
            (server_entry bind l (parse_server_file_key key).0 (parse_server_file_key key).1 keys)
      → (e ≡ none
          → (body : Directives) × (text : String) × IsServer https bind l
              (parse_server_file_key key).0
              (parse_server_file_key key).1
              keys
              body
            × (env.build (cons (block "server" [] body) nil) ≡ ok text)
            × (lookup (server_file key) b.nginx.files ≡ some text))
      → b.routes ≡ r.routes
      → b.listener_to_routes ≡ r.listener_to_routes
      → Generated env https r key e b

module _ (env : Env) (https : ℕ) (r : ResourceStore) (key : String) where
  block_written :
      (config : Directives) (file : String) (before : Option Error × Manager)
      → (write_block env config file before).0 ≡ none
      → (text : String) × (env.build config ≡ ok text)
        × (lookup file (write_block env config file before).1.files ≡ some text)
  block_written config file (some e, m) h = cc
  block_written config file (none, m) h = write_config-succeeds env m file config h

  server_written :
      (l : Listener) (bind : Bind)
      → lookup (parse_server_file_key key).0 r.listeners ≡ some l
      → lookup l.bind_key r.binds ≡ some bind
      → (let keys =
            serving r
              (parse_server_file_key key).1
              (values_of r.listener_to_routes (parse_server_file_key key).0) in
          let done = write_server env https r key (parse_server_file_key key) l bind keys in
          Generated env https r key done.0 done.1)
  unfolding write_server server_config
  server_written l bind known bound =
      let parts = parse_server_file_key key in
      let keys = serving r parts.1 (values_of r.listener_to_routes parts.0) in
      written known bound refl (lookup-insert key key _ r.server_files ∙ ground arith)
        (λ h.
          let (text, built, stands) = block_written _ (server_file key) _ h in
          (
            body_of https bind l parts.0 parts.1 keys,
            text,
            body-IsServer https bind l parts.0 parts.1 keys,
            built,
            stands,
          ))
        refl refl

  -- Where no listing of a route is stale, `generateServerFile` returns. If the store has the listener
  -- of the key and its bind, it records the server with the routes of the listener that have no
  -- hostname, the key's, or a star, in the listener's order; and without an error the server's file
  -- is what crossplane builds from a block with the port, the hostname, the certificates and the
  -- files of exactly these routes. No route changes. Else it changes nothing.
  pub generate_server_file-Generated :
      NoStale r
      → (e : Option Error) × (b : ResourceStore) × (generate_server_file env https r key
          ≡ returned (e, b))
        × Generated env https r key e b
  unfolding generate_server_file generate_found
  generate_server_file-Generated fresh =
      let parts = parse_server_file_key key in
      elim (Option-cases (lookup parts.0 r.listeners)) [
        | inl n ↦ (none, r, rw (n, generate_server_file, generate_found) refl, no_listener n)
        | inr (l, known) ↦ elim (Option-cases (lookup l.bind_key r.binds)) [
          | inl n ↦
              (none, r, rw (known, generate_server_file, generate_found, n) refl, no_bind known n)
          | inr (bind, bound) ↦ (
            _,
            _,
            rw
                (
                  known,
                  generate_server_file,
                  generate_found,
                  bound,
                  matching_routes-serving r (values_of r.listener_to_routes parts.0) parts.1
                      (fresh parts.0),
                )
                refl,
            server_written l bind known bound,
          )
        ]
      ]
