-- ===== src/Resource/Server.antt =====
-- resource.go: the server file of a listener and a hostname, `generateServerFile`, with its
-- certificates, and the files that `Remove` deletes.
use notyetanotherenvoybacken.Common.{
  ℕ, String, Bool, true, false, ◌||◌, Option, none, some, List, [], ◌∷◌, Error, Outcome, returned,
  ◌>>=◌, lookup, insert, erase, sprintf, decimal, not, ◌&&◌, ◌==◌, if◌then◌else◌, string_eq, nat_eq,
}
use notyetanotherenvoybacken.Nginx.{Env, Manager, tick, spoil, write_config}
use notyetanotherenvoybacken.Nginx.Directive.{
  Directive, Directives, nil, cons, simple, block, comment, append,
}
use notyetanotherenvoybacken.Resource.Names.{
  sanitize_filename, server_file, route_file, parse_server_file_key,
}
use notyetanotherenvoybacken.Resource.State.{
  Bind, ListenerName, TlsConfig, Listener, ServerFileConfig, ResourceStore, values_of,
}
use notyetanotherenvoybacken.Resource.Book.{matching_routes}

unfoldable pub cert_file : String → String
unfolding sanitize_filename
cert_file key = sprintf ("certs/" ∷ sanitize_filename key ∷ ".crt" ∷ [])

unfoldable pub key_file : String → String
unfolding sanitize_filename
key_file key = sprintf ("certs/" ∷ sanitize_filename key ∷ ".key" ∷ [])

-- the comment with the names of the gateway and the listener
unfoldable pub gateway_comment : Option ListenerName → Directives
gateway_comment none = nil
gateway_comment (some n) =
    cons
      (comment (
        sprintf (
          "Gateway: " ∷ n.gateway_namespace ∷ "/" ∷ n.gateway_name ∷ ", Listener: "
          ∷ n.listener_name ∷ [])))
      nil

abbrev pub has_tls : Option TlsConfig → Bool
has_tls none = false
has_tls (some t) = true

-- `listen`, with `ssl` for HTTPS or with certificates; `https` is `Protocol_HTTPS`
unfoldable pub listen_directive : ℕ → Bind → Listener → Directive
listen_directive https bind l =
    simple "listen"
      (decimal bind.port ∷ (if l.protocol == https || has_tls l.tls then "ssl" ∷ [] else []))

unfoldable pub server_name : String → Directives
server_name hostname =
    if not (hostname == "") && not (hostname == "*")
    then cons (simple "server_name" (hostname ∷ [])) nil
    else nil

unfoldable pub certificates : String → Option TlsConfig → Directives
unfolding cert_file key_file
certificates listener_key none = nil
certificates listener_key (some t) =
    cons (simple "ssl_certificate" (cert_file listener_key ∷ []))
      (cons (simple "ssl_certificate_key" (key_file listener_key ∷ [])) nil)

unfoldable pub includes : String → List String → Directives
includes listener_key [] = nil
includes listener_key (key ∷ keys) =
    cons (simple "include" (route_file key listener_key ∷ [])) (includes listener_key keys)

-- the configuration of a server file
unfoldable pub server_config : ℕ → Bind → Listener → String → String → List String → Directives
unfolding gateway_comment listen_directive server_name certificates includes
server_config https bind l listener_key hostname route_keys =
    cons
      (block "server" [] (
        append (gateway_comment l.name) (
          cons (listen_directive https bind l) (
            append (server_name hostname)
              (append (certificates listener_key l.tls) (includes listener_key route_keys))))))
      nil

abbrev pub server_entry : Bind → Listener → String → String → List String → ServerFileConfig
server_entry bind l listener_key hostname route_keys = record {
  listener_key = listener_key;
  hostname = hostname;
  port = bind.port;
  protocol = l.protocol;
  tls_config = l.tls;
  route_keys = route_keys;
}

module _ (env : Env) where
  -- `os.WriteFile` below the configuration path
  unfoldable pub write_raw : Manager → String → String → Option Error × Manager
  write_raw m filename text = elim (env.write_file m.clock filename text) [
    | none ↦ (none, record (tick m) { files = insert filename text m.files })
    | some (e, left) ↦ (some e, record (tick m) { files = spoil filename left m.files })
  ]

  -- `os.Remove` below the configuration path, its error ignored
  unfoldable pub remove_raw : Manager → String → Manager
  remove_raw m filename = elim (env.remove_file m.clock filename) [
    | none ↦ record (tick m) { files = erase filename m.files }
    | some e ↦ tick m
  ]

  abbrev pub write_key : String → TlsConfig → Option Error × Manager → Option Error × Manager
  write_key listener_key t (some e, m) = (some e, m)
  write_key listener_key t (none, m) = write_raw m (key_file listener_key) t.private_key

  -- `generateTLSFiles`; the first write goes through crossplane, its error ignored
  unfoldable pub generate_tls_files : Manager → String → TlsConfig → Option Error × Manager
  unfolding write_raw
  generate_tls_files m listener_key t =
      let (e, emptied) = write_config env m (cert_file listener_key) nil in
      write_key listener_key t (write_raw emptied (cert_file listener_key) t.cert)

  -- `deleteTLSFiles`
  unfoldable pub delete_tls_files : Manager → String → Manager
  unfolding remove_raw
  delete_tls_files m listener_key =
      remove_raw (remove_raw m (cert_file listener_key)) (key_file listener_key)

  unfoldable pub generate_tls : Manager → String → Option TlsConfig → Option Error × Manager
  unfolding generate_tls_files
  generate_tls m listener_key none = (none, m)
  generate_tls m listener_key (some t) = generate_tls_files m listener_key t

  abbrev pub write_block : Directives → String → Option Error × Manager → Option Error × Manager
  write_block config file (some e, m) = (some e, m)
  write_block config file (none, m) = write_config env m file config

  -- `generateServerFile` where the listener, the bind and the routes are found
  unfoldable pub write_server :
      ℕ
      → ResourceStore
      → String
      → String × String
      → Listener
      → Bind
      → List String
      → Option Error × ResourceStore
  unfolding generate_tls
  write_server https r key (listener_key, hostname) l bind route_keys =
      let (e, m) =
        write_block (server_config https bind l listener_key hostname route_keys) (server_file key)
          (generate_tls r.nginx listener_key l.tls) in
      (
        e,
        record r {
          server_files =
              insert key (server_entry bind l listener_key hostname route_keys) r.server_files;
          nginx = m;
        },
      )

  unfoldable pub generate_found :
      ℕ
      → ResourceStore
      → String
      → String × String
      → Option Listener
      → Outcome (Option Error × ResourceStore)
  unfolding write_server
  generate_found https r key parts none = returned (none, r)
  generate_found https r key parts (some l) = elim (lookup l.bind_key r.binds) [
    | none ↦ returned (none, r)
    | some bind ↦
        matching_routes r (values_of r.listener_to_routes parts.0) parts.1 >>= λ route_keys.
        returned (write_server https r key parts l bind route_keys)
  ]

  -- `generateServerFile`
  unfoldable pub generate_server_file :
      ℕ → ResourceStore → String → Outcome (Option Error × ResourceStore)
  unfolding generate_found
  generate_server_file https r key =
      let parts = parse_server_file_key key in
      generate_found https r key parts (lookup parts.0 r.listeners)
