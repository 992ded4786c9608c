-- ===== src/Resource/ServerBlock.antt =====
-- resource.go: which routes a server file has, and what stands in its block.
use mathlib.Core.List.{append-nil}
use notyetanotherenvoybacken.Common.{
  ℕ, String, Bool, true, false, not, ◌&&◌, ◌||◌, ◌≡◌, refl, ap, ◌∙◌, Option, none, some, List, [],
  ◌∷◌, ◌++◌, map, arith, returned, lookup, contains, is_empty, decimal, Bool-cases, inl, inr, ◌==◌,
  if◌then◌else◌, string_eq, string_dec, nat_eq,
}
use notyetanotherenvoybacken.Nginx.Directive.{directive, Directives, nil, cons, append}
use notyetanotherenvoybacken.Resource.Names.{route_file}
use notyetanotherenvoybacken.Resource.State.{
  Bind, ListenerName, TlsConfig, Listener, Route, ResourceStore,
}
use notyetanotherenvoybacken.Resource.Book.{matches_any, route_matches_hostname, matching_routes}
use notyetanotherenvoybacken.Resource.Server.{
  has_tls, cert_file, key_file, gateway_comment, listen_directive, server_name, certificates,
  includes,
}

-- The arguments of the directives of a name, in order.
abbrev pub args_of : String → Directives → List (List String)
args_of name nil = []
args_of name (cons (directive n args body c) rest) =
    let later = args_of name rest in if n == name then args ∷ later else later

-- A route is for every hostname if it has none, and else for those it has, or all by a star.
abbrev pub serves : String → Option Route → Bool
serves hostname none = false
serves hostname (some route) =
    is_empty route.hostnames || (contains hostname route.hostnames || contains "*" route.hostnames)

-- Of these keys those whose routes are for the hostname.
abbrev pub serving : ResourceStore → String → List String → List String
serving r hostname [] = []
serving r hostname (key ∷ keys) =
    let rest = serving r hostname keys in
    if serves hostname (lookup key r.routes) then key ∷ rest else rest

abbrev pub tls_args : (String → String) → String → Option TlsConfig → List (List String)
tls_args file listener_key none = []
tls_args file listener_key (some t) = (file listener_key ∷ []) ∷ []

-- What the server block of a listener and a hostname has: one `listen` with the port, and `ssl` for
-- HTTPS or with certificates; the hostname, if it is not for all; the listener's certificate and
-- key; and the files of these routes.
pub record IsServer (https : ℕ) (bind : Bind) (l : Listener) (listener_key hostname : String)
    (route_keys : List String) (body : Directives) : Type 0 where
  pub listens :
      args_of "listen" body
      ≡ (decimal bind.port ∷ (if l.protocol == https || has_tls l.tls then "ssl" ∷ [] else [])) ∷ []
  pub named :
      args_of "server_name" body
      ≡ (if hostname == "" || hostname == "*" then [] else (hostname ∷ []) ∷ [])
  pub certificate : args_of "ssl_certificate" body ≡ tls_args cert_file listener_key l.tls
  pub private_key : args_of "ssl_certificate_key" body ≡ tls_args key_file listener_key l.tls
  pub included : args_of "include" body ≡ map (λ k. route_file k listener_key ∷ []) route_keys

args_of-append :
    (name : String) (ds es : Directives)
    → args_of name (append ds es) ≡ args_of name ds ++ args_of name es
args_of-append name nil es = refl
args_of-append name (cons (directive n args body c) ds) es = elim (Bool-cases (n == name)) [
  | inl e ↦ rw e (ap (args ∷◌) (args_of-append name ds es))
  | inr e ↦ rw e (args_of-append name ds es)
]

matches_any-contains :
    (hs : List String) (hostname : String)
    → matches_any hs hostname ≡ (contains hostname hs || contains "*" hs)
unfolding contains
matches_any-contains [] hostname = refl
matches_any-contains (h ∷ hs) hostname = ground (arith, matches_any-contains hs hostname)

route_matches_hostname-serves :
    (route : Route) (hostname : String)
    → route_matches_hostname route hostname ≡ serves hostname (some route)
unfolding route_matches_hostname
route_matches_hostname-serves route hostname =
    ap (λ b. is_empty route.hostnames || b) (matches_any-contains route.hostnames hostname)

serving_step :
    (r : ResourceStore) (key : String) (keys : List String) (hostname : String) (route : Route)
    → lookup key r.routes ≡ some route
    → matching_routes r keys hostname ≡ returned (serving r hostname keys)
    → matching_routes r (key ∷ keys) hostname ≡ returned (serving r hostname (key ∷ keys))
unfolding matching_routes
serving_step r key keys hostname route found rest =
    elim (Bool-cases (serves hostname (some route))) [
      | inl e ↦
          rw (found, matching_routes, rest, route_matches_hostname-serves route hostname, e) refl
      | inr e ↦
          rw (found, matching_routes, rest, route_matches_hostname-serves route hostname, e) refl
    ]

-- The loop over the routes of a listener finds those that are for the hostname.
pub matching_routes-serving :
    (r : ResourceStore) (keys : List String) (hostname : String)
    → ((key : String)
        → contains key keys ≡ true
        → (route : Route) × (lookup key r.routes ≡ some route))
    → matching_routes r keys hostname ≡ returned (serving r hostname keys)
unfolding matching_routes contains
matching_routes-serving r [] hostname known = refl
matching_routes-serving r (key ∷ keys) hostname known =
    let (route, found) = known key (ground arith) in
    serving_step r key keys hostname route found
      (matching_routes-serving r keys hostname (λ k h. known k (ground (arith, h))))

args_of-comment :
    (name : String) (n : Option ListenerName)
    → ("#" == name) ≡ false
    → args_of name (gateway_comment n) ≡ []
unfolding gateway_comment
args_of-comment name none h = refl
args_of-comment name (some n) h = rw h refl

args_of-includes :
    (listener_key : String) (keys : List String)
    → args_of "include" (includes listener_key keys)
      ≡ map (λ k. route_file k listener_key ∷ []) keys
unfolding includes string_dec
args_of-includes listener_key [] = refl
args_of-includes listener_key (key ∷ keys) =
    ap ((route_file key listener_key ∷ []) ∷◌) (args_of-includes listener_key keys)

no_includes :
    (name listener_key : String) (keys : List String)
    → ("include" == name) ≡ false
    → args_of name (includes listener_key keys) ≡ []
unfolding includes
no_includes name listener_key [] h = refl
no_includes name listener_key (key ∷ keys) h = rw (h, no_includes name listener_key keys h) refl

-- the parts of the block
module _ (https : ℕ) (bind : Bind) (l : Listener) (listener_key hostname : String)
    (route_keys : List String) where
  abbrev pub body_of : Directives
  body_of = append (gateway_comment l.name) (
      cons (listen_directive https bind l) (
        append (server_name hostname)
          (append (certificates listener_key l.tls) (includes listener_key route_keys))))

  args_of-body :
      (name : String)
      → ("#" == name) ≡ false
      → args_of name body_of
        ≡ args_of name (cons (listen_directive https bind l) nil)
          ++ (args_of name (server_name hostname)
              ++ (args_of name (certificates listener_key l.tls)
                  ++ args_of name (includes listener_key route_keys)))
  args_of-body name h =
      let rest = append (certificates listener_key l.tls) (includes listener_key route_keys) in
      let tail = append (server_name hostname) rest in
      let own = args_of name (cons (listen_directive https bind l) nil) in
      args_of-append name (gateway_comment l.name) (cons (listen_directive https bind l) tail)
      ∙ ap (λ x. x ++ args_of name (cons (listen_directive https bind l) tail))
          (args_of-comment name l.name h)
      ∙ args_of-append name (cons (listen_directive https bind l) nil) tail
      ∙ ap (own ++◌) (
          args_of-append name (server_name hostname) rest
          ∙ ap (args_of name (server_name hostname) ++◌) (
              args_of-append name (certificates listener_key l.tls)
                (includes listener_key route_keys)))

  no_listen :
      (name : String)
      → ("listen" == name) ≡ false
      → args_of name (cons (listen_directive https bind l) nil) ≡ []
  unfolding listen_directive
  no_listen name h = rw h refl

  no_server_name :
      (name : String) → ("server_name" == name) ≡ false → args_of name (server_name hostname) ≡ []
  unfolding server_name
  no_server_name name h = elim (Bool-cases (not (hostname == "") && not (hostname == "*"))) [
    | inl e ↦ rw (e, h) refl
    | inr e ↦ rw e refl
  ]

  no_certificates :
      (name : String) (t : Option TlsConfig)
      → ("ssl_certificate" == name) ≡ false
      → ("ssl_certificate_key" == name) ≡ false
      → args_of name (certificates listener_key t) ≡ []
  unfolding certificates
  no_certificates name none h k = refl
  no_certificates name (some t) h k = rw (h, k) refl

  certificate_args :
      (t : Option TlsConfig)
      → (args_of "ssl_certificate" (certificates listener_key t)
          ≡ tls_args cert_file listener_key t)
        × (args_of "ssl_certificate_key" (certificates listener_key t)
            ≡ tls_args key_file listener_key t)
  unfolding certificates string_dec
  certificate_args none = (refl, refl)
  certificate_args (some t) = (refl, refl)

  server_name_args :
      args_of "server_name" (server_name hostname)
      ≡ (if hostname == "" || hostname == "*" then [] else (hostname ∷ []) ∷ [])
  unfolding server_name string_dec
  server_name_args = elim (Bool-cases (hostname == "")) [
    | inl e ↦ rw e refl
    | inr e ↦ elim (Bool-cases (hostname == "*")) [
      | inl d ↦ rw (e, d) refl
      | inr d ↦ rw (e, d) refl
    ]
  ]

  listen_args :
      args_of "listen" (cons (listen_directive https bind l) nil)
      ≡ (decimal bind.port ∷ (if l.protocol == https || has_tls l.tls then "ssl" ∷ [] else [])) ∷ []
  unfolding listen_directive string_dec
  listen_args = refl

  -- the arguments in the block, from those in its parts
  in_body :
      (name : String) (a b c d : List (List String))
      → ("#" == name) ≡ false
      → args_of name (cons (listen_directive https bind l) nil) ≡ a
      → args_of name (server_name hostname) ≡ b
      → args_of name (certificates listener_key l.tls) ≡ c
      → args_of name (includes listener_key route_keys) ≡ d
      → args_of name body_of ≡ a ++ (b ++ (c ++ d))
  in_body name a b c d h p q s t = args_of-body name h ∙ cc (p, q, s, t)

  pub body-IsServer : IsServer https bind l listener_key hostname route_keys body_of
  unfolding string_dec
  body-IsServer = record {
    listens =
        in_body "listen" _ [] [] [] refl listen_args (no_server_name "listen" refl)
          (no_certificates "listen" l.tls refl refl)
          (no_includes "listen" listener_key route_keys refl);
    named =
        in_body "server_name" [] _ [] [] refl (no_listen "server_name" refl) server_name_args
          (no_certificates "server_name" l.tls refl refl)
          (no_includes "server_name" listener_key route_keys refl)
        ∙ append-nil _;
    certificate =
        in_body "ssl_certificate" [] [] _ [] refl (no_listen "ssl_certificate" refl)
          (no_server_name "ssl_certificate" refl) (certificate_args l.tls).0
          (no_includes "ssl_certificate" listener_key route_keys refl)
        ∙ append-nil _;
    private_key =
        in_body "ssl_certificate_key" [] [] _ [] refl (no_listen "ssl_certificate_key" refl)
          (no_server_name "ssl_certificate_key" refl) (certificate_args l.tls).1
          (no_includes "ssl_certificate_key" listener_key route_keys refl)
        ∙ append-nil _;
    included =
        in_body "include" [] [] [] _ refl (no_listen "include" refl) (no_server_name "include" refl)
          (no_certificates "include" l.tls refl refl) (args_of-includes listener_key route_keys);
  }
