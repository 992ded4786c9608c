-- ===== src/Address/Keys.antt =====
-- address.go, manager.go: which services share a key, an upstream name and a file.
use Prim.Native.Char.{code}
use Prim.Native.String.{◌++◌}
use Prim.Native.String.append
use text.Mathlib.TextLemmas.{append_assoc, append_cancel_left, head-eq_of_cons-eq}
use mathlib.Core.Option.{some-injective}
use notyetanotherenvoybacken.Common.{
  ℕ, String, false, ◌≡◌, ◌≢◌, sym, ap, ◌∙◌, some, arith, has_char, cut, cut-append, read,
  read-decimal, decimal, replace_all, ℕ_discrete, replace_all-append, replace_all_back,
}
use notyetanotherenvoybacken.Nginx.Names.{service_key_to_filename, service_key_to_upstream_name}
use notyetanotherenvoybacken.Address.State.{PortMessage, ServiceMessage}
use notyetanotherenvoybacken.Address.Update.{service_key}
use notyetanotherenvoybacken.Address.Config.{endpoint_file}

-- Two service keys without an underscore have different upstream names, unless they are equal.
-- (Kubernetes admits no underscore in names.)
pub upstream_name-injective :
    (k l : String)
    → has_char b'_' k ≡ false
    → has_char b'_' l ≡ false
    → service_key_to_upstream_name k ≡ service_key_to_upstream_name l
    → k ≡ l
unfolding service_key_to_upstream_name
upstream_name-injective k l hk hl e =
    sym (replace_all_back "/" "_" k hk)
    ∙ ap (replace_all b'_' "/") e
    ∙ replace_all_back "/" "_" l hl

slash : (t : String) → "/" ++ t ≡ String.◌∷◌ "/" t
slash t = append.cons "/" "" t ∙ ap (String.◌∷◌ "/") (append.nil t)

dash : (t : String) → "-" ++ t ≡ String.◌∷◌ "-" t
dash t = append.cons "-" "" t ∙ ap (String.◌∷◌ "-") (append.nil t)

cut-part : (s t : String) → has_char b'/' s ≡ false → cut b'/' (s ++ "/" ++ t) ≡ some (s, t)
cut-part s t h = ap (λ u. cut b'/' (s ++ u)) (slash t) ∙ cut-append "/" s t h

-- Equal texts with slashes have equal parts around the first slash.
parts-equal :
    (s s' t t' : String)
    → has_char b'/' s ≡ false
    → has_char b'/' s' ≡ false
    → s ++ "/" ++ t ≡ s' ++ "/" ++ t'
    → (s ≡ s') × (t ≡ t')
parts-equal s s' t t' h h' e =
    let both = some-injective _ _ (sym (cut-part s t h) ∙ ap (cut b'/') e ∙ cut-part s' t' h') in
    (ap (λ p. p.0) both, ap (λ p. p.1) both)

-- Two ports of Service messages with the same key have the same namespace, name and number, where
-- namespaces and names have no slash.
pub service_key-injective :
    (s t : ServiceMessage) (p q : PortMessage)
    → has_char b'/' s.namespace ≡ false
    → has_char b'/' t.namespace ≡ false
    → has_char b'/' s.name ≡ false
    → has_char b'/' t.name ≡ false
    → service_key s p ≡ service_key t q
    → (s.namespace ≡ t.namespace) × (s.name ≡ t.name) × (p.service_port ≡ q.service_port)
unfolding service_key
service_key-injective s t p q hs ht ns nt e =
    let (same_ns, rest) = parts-equal s.namespace t.namespace _ _ hs ht e in
    let (same_name, ports) = parts-equal s.name t.name _ _ ns nt rest in
    (
      same_ns,
      same_name,
      sym (read-decimal p.service_port) ∙ ap (read 0) ports ∙ read-decimal q.service_port,
    )

dashed : String → String
dashed s = replace_all b'/' "-" s

dashed-slash : (s t : String) → dashed (s ++ "/" ++ t) ≡ dashed s ++ "-" ++ dashed t
unfolding dashed replace_all ℕ_discrete
dashed-slash s t =
    replace_all-append b'/' "-" s ("/" ++ t)
    ∙ ap (replace_all b'/' "-" s ++◌) (replace_all-append b'/' "-" "/" t)

dashed-dash : (s t : String) → dashed (s ++ "-" ++ t) ≡ dashed s ++ "-" ++ dashed t
unfolding dashed replace_all ℕ_discrete
dashed-dash s t =
    replace_all-append b'/' "-" s ("-" ++ t)
    ∙ ap (replace_all b'/' "-" s ++◌) (replace_all-append b'/' "-" "-" t)

dashed-key :
    (ns name : String) (port : ℕ)
    → dashed (ns ++ "/" ++ name ++ "/" ++ decimal port)
      ≡ dashed ns ++ "-" ++ dashed name ++ "-" ++ dashed (decimal port)
dashed-key ns name port = rw (dashed-slash, dashed-slash)

distinct : ◌≢◌ {A = ℕ} b'-' b'/'
distinct e = omega arith

-- The dash that ends a namespace and the slash that ends a shorter one tell the texts apart.
dash-or-slash : (x s t : String) → x ++ "-" ++ s ≢ x ++ "/" ++ t
dash-or-slash x s t e =
    let tails = append_cancel_left x ("-" ++ s) ("/" ++ t) e in
    let heads = head-eq_of_cons-eq (sym (dash s) ∙ tails ∙ slash t) in distinct (ap code heads)

regroup : (x y t : String) → (x ++ "-" ++ y) ++ t ≡ x ++ "-" ++ (y ++ t)
regroup x y t = append_assoc x ("-" ++ y) t ∙ ap (x ++◌) (append_assoc "-" y t)

module _ (x y z : String) (s : ServiceMessage) (p : PortMessage) where
  longer_namespace : ServiceMessage
  longer_namespace = record s { namespace = x ++ "-" ++ y; name = z }

  longer_name : ServiceMessage
  longer_name = record s { namespace = x; name = y ++ "-" ++ z }

  keys-same_dashed : dashed (service_key longer_namespace p) ≡ dashed (service_key longer_name p)
  unfolding service_key longer_namespace longer_name
  keys-same_dashed =
      rw (dashed-key (x ++ "-" ++ y), dashed-key x, dashed-dash x y, dashed-dash y z)
        (simp append_assoc)

  -- The service `z` of the namespace `x-y` and the service `y-z` of the namespace `x` have one
  -- file for the same port, though they have different keys.
  pub endpoint_file-collides :
      (endpoint_file (service_key (record s { namespace = x ++ "-" ++ y; name = z }) p)
        ≡ endpoint_file (service_key (record s { namespace = x; name = y ++ "-" ++ z }) p))
      × (service_key (record s { namespace = x ++ "-" ++ y; name = z }) p
          ≢ service_key (record s { namespace = x; name = y ++ "-" ++ z }) p)
  unfolding service_key endpoint_file service_key_to_filename dashed longer_namespace longer_name
  endpoint_file-collides = (
    ap (λ k. "endpoints/" ++ k ++ ".conf") keys-same_dashed,
    λ e. dash-or-slash x _ _ (sym (regroup x y _) ∙ e),
  )
