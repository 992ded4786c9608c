-- ===== src/Token.antt =====
-- nginxbackend/main.go: the gateway and the namespace of the service token.
mod Tests
use notyetanotherenvoybacken.Common.{
  String, Bool, true, false, ◌||◌, not, ◌&&◌, ◌≡◌, ◌≢◌, refl, sym, ◌↔◌, List, [], ◌∷◌, Error,
  message, Result, ok, err, contains, ◌==◌, if◌then◌else◌, string_eq, string_dec, arith, Bool-cases,
  inl, inr,
}

-- `GatewayClaims`, as far as it is read
pub record Claims : Type 0 where
  pub audience : List String
  pub namespace : String
  pub service_account : String

unfoldable pub check_names : Claims → Result (String × String)
check_names c =
    if c.namespace == "" || c.service_account == ""
    then err (message "jwt token does not contain the right namespace and SA name")
    else ok (c.service_account, c.namespace)

unfoldable pub check_claims : Claims → Result (String × String)
unfolding check_names
check_claims c =
    if not (contains "agentgateway" c.audience)
    then err (message "JWT token does not contain 'agentgateway' audience")
    else check_names c

-- `gatewayAndNamespaceFromJWT`, by what the jwt library parses without verifying the signature
unfoldable pub gateway_and_namespace_from_jwt :
    (String → Result Claims) → String → Result (String × String)
unfolding check_claims
gateway_and_namespace_from_jwt parse_unverified token = elim (parse_unverified token) [
  | err e ↦ err e
  | ok c ↦ check_claims c
]

-- A token that parses gives its service account as the gateway's name, and its namespace, exactly if
-- it is for the audience `agentgateway` and neither is empty.
pub gateway_and_namespace_from_jwt_lem :
    (parse_unverified : String → Result Claims) (token : String) (c : Claims)
    → parse_unverified token ≡ ok c
    → (gateway_and_namespace_from_jwt parse_unverified token ≡ ok (c.service_account, c.namespace))
      ↔ ((contains "agentgateway" c.audience ≡ true)
          × (c.namespace ≢ "")
          × (c.service_account ≢ ""))
unfolding gateway_and_namespace_from_jwt check_claims check_names
gateway_and_namespace_from_jwt_lem parse_unverified token c h = (
  λ e. (ground (arith, h, e), λ x. ground (arith, h, e, x), λ x. ground (arith, h, e, x)),
  λ (aud, ns, sa). ground (arith, h, aud, ns, sa),
)
