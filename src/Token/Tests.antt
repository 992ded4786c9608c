-- ===== src/Token/Tests.antt =====
-- A token for the audience agentgateway.
use notyetanotherenvoybacken.Common.{true, ◌≡◌, ◌≢◌, refl, ◌↔◌, [], ◌∷◌, ok, contains}
use notyetanotherenvoybacken.Token.{
  Claims, gateway_and_namespace_from_jwt, gateway_and_namespace_from_jwt_lem,
}

abbrev claims : Claims
claims = record { audience = "agentgateway" ∷ []; namespace = "default"; service_account = "gw" }

gateway_and_namespace_from_jwt_lem_example :
    (gateway_and_namespace_from_jwt (λ t. ok claims) "token" ≡ ok ("gw", "default")) ↔ (
      (contains "agentgateway" claims.audience ≡ true)
      × (claims.namespace ≢ "")
      × (claims.service_account ≢ ""))
gateway_and_namespace_from_jwt_lem_example =
    gateway_and_namespace_from_jwt_lem (λ t. ok claims) "token" claims refl
