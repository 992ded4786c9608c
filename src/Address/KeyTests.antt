-- ===== src/Address/KeyTests.antt =====
-- The service keys at concrete messages.
use notyetanotherenvoybacken.Common.{◌≡◌, ◌≢◌, refl, none, [], ◌∷◌, has_char, decimal, ℕ_discrete}
use notyetanotherenvoybacken.Address.State.{PortMessage, ServiceMessage}
use notyetanotherenvoybacken.Address.Update.{service_key}
use notyetanotherenvoybacken.Address.Config.{endpoint_file}
use notyetanotherenvoybacken.Address.Keys.{
  upstream_name-injective, service_key-injective, endpoint_file-collides,
}

abbrev http : PortMessage
http = record { service_port = 80; target_port = 8080; port_protocol = 1 }

abbrev shop : ServiceMessage
shop = record {
  name = "shop";
  namespace = "default";
  ports = http ∷ [];
  load_balancing = none;
  ip_families = 0;
}

upstream_name-injective_example : service_key shop http ≡ "default/shop/80"
unfolding service_key has_char decimal ℕ_discrete
upstream_name-injective_example =
    upstream_name-injective (service_key shop http) "default/shop/80" refl refl refl

service_key-injective_example :
    (shop.namespace ≡ "default") × (shop.name ≡ "shop") × (http.service_port ≡ 80)
unfolding has_char ℕ_discrete
service_key-injective_example = service_key-injective shop shop http http refl refl refl refl refl

endpoint_file-collides_example :
    (endpoint_file (service_key (record shop { namespace = "a-b"; name = "c" }) http)
      ≡ endpoint_file (service_key (record shop { namespace = "a"; name = "b-c" }) http))
    × (service_key (record shop { namespace = "a-b"; name = "c" }) http
        ≢ service_key (record shop { namespace = "a"; name = "b-c" }) http)
endpoint_file-collides_example = endpoint_file-collides "a" "b" "c" shop http
