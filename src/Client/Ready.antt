-- ===== src/Client/Ready.antt =====
-- client.go: what `NewADSClient` makes of a configuration.
use text.Mathlib.TextLemmas.{append-ne-nil_of_right_ne-nil, cons≢nil}
use Prim.Native.String.append
use notyetanotherenvoybacken.Common.{
  ℕ, String, false, ◌≡◌, ◌≢◌, refl, ◌∙◌, sym, none, Dict, ok, arith, decimal, ◌==◌, string_eq,
  nat_eq, Bool-cases, inl, inr,
}
use notyetanotherenvoybacken.Client.Setup.{
  Config, AdsClient, Dialer, or_else, with_defaults, lacks_required, with_name, client_of,
  node_name, check_address, metadata_of, second, describe, dial, new_ads_client,
}

-- A client that has every default where its configuration leaves one open.
pub record Ready (cfg : Config) (c : AdsClient) : Type 0 where
  pub waits : c.config.initial_reconnect_delay ≢ 0
  pub waits_as_told :
      cfg.initial_reconnect_delay ≢ 0
      → c.config.initial_reconnect_delay ≡ cfg.initial_reconnect_delay
  pub bounded : c.config.max_reconnect_delay ≢ 0
  pub bounded_as_told :
      cfg.max_reconnect_delay ≢ 0 → c.config.max_reconnect_delay ≡ cfg.max_reconnect_delay
  pub named : c.config.name ≢ ""
  pub named_as_told : cfg.name ≢ "" → c.config.name ≡ cfg.name
  pub identified : c.node_info.id ≡ node_name c.config

or_else-set : (d k : ℕ) → k ≢ 0 → or_else d k ≢ 0
unfolding or_else
or_else-set d k h = ground (arith, h)

or_else-told : (d k : ℕ) → d ≢ 0 → or_else d k ≡ d
unfolding or_else
or_else-told d k h = ground (arith, h)

module _ (dialer : Dialer) where
  with_name-named : (cfg : Config) → (with_name dialer cfg).name ≢ ""
  unfolding with_name
  with_name-named cfg = elim (Bool-cases (cfg.name == "")) [
    | inl h ↦ rw h (
        append-ne-nil_of_right_ne-nil cfg.gateway_name
          (λ e. cons≢nil (sym (append.cons "-" "" (decimal (dialer.int_n 1000000))) ∙ e)))
    | inr h ↦ rw h (ground (arith, h))
  ]

  with_name-told : (cfg : Config) → cfg.name ≢ "" → (with_name dialer cfg).name ≡ cfg.name
  unfolding with_name
  with_name-told cfg h = ground (arith, h)

  -- With the required fields, an address that splits, valid metadata and a server that can be
  -- dialled, there is a client. Its delays are not zero and its name is not empty, they are those
  -- of the configuration where it sets them, and its node is called by that name.
  pub new_ads_client-Ready :
      (cfg : Config)
      → lacks_required cfg ≡ false
      → dialer.split_host_port cfg.server_address ≡ none
      → ((m : Dict String) → dialer.new_struct m ≡ none)
      → dialer.new_client cfg.server_address ≡ none
      → (c : AdsClient) × (new_ads_client dialer cfg ≡ ok c) × Ready cfg c
  unfolding new_ads_client check_address describe dial with_defaults
  new_ads_client-Ready cfg full splits valid dials =
      let full_cfg = with_name dialer (with_defaults cfg) in
      (
        client_of full_cfg,
        rw (full, check_address, splits, describe, valid (metadata_of full_cfg), dial, dials),
        record {
          waits = or_else-set cfg.initial_reconnect_delay second (λ e. omega arith);
          waits_as_told = or_else-told _ _;
          bounded = or_else-set cfg.max_reconnect_delay (30000000000) (λ e. omega arith);
          bounded_as_told = or_else-told _ _;
          named = with_name-named (with_defaults cfg);
          named_as_told = λ h. with_name-told (with_defaults cfg) h;
          identified = refl;
        },
      )
