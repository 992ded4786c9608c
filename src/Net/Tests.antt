-- ===== src/Net/Tests.antt =====
-- Addresses as Go prints them.
use notyetanotherenvoybacken.Common.{[], ◌∷◌, ◌≡◌, refl, decimal, join, ℕ_discrete}
use notyetanotherenvoybacken.Net.{Addr, addr_string}

abbrev v4 : Addr
v4 = record { bytes = 10 ∷ 244 ∷ 0 ∷ 7 ∷ [] }

abbrev v6 : Addr
v6 = record {
  bytes = 0x20 ∷ 0x01 ∷ 0x0d ∷ 0xb8 ∷ 0 ∷ 0 ∷ 0 ∷ 0 ∷ 0 ∷ 0 ∷ 0 ∷ 0 ∷ 0 ∷ 0 ∷ 0x1f ∷ 0x90 ∷ [];
}

abbrev v6_any : Addr
v6_any = record { bytes = 0 ∷ 0 ∷ 0 ∷ 0 ∷ 0 ∷ 0 ∷ 0 ∷ 0 ∷ 0 ∷ 0 ∷ 0 ∷ 0 ∷ 0 ∷ 0 ∷ 0 ∷ 0 ∷ [] }

v4_text : addr_string v4 ≡ "10.244.0.7"
unfolding addr_string decimal join ℕ_discrete
v4_text = refl

v6_text : addr_string v6 ≡ "2001:db8::1f90"
unfolding addr_string decimal join ℕ_discrete
v6_text = refl

v6_any_text : addr_string v6_any ≡ "::"
unfolding addr_string decimal join ℕ_discrete
v6_any_text = refl
