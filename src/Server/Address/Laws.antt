-- ===== src/Server/Address/Laws.antt =====
-- Which addresses a remote host may have.
use mcmon.Prelude.{ℕ, ◌≤◌, ◌<◌, ◌≡◌, ◌↔◌, ◌⊎◌, refl, true, [], ◌∷◌, arith}
use mcmon.Prelude.Bits.{bit_and_high}
use mcmon.Server.Address.{Ip, is_blocked_remote_ip}

-- The IPv4-mapped IPv6 address of four bytes.
abbrev pub mapped : ℕ → ℕ → ℕ → ℕ → Ip
mapped a b c d = 0 ∷ 0 ∷ 0 ∷ 0 ∷ 0 ∷ 0 ∷ 0 ∷ 0 ∷ 0 ∷ 0 ∷ 0xff ∷ 0xff ∷ a ∷ b ∷ c ∷ d ∷ []

-- The ranges of RFC 1918, link-local addresses, multicast addresses and 0.0.0.0.
abbrev pub IsReserved : ℕ → ℕ → ℕ → ℕ → Type 0
IsReserved a b c d =
    (a ≡ 10)
    ⊎ ((a ≡ 172) × (16 ≤ b) × (b ≤ 31))
    ⊎ ((a ≡ 192) × (b ≡ 168))
    ⊎ ((a ≡ 169) × (b ≡ 254))
    ⊎ ((224 ≤ a) × (a ≤ 239))
    ⊎ ((a ≡ 0) × (b ≡ 0) × (c ≡ 0) × (d ≡ 0))

module _ (a b c d : ℕ) where
  -- An IPv4 address is refused exactly if it is private, link-local, multicast or 0.0.0.0 (so
  -- 127.0.0.1 and the rest of 127/8 are let through), and its IPv4-mapped IPv6 form is judged like the
  -- address itself.
  pub is_blocked_remote_ip_iff :
      a < 256
      → b < 256
      → ((is_blocked_remote_ip (a ∷ b ∷ c ∷ d ∷ []) ≡ true) ↔ IsReserved a b c d)
        × (is_blocked_remote_ip (mapped a b c d) ≡ is_blocked_remote_ip (a ∷ b ∷ c ∷ d ∷ []))
  unfolding is_blocked_remote_ip
  is_blocked_remote_ip_iff ha hb =
      let ea = bit_and_high a ha in
      let eb = bit_and_high b hb in
      ((λ h. ground (arith, ea, eb), λ h. ground (arith, ea, eb)), refl)
