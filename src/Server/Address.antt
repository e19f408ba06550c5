-- ===== src/Server/Address.antt =====
-- isBlockedRemoteIP of internal/app/server.go. A net.IP is the list of its 4 or 16 bytes, and nil is
-- empty; the tests of package net are written out.
pub mod Laws
use mcmon.Prelude.{
  ℕ, bit_and, Bool, true, false, ◌&&◌, ◌||◌, Option, none, some, List, [], ◌∷◌, ◌==◌, length,
  if◌then◌else◌,
}

abbrev pub Ip : Type 0
Ip = List ℕ

-- The four bytes of an IPv4 address.
pub record Ip4 : Type 0 where
  pub a : ℕ
  pub b : ℕ
  pub c : ℕ
  pub d : ℕ

all_zero : List ℕ → Bool
all_zero [] = true
all_zero (x ∷ xs) = x == 0 && all_zero xs

-- `ip.To4()`: an address of 4 bytes, or one of 16 that starts with 10 zeros and ff ff.
unfoldable pub to4 : Ip → Option Ip4
unfolding all_zero
to4 (a ∷ b ∷ c ∷ d ∷ []) = some (record { a = a; b = b; c = c; d = d })
to4 (z0 ∷ z1 ∷ z2 ∷ z3 ∷ z4 ∷ z5 ∷ z6 ∷ z7 ∷ z8 ∷ z9 ∷ f0 ∷ f1 ∷ a ∷ b ∷ c ∷ d ∷ []) =
    if all_zero (z0 ∷ z1 ∷ z2 ∷ z3 ∷ z4 ∷ z5 ∷ z6 ∷ z7 ∷ z8 ∷ z9 ∷ []) && f0 == 0xff && f1 == 0xff
    then some (record { a = a; b = b; c = c; d = d })
    else none
to4 _ = none

-- `ip.Equal(net.IPv6loopback)` and `ip.Equal(net.IPv6unspecified)`, for an address that is no IPv4 one.
ends_with : ℕ → Ip → Bool
ends_with last
      (z0 ∷ z1 ∷ z2 ∷ z3 ∷ z4 ∷ z5 ∷ z6 ∷ z7 ∷ z8 ∷ z9 ∷ z10 ∷ z11 ∷ z12 ∷ z13 ∷ z14 ∷ z ∷ []) =
    all_zero (z0 ∷ z1 ∷ z2 ∷ z3 ∷ z4 ∷ z5 ∷ z6 ∷ z7 ∷ z8 ∷ z9 ∷ z10 ∷ z11 ∷ z12 ∷ z13 ∷ z14 ∷ [])
    && z == last
ends_with last _ = false

-- `len(ip) == 16`, with `ip[0]` and `ip[1]`.
first_two : Ip → Option (ℕ × ℕ)
first_two (x ∷ y ∷ rest) = if length rest == 14 then some (x, y) else none
first_two _ = none

-- A test on an address: one for its four bytes, and one for the others.
by_kind : (Ip4 → Bool) → Bool → Ip → Bool
by_kind test other ip = elim (to4 ip) [ some q ↦ test q | none ↦ other ]

on_two : (ℕ → ℕ → Bool) → Ip → Bool
on_two test ip = elim (first_two ip) [ some (x, y) ↦ test x y | none ↦ false ]

is_loopback : Ip → Bool
is_loopback ip = by_kind (λ q. q.a == 127) (ends_with 1 ip) ip

is_unspecified : Ip → Bool
is_unspecified ip = by_kind (λ q. q.a == 0 && q.b == 0 && q.c == 0 && q.d == 0) (ends_with 0 ip) ip

is_multicast : Ip → Bool
is_multicast ip = by_kind (λ q. bit_and q.a 0xf0 == 0xe0) (on_two (λ x y. x == 0xff) ip) ip

is_link_local_unicast : Ip → Bool
is_link_local_unicast ip =
    by_kind (λ q. q.a == 169 && q.b == 254) (on_two (λ x y. x == 0xfe && bit_and y 0xc0 == 0x80) ip)
      ip

is_link_local_multicast : Ip → Bool
is_link_local_multicast ip =
    by_kind (λ q. q.a == 224 && q.b == 0 && q.c == 0)
      (on_two (λ x y. x == 0xff && bit_and y 0x0f == 0x02) ip) ip

is_private : Ip → Bool
is_private ip =
    by_kind (λ q. q.a == 10 || q.a == 172 && bit_and q.b 0xf0 == 16 || q.a == 192 && q.b == 168)
      (on_two (λ x y. bit_and x 0xfe == 0xfc) ip) ip

is_interface_local_multicast : Ip → Bool
is_interface_local_multicast ip = on_two (λ x y. x == 0xff && bit_and y 0x0f == 0x01) ip

unfoldable pub is_blocked_remote_ip : Ip → Bool
unfolding to4 first_two by_kind on_two is_loopback is_unspecified is_multicast is_link_local_unicast
    is_link_local_multicast is_private is_interface_local_multicast ends_with
is_blocked_remote_ip ip =
    if length ip == 0
    then true
    else if is_loopback ip
    then false
    else is_unspecified ip
      || is_multicast ip
      || is_link_local_unicast ip
      || is_link_local_multicast ip
      || is_private ip
      || is_interface_local_multicast ip
