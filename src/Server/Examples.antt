-- ===== src/Server/Examples.antt =====
-- Runs of the checks on remote hosts, and their theorems at concrete inputs.
use mcmon.Prelude.{◌≡◌, ◌↔◌, refl, arith, true, false, [], ◌∷◌}
use mcmon.Server.Address.{is_blocked_remote_ip}
use mcmon.Server.Address.Laws.{mapped, IsReserved, is_blocked_remote_ip_iff}
use mcmon.Server.Proxy.{dials, refuses, dial_context, dial_first}
use mcmon.Server.Proxy.Safe.{
  Allowed, dial_context-Allowed, Accepted, normalize_remote_host-Accepted,
}
use mcmon.Server.Fixtures.{net, url, good_accepted}

metadata : is_blocked_remote_ip (169 ∷ 254 ∷ 169 ∷ 254 ∷ []) ≡ true
unfolding is_blocked_remote_ip
metadata = refl

localhost : is_blocked_remote_ip (127 ∷ 0 ∷ 0 ∷ 1 ∷ []) ≡ false
unfolding is_blocked_remote_ip
localhost = refl

is_blocked_remote_ip_iff_example :
    ((is_blocked_remote_ip (172 ∷ 20 ∷ 0 ∷ 1 ∷ []) ≡ true) ↔ IsReserved 172 20 0 1)
    × (is_blocked_remote_ip (mapped 172 20 0 1) ≡ is_blocked_remote_ip (172 ∷ 20 ∷ 0 ∷ 1 ∷ []))
is_blocked_remote_ip_iff_example = is_blocked_remote_ip_iff 172 20 0 1 (omega arith) (omega arith)

good_dialled : dial_context net "good:443" ≡ dials (93 ∷ 184 ∷ 216 ∷ 34 ∷ []) "443"
unfolding dial_context dial_first is_blocked_remote_ip
good_dialled = refl

bad_refused : dial_context net "bad:443" ≡ refuses
unfolding dial_context dial_first is_blocked_remote_ip
bad_refused = refl

dial_context-Allowed_example : Allowed net "good:443" (93 ∷ 184 ∷ 216 ∷ 34 ∷ []) "443"
dial_context-Allowed_example =
    dial_context-Allowed net "good:443" (93 ∷ 184 ∷ 216 ∷ 34 ∷ []) "443" good_dialled

normalize_remote_host-Accepted_example :
    Accepted net url " https://good:443/mc/" "https://good:443/mc"
normalize_remote_host-Accepted_example =
    normalize_remote_host-Accepted net url " https://good:443/mc/" "https://good:443/mc"
      good_accepted
