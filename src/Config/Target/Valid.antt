-- ===== src/Config/Target/Valid.antt =====
-- validate accepts exactly the targets that name a host and a port.
use mcmon.Prelude.{◌≡◌, ◌↔◌, pos, ◌≤ℤ◌, none, false, is_blank, arith}
use mcmon.Config.Target.{Target, validate}

-- A target passes exactly when its host has a rune that is no space, and its port is between 1 and
-- 65535.
pub validate_iff :
    (t : Target)
    → (validate t ≡ none) ↔ ((is_blank t.host ≡ false) × (pos 1 ≤ℤ t.port) × (t.port ≤ℤ pos 65535))
unfolding validate
validate_iff t = ground arith
