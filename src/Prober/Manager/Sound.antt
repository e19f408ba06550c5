-- ===== src/Prober/Manager/Sound.antt =====
-- When the books of a Manager are in order.
use mcmon.Prelude.{ℕ, ◌≤◌, ◌<◌, ◌≡◌, refl, ◌⊎◌, String, true, false, List, [], All}
use mcmon.Prober.Manager.{Loop, Manager, new_manager}
use mcmon.Prober.Manager.Channels.{has, IsDistinct}

-- Who may still close a channel: the map, under a target's id, or a call of Stop.
pub data Holder : Type 0 where
  registry : String → Holder
  caller : ℕ → Holder

abbrev pub held : Manager → Holder → List ℕ
held m (registry id) = m.stops id
held m (caller k) = m.closing k

-- A loop that can be stopped: it has been, or the map has its channel under its target's id, or a call
-- of Stop is about to close it.
pub record IsStoppable (m : Manager) (l : Loop) : Type 0 where
  pub made : l.chan < m.next_chan
  pub kept :
      (m.is_closed l.chan ≡ true)
      ⊎ (has l.chan (m.stops l.target.id) ≡ true)
      ⊎ ((k : ℕ) × (has l.chan (m.closing k) ≡ true))

-- Each channel has one holder and is open as long as it has one, so it is closed once; and every loop
-- can be stopped.
pub record IsOrderly (m : Manager) : Type 0 where
  pub apart : (g h : Holder) (c : ℕ) → has c (held m g) ≡ true → has c (held m h) ≡ true → g ≡ h
  pub distinct : (h : Holder) → IsDistinct (held m h)
  pub live :
      (h : Holder) (c : ℕ) → has c (held m h) ≡ true → (m.is_closed c ≡ false) × (c < m.next_chan)
  pub fresh : (c : ℕ) → m.next_chan ≤ c → m.is_closed c ≡ false
  pub callers : (k : ℕ) → m.calls ≤ k → m.closing k ≡ []
  pub loops : All (IsStoppable m) m.loops

pub new_manager-IsOrderly : IsOrderly new_manager
new_manager-IsOrderly = record {
  apart = λ g h c p q. absurd (nobody g c p);
  distinct = λ h. none_twice h;
  live = λ h c p. absurd (nobody h c p);
  fresh = λ c p. refl;
  callers = λ k p. refl;
  loops = tt;
}
  where
    nobody : (h : Holder) (c : ℕ) → has c (held new_manager h) ≡ true → ⊥
    nobody (registry id) c p = cc
    nobody (caller k) c p = cc

    none_twice : (h : Holder) → IsDistinct (held new_manager h)
    none_twice (registry id) = tt
    none_twice (caller k) = tt
