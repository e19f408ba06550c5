-- ===== src/Config/Target/Flags.antt =====
-- Which monitors normalized leaves enabled.
use mcmon.Prelude.{
  ◌≡◌, refl, ◌⊎◌, inl, inr, Bool, true, false, ℤ, pos, ltb_ℤ, ◌≤ℤ◌, arith, Bool-cases,
}
use mcmon.Config.Target.{
  Monitors, Target, has_explicit_monitors, normalized_monitors, normalized, own_defaults,
  simple_defaults, probe_defaults, all_enabled,
}

-- The flags of `m`, given those of `n`.
pub record SameFlags (m n : Monitors) : Type 0 where
  pub online : m.online.enabled ≡ n.online.enabled
  pub players : m.players.enabled ≡ n.players.enabled
  pub latency : m.latency.enabled ≡ n.latency.enabled
  pub loss : m.loss.enabled ≡ n.loss.enabled

pub record AllEnabled (m : Monitors) : Type 0 where
  pub online : m.online.enabled ≡ true
  pub players : m.players.enabled ≡ true
  pub latency : m.latency.enabled ≡ true
  pub loss : m.loss.enabled ≡ true

-- A monitor that was set on purpose, and one that was not: the flag and the interval.
abbrev pub IsGiven : Bool → ℤ → Type 0
IsGiven enabled interval = (enabled ≡ true) ⊎ (pos 1 ≤ℤ interval)

abbrev pub IsOmitted : Bool → ℤ → Type 0
IsOmitted enabled interval = (enabled ≡ false) × (interval ≤ℤ pos 0)

abbrev pub SomeGiven : Monitors → Type 0
SomeGiven m =
    IsGiven m.online.enabled m.online.interval_sec
    ⊎ IsGiven m.players.enabled m.players.interval_sec
    ⊎ IsGiven m.latency.enabled m.latency.interval_sec
    ⊎ IsGiven m.loss.enabled m.loss.interval_sec

pub record NoneGiven (m : Monitors) : Type 0 where
  pub online : IsOmitted m.online.enabled m.online.interval_sec
  pub players : IsOmitted m.players.enabled m.players.interval_sec
  pub latency : IsOmitted m.latency.enabled m.latency.interval_sec
  pub loss : IsOmitted m.loss.enabled m.loss.interval_sec

IsGiven-cases : (b : Bool) (v : ℤ) → IsGiven b v ⊎ IsOmitted b v
IsGiven-cases true v = inl (inl refl)
IsGiven-cases false v = elim (Bool-cases (ltb_ℤ (pos 0) v)) [
  | inl above ↦ inl (inr (ground (arith, above)))
  | inr below ↦ inr (refl, ground (arith, below))
]

SomeGiven-cases : (m : Monitors) → SomeGiven m ⊎ NoneGiven m
SomeGiven-cases m = elim (IsGiven-cases m.online.enabled m.online.interval_sec) [
  | inl a ↦ inl (inl a)
  | inr a ↦ elim (IsGiven-cases m.players.enabled m.players.interval_sec) [
    | inl b ↦ inl (inr (inl b))
    | inr b ↦ elim (IsGiven-cases m.latency.enabled m.latency.interval_sec) [
      | inl c ↦ inl (inr (inr (inl c)))
      | inr c ↦ elim (IsGiven-cases m.loss.enabled m.loss.interval_sec) [
        | inl d ↦ inl (inr (inr (inr d)))
        | inr d ↦ inr (record { online = a; players = b; latency = c; loss = d })
      ]
    ]
  ]
]

has_explicit_monitors-SomeGiven :
    (t : Target) → SomeGiven t.monitors → has_explicit_monitors t ≡ true
unfolding has_explicit_monitors
has_explicit_monitors-SomeGiven t h = ground (arith, h)

has_explicit_monitors-NoneGiven :
    (t : Target) → NoneGiven t.monitors → has_explicit_monitors t ≡ false
unfolding has_explicit_monitors
has_explicit_monitors-NoneGiven t h = ground (arith, h.online, h.players, h.latency, h.loss)

-- A target with an enabled monitor, or with a positive interval of a monitor, keeps all four flags;
-- any other target, as an old configuration file writes it, gets all four monitors enabled.
pub normalized-SameFlags :
    (t : Target)
    → (SomeGiven t.monitors × SameFlags (normalized t).monitors t.monitors)
      ⊎ (NoneGiven t.monitors × AllEnabled (normalized t).monitors)
unfolding normalized own_defaults normalized_monitors simple_defaults probe_defaults all_enabled
    has_explicit_monitors
normalized-SameFlags t = elim (SomeGiven-cases t.monitors) [
  | inl set ↦ inl (
    set,
    rw (has_explicit_monitors-SomeGiven t set)
        (record { online = refl; players = refl; latency = refl; loss = refl }),
  )
  | inr unset ↦ inr (
    unset,
    rw (has_explicit_monitors-NoneGiven t unset)
        (record { online = refl; players = refl; latency = refl; loss = refl }),
  )
]

-- normalized leaves the identity and the address of a target alone.
pub record SameAddress (s t : Target) : Type 0 where
  pub id : s.id ≡ t.id
  pub name : s.name ≡ t.name
  pub host : s.host ≡ t.host
  pub port : s.port ≡ t.port

pub normalized-SameAddress : (t : Target) → SameAddress (normalized t) t
unfolding normalized own_defaults
normalized-SameAddress t = record { id = refl; name = refl; host = refl; port = refl }
