-- ===== src/Config/Target/Normal.antt =====
-- normalized fills in what is missing, keeps what is set, and changes nothing the second time.
use mcmon.Prelude.{◌≡◌, ◌≢◌, ◌⊎◌, ap, ◌∙◌, ℤ, pos, ◌≤ℤ◌, Bool, true, false, arith, if◌then◌else◌}
use mcmon.Config.Target.{
  SimpleMonitor, ProbeMonitor, Monitors, Target, default_protocol_version, unless_positive,
  unless_natural, unless_set, has_explicit_monitors, normalized_monitors, normalized, own_defaults,
  simple_defaults, probe_defaults, all_enabled,
}

pub record ProbeIsNormal (t : Target) (m : ProbeMonitor) : Type 0 where
  pub interval : pos 1 ≤ℤ m.interval_sec
  pub burst : pos 1 ≤ℤ m.probes_per_burst
  pub gap : (pos 1 ≤ℤ m.probe_gap_ms) ⊎ (m.probe_gap_ms ≡ t.probe_gap_ms)
  pub proto : m.protocol_version ≢ pos 0

-- A target with nothing left to fill in.
pub record IsNormal (t : Target) : Type 0 where
  pub interval : pos 1 ≤ℤ t.interval_sec
  pub timeout : pos 1 ≤ℤ t.timeout_ms
  pub burst : pos 1 ≤ℤ t.probes_per_burst
  pub gap : pos 0 ≤ℤ t.probe_gap_ms
  pub proto : t.protocol_version ≢ pos 0
  pub online : pos 1 ≤ℤ t.monitors.online.interval_sec
  pub players : pos 1 ≤ℤ t.monitors.players.interval_sec
  pub latency : ProbeIsNormal t t.monitors.latency
  pub loss : ProbeIsNormal t t.monitors.loss

unless_positive-pos : (d v : ℤ) → pos 1 ≤ℤ d → pos 1 ≤ℤ unless_positive d v
unfolding unless_positive
unless_positive-pos d v h = ground arith

unless_positive_self : (d v : ℤ) → pos 1 ≤ℤ v → unless_positive d v ≡ v
unfolding unless_positive
unless_positive_self d v h = ground arith

unless_natural-nonneg : (v : ℤ) → pos 0 ≤ℤ unless_natural (pos 0) v
unfolding unless_natural
unless_natural-nonneg v = ground arith

unless_natural_self : (d v : ℤ) → pos 0 ≤ℤ v → unless_natural d v ≡ v
unfolding unless_natural
unless_natural_self d v h = ground arith

unless_set-ne : (d v : ℤ) → d ≢ pos 0 → unless_set d v ≢ pos 0
unfolding unless_set
unless_set-ne d v h = ground arith

unless_set_self : (d v : ℤ) → v ≢ pos 0 → unless_set d v ≡ v
unfolding unless_set
unless_set_self d v h = ground arith

gap_inherits : (d v : ℤ) → (pos 1 ≤ℤ unless_positive d v) ⊎ (unless_positive d v ≡ d)
unfolding unless_positive
gap_inherits d v = ground arith

own_defaults_self : (t : Target) → IsNormal t → own_defaults t ≡ t
unfolding own_defaults
own_defaults_self t n = λ i. record t {
  interval_sec = unless_positive_self (pos 60) t.interval_sec n.interval i;
  timeout_ms = unless_positive_self (pos 1500) t.timeout_ms n.timeout i;
  probes_per_burst = unless_positive_self (pos 5) t.probes_per_burst n.burst i;
  probe_gap_ms = unless_natural_self (pos 0) t.probe_gap_ms n.gap i;
  protocol_version = unless_set_self default_protocol_version t.protocol_version n.proto i;
}

simple_defaults_self :
    (d : ℤ) (m : SimpleMonitor) → pos 1 ≤ℤ m.interval_sec → simple_defaults d m ≡ m
unfolding simple_defaults
simple_defaults_self d m h =
    λ i. record m { interval_sec = unless_positive_self d m.interval_sec h i }

gap_self : (g v : ℤ) → (pos 1 ≤ℤ v) ⊎ (v ≡ g) → unless_positive g v ≡ v
unfolding unless_positive
gap_self g v h = ground arith

probe_defaults_self :
    (t : Target) (m : ProbeMonitor) (interval burst gap proto : ℤ)
    → gap ≡ t.probe_gap_ms
    → ProbeIsNormal t m
    → probe_defaults interval burst gap proto m ≡ m
unfolding probe_defaults
probe_defaults_self t m interval burst gap proto e n = λ i. record m {
  interval_sec = unless_positive_self interval m.interval_sec n.interval i;
  probes_per_burst = unless_positive_self burst m.probes_per_burst n.burst i;
  probe_gap_ms = gap_self gap m.probe_gap_ms (rw e n.gap) i;
  protocol_version = unless_set_self proto m.protocol_version n.proto i;
}

-- A normal target has explicit monitors, because their intervals are positive.
IsNormal-explicit : (t : Target) → IsNormal t → has_explicit_monitors t ≡ true
unfolding has_explicit_monitors
IsNormal-explicit t n = let h = n.online in ground arith

normalized_monitors_self : (t : Target) → IsNormal t → normalized_monitors t ≡ t.monitors
unfolding normalized_monitors
normalized_monitors_self t n =
    let interval = unless_positive (pos 60) t.interval_sec in
    let burst = unless_positive (pos 5) t.probes_per_burst in
    let gap = unless_natural (pos 0) t.probe_gap_ms in
    let proto = unless_set default_protocol_version t.protocol_version in
    let kept = unless_natural_self (pos 0) t.probe_gap_ms n.gap in
    let m = t.monitors in
    let online = simple_defaults_self interval m.online n.online in
    let players = simple_defaults_self interval m.players n.players in
    let latency = probe_defaults_self t m.latency interval burst gap proto kept n.latency in
    let loss = probe_defaults_self t m.loss interval burst gap proto kept n.loss in
    rw (IsNormal-explicit t n)
      λ i. record { online = online i; players = players i; latency = latency i; loss = loss i }

-- normalized leaves a normal target as it is.
pub normalized_self : (t : Target) → IsNormal t → normalized t ≡ t
unfolding normalized
normalized_self t n =
    ap (λ (s : Target). record s { monitors = normalized_monitors s }) (own_defaults_self t n)
    ∙ ap (λ (m : Monitors). record t { monitors = m }) (normalized_monitors_self t n)

probe_defaults-ProbeIsNormal :
    (t : Target) (m : ProbeMonitor) (interval burst gap proto : ℤ)
    → pos 1 ≤ℤ interval
    → pos 1 ≤ℤ burst
    → gap ≡ t.probe_gap_ms
    → proto ≢ pos 0
    → ProbeIsNormal t (probe_defaults interval burst gap proto m)
unfolding probe_defaults
probe_defaults-ProbeIsNormal t m interval burst gap proto hi hb hg hp = record {
  interval = unless_positive-pos interval m.interval_sec hi;
  burst = unless_positive-pos burst m.probes_per_burst hb;
  gap = rw (← hg) (gap_inherits gap m.probe_gap_ms);
  proto = unless_set-ne proto m.protocol_version hp;
}

simple_defaults-pos :
    (d : ℤ) (m : SimpleMonitor) → pos 1 ≤ℤ d → pos 1 ≤ℤ (simple_defaults d m).interval_sec
unfolding simple_defaults
simple_defaults-pos d m h = unless_positive-pos d m.interval_sec h

record MonitorsAreNormal (t : Target) (m : Monitors) : Type 0 where
  online : pos 1 ≤ℤ m.online.interval_sec
  players : pos 1 ≤ℤ m.players.interval_sec
  latency : ProbeIsNormal t m.latency
  loss : ProbeIsNormal t m.loss

all_enabled-MonitorsAreNormal :
    (t : Target) (m : Monitors) → MonitorsAreNormal t m → MonitorsAreNormal t (all_enabled m)
unfolding all_enabled
all_enabled-MonitorsAreNormal t m n = record {
  online = n.online;
  players = n.players;
  latency = record {
    interval = n.latency.interval;
    burst = n.latency.burst;
    gap = n.latency.gap;
    proto = n.latency.proto;
  };
  loss = record {
    interval = n.loss.interval;
    burst = n.loss.burst;
    gap = n.loss.gap;
    proto = n.loss.proto;
  };
}

if-MonitorsAreNormal :
    (b : Bool) (t : Target) (m : Monitors)
    → MonitorsAreNormal t m
    → MonitorsAreNormal t (if b then m else all_enabled m)
if-MonitorsAreNormal true t m n = n
if-MonitorsAreNormal false t m n = all_enabled-MonitorsAreNormal t m n

default_set : default_protocol_version ≢ pos 0
default_set = ground arith

normalized_monitors-MonitorsAreNormal :
    (t : Target) → pos 0 ≤ℤ t.probe_gap_ms → MonitorsAreNormal t (normalized_monitors t)
unfolding normalized_monitors
normalized_monitors-MonitorsAreNormal t h =
    let interval = unless_positive (pos 60) t.interval_sec in
    let burst = unless_positive (pos 5) t.probes_per_burst in
    let gap = unless_natural (pos 0) t.probe_gap_ms in
    let proto = unless_set default_protocol_version t.protocol_version in
    let interval_pos = unless_positive-pos (pos 60) t.interval_sec (omega arith) in
    let burst_pos = unless_positive-pos (pos 5) t.probes_per_burst (omega arith) in
    let same_gap = unless_natural_self (pos 0) t.probe_gap_ms h in
    let proto_set = unless_set-ne default_protocol_version t.protocol_version default_set in
    let probe = λ (m : ProbeMonitor).
      probe_defaults-ProbeIsNormal t m interval burst gap proto interval_pos burst_pos same_gap
        proto_set in
    if-MonitorsAreNormal (has_explicit_monitors t) t _ (record {
      online = simple_defaults-pos interval t.monitors.online interval_pos;
      players = simple_defaults-pos interval t.monitors.players interval_pos;
      latency = probe t.monitors.latency;
      loss = probe t.monitors.loss;
    })

-- Every target that normalized returns has nothing left to fill in: positive intervals, timeout and
-- bursts, a gap that is not negative, a protocol version that is not 0, for each monitor too, and
-- monitors whose gap is positive or the target's.
pub normalized-IsNormal : (t : Target) → IsNormal (normalized t)
unfolding normalized own_defaults
normalized-IsNormal t =
    let m =
      normalized_monitors-MonitorsAreNormal (own_defaults t)
        (unless_natural-nonneg t.probe_gap_ms) in
    record {
      interval = unless_positive-pos (pos 60) t.interval_sec (omega arith);
      timeout = unless_positive-pos (pos 1500) t.timeout_ms (omega arith);
      burst = unless_positive-pos (pos 5) t.probes_per_burst (omega arith);
      gap = unless_natural-nonneg t.probe_gap_ms;
      proto = unless_set-ne default_protocol_version t.protocol_version default_set;
      online = m.online;
      players = m.players;
      latency = record {
        interval = m.latency.interval;
        burst = m.latency.burst;
        gap = m.latency.gap;
        proto = m.latency.proto;
      };
      loss = record {
        interval = m.loss.interval;
        burst = m.loss.burst;
        gap = m.loss.gap;
        proto = m.loss.proto;
      };
    }

-- Normalizing twice is normalizing once.
pub normalized_idem : (t : Target) → normalized (normalized t) ≡ normalized t
normalized_idem t = normalized_self (normalized t) (normalized-IsNormal t)
