-- ===== src/Config/Target.antt =====
-- Target, its monitors, normalized, normalizedMonitors, hasExplicitMonitors and validate of
-- internal/app/config.go. Go's `int` is ℤ.
pub mod Normal
pub mod Valid
pub mod Flags
use mcmon.Prelude.{
  String, ℤ, pos, Bool, true, false, ◌||◌, Option, none, some, leb_ℤ, ltb_ℤ, eq_ℤ, is_blank,
  if◌then◌else◌,
}

pub record SimpleMonitor : Type 0 where
  pub enabled : Bool
  pub interval_sec : ℤ

pub record ProbeMonitor : Type 0 where
  pub enabled : Bool
  pub interval_sec : ℤ
  pub probes_per_burst : ℤ
  pub probe_gap_ms : ℤ
  pub protocol_version : ℤ

pub record Monitors : Type 0 where
  pub online : SimpleMonitor
  pub players : SimpleMonitor
  pub latency : ProbeMonitor
  pub loss : ProbeMonitor

pub record Target : Type 0 where
  pub id : String
  pub name : String
  pub host : String
  pub port : ℤ
  pub timeout_ms : ℤ
  pub monitors : Monitors
  pub interval_sec : ℤ
  pub probes_per_burst : ℤ
  pub probe_gap_ms : ℤ
  pub protocol_version : ℤ

abbrev pub default_protocol_version : ℤ
default_protocol_version = pos 760

-- `if v <= 0 { v = d }`, `if v < 0 { v = d }` and `if v == 0 { v = d }`.
unfoldable pub unless_positive : ℤ → ℤ → ℤ
unless_positive d v = if leb_ℤ v (pos 0) then d else v

unfoldable pub unless_natural : ℤ → ℤ → ℤ
unless_natural d v = if ltb_ℤ v (pos 0) then d else v

unfoldable pub unless_set : ℤ → ℤ → ℤ
unless_set d v = if eq_ℤ v (pos 0) then d else v

unfoldable pub has_explicit_monitors : Target → Bool
has_explicit_monitors t =
    t.monitors.online.enabled
    || t.monitors.players.enabled
    || t.monitors.latency.enabled
    || t.monitors.loss.enabled
    || ltb_ℤ (pos 0) t.monitors.online.interval_sec
    || ltb_ℤ (pos 0) t.monitors.players.interval_sec
    || ltb_ℤ (pos 0) t.monitors.latency.interval_sec
    || ltb_ℤ (pos 0) t.monitors.loss.interval_sec

-- The defaults that normalizedMonitors fills in, before the flags are looked at.
unfoldable pub simple_defaults : ℤ → SimpleMonitor → SimpleMonitor
simple_defaults interval m = record m { interval_sec = unless_positive interval m.interval_sec }

unfoldable pub probe_defaults : ℤ → ℤ → ℤ → ℤ → ProbeMonitor → ProbeMonitor
probe_defaults interval burst gap proto m = record m {
  interval_sec = unless_positive interval m.interval_sec;
  probes_per_burst = unless_positive burst m.probes_per_burst;
  probe_gap_ms = unless_positive gap m.probe_gap_ms;
  protocol_version = unless_set proto m.protocol_version;
}

unfoldable pub all_enabled : Monitors → Monitors
all_enabled m = record {
  online = record (m.online) { enabled = true };
  players = record (m.players) { enabled = true };
  latency = record (m.latency) { enabled = true };
  loss = record (m.loss) { enabled = true };
}

unfoldable pub normalized_monitors : Target → Monitors
normalized_monitors t =
    let interval = unless_positive (pos 60) t.interval_sec in
    let burst = unless_positive (pos 5) t.probes_per_burst in
    let gap = unless_natural (pos 0) t.probe_gap_ms in
    let proto = unless_set default_protocol_version t.protocol_version in
    let m : Monitors = record {
      online = simple_defaults interval t.monitors.online;
      players = simple_defaults interval t.monitors.players;
      latency = probe_defaults interval burst gap proto t.monitors.latency;
      loss = probe_defaults interval burst gap proto t.monitors.loss;
    } in
    if has_explicit_monitors t then m else all_enabled m

-- The fields of the target itself, as normalized sets them.
unfoldable pub own_defaults : Target → Target
own_defaults t = record t {
  interval_sec = unless_positive (pos 60) t.interval_sec;
  timeout_ms = unless_positive (pos 1500) t.timeout_ms;
  probes_per_burst = unless_positive (pos 5) t.probes_per_burst;
  probe_gap_ms = unless_natural (pos 0) t.probe_gap_ms;
  protocol_version = unless_set default_protocol_version t.protocol_version;
}

unfoldable pub normalized : Target → Target
normalized t = let t' = own_defaults t in record t' { monitors = normalized_monitors t' }

pub data Invalid : Type 0 where
  host_required port_out_of_range : Invalid

-- `none` is a target that passes.
unfoldable pub validate : Target → Option Invalid
validate t =
    if is_blank t.host
    then some host_required
    else if leb_ℤ t.port (pos 0) || ltb_ℤ (pos 65535) t.port
    then some port_out_of_range
    else none
