-- ===== src/Prober/Schedule.antt =====
-- Which loops Start runs for a target: canShareLatencyLoss, effectiveProbeProtocol and the calls of
-- `add` in Start, of internal/app/prober.go.
pub mod Laws
use mcmon.Prelude.{
  ℕ, ℤ, pos, Bool, true, false, ◌&&◌, List, [], ◌∷◌, ◌++◌, eq_ℤ, ltb_ℤ, if◌then◌else◌,
}
use mcmon.Config.Target.{Target, ProbeMonitor, default_protocol_version}

unfoldable pub effective_probe_protocol : Target → ProbeMonitor → ℤ
effective_probe_protocol t mon =
    if ltb_ℤ (pos 0) mon.protocol_version
    then mon.protocol_version
    else if ltb_ℤ (pos 0) t.protocol_version
    then t.protocol_version
    else default_protocol_version

unfoldable pub can_share_latency_loss : Target → Bool
can_share_latency_loss t =
    let latency = t.monitors.latency in
    let loss = t.monitors.loss in
    latency.enabled
    && loss.enabled
    && eq_ℤ latency.interval_sec loss.interval_sec
    && eq_ℤ latency.probes_per_burst loss.probes_per_burst
    && eq_ℤ latency.probe_gap_ms loss.probe_gap_ms
    && eq_ℤ (effective_probe_protocol t latency) (effective_probe_protocol t loss)

-- What a loop calls: the function of the same name.
pub data Job : Type 0 where
  run_online_once run_players_once run_latency_and_loss_once run_latency_once run_loss_once : Job

-- One call of `add`.
pub record Task : Type 0 where
  pub job : Job
  pub interval_sec : ℤ

unfoldable pub add_if : Bool → Job → ℤ → List Task → List Task
add_if enabled job interval_sec later =
    if enabled then record { job = job; interval_sec = interval_sec } ∷ later else later

-- The calls of `add` for a normalized target, in their order.
unfoldable pub plan : Target → List Task
plan t =
    let m = t.monitors in
    add_if m.online.enabled run_online_once m.online.interval_sec (
      add_if m.players.enabled run_players_once m.players.interval_sec (
        if can_share_latency_loss t
        then record { job = run_latency_and_loss_once; interval_sec = m.latency.interval_sec } ∷ []
        else add_if m.latency.enabled run_latency_once m.latency.interval_sec
            (add_if m.loss.enabled run_loss_once m.loss.interval_sec [])))
