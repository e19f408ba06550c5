-- ===== src/Prober/Schedule/Laws.antt =====
-- What the loops of a target record.
use mcmon.Prelude.{
  ◌≡◌, refl, ℤ, Bool, true, false, ◌&&◌, List, [], ◌∷◌, eq_ℤ, eq_ℤ_iff, if◌then◌else◌, Bool-cases,
  inl, inr, arith,
}
use mcmon.Config.Target.{Target, ProbeMonitor}
use mcmon.Prober.Schedule.{
  Job, run_online_once, run_players_once, run_latency_and_loss_once, run_latency_once,
  run_loss_once, Task, add_if, plan, can_share_latency_loss, effective_probe_protocol,
}

-- The four kinds of metric that the store keeps.
pub data Metric : Type 0 where
  online players latency loss : Metric

-- Whether a run of a job records a metric.
abbrev pub records : Job → Metric → Bool
records run_online_once online = true
records run_players_once players = true
records run_latency_once latency = true
records run_loss_once loss = true
records run_latency_and_loss_once latency = true
records run_latency_and_loss_once loss = true
records _ _ = false

abbrev pub is_enabled : Target → Metric → Bool
is_enabled t online = t.monitors.online.enabled
is_enabled t players = t.monitors.players.enabled
is_enabled t latency = t.monitors.latency.enabled
is_enabled t loss = t.monitors.loss.enabled

abbrev pub interval_of : Target → Metric → ℤ
interval_of t online = t.monitors.online.interval_sec
interval_of t players = t.monitors.players.interval_sec
interval_of t latency = t.monitors.latency.interval_sec
interval_of t loss = t.monitors.loss.interval_sec

-- The intervals of the loops that record a metric.
abbrev pub intervals : Metric → List Task → List ℤ
intervals metric [] = []
intervals metric (task ∷ tasks) =
    if records task.job metric
    then task.interval_sec ∷ intervals metric tasks
    else intervals metric tasks

-- Two probe monitors that one burst can serve, by the conditions of canShareLatencyLoss.
pub record Alike (t : Target) (a b : ProbeMonitor) : Type 0 where
  pub enabled : (a.enabled ≡ true) × (b.enabled ≡ true)
  pub interval : a.interval_sec ≡ b.interval_sec
  pub burst : a.probes_per_burst ≡ b.probes_per_burst
  pub gap : a.probe_gap_ms ≡ b.probe_gap_ms
  pub protocol : effective_probe_protocol t a ≡ effective_probe_protocol t b

&&_split : (a b : Bool) → a && b ≡ true → (a ≡ true) × (b ≡ true)
&&_split true true h = (refl, refl)
&&_split true false h = cc
&&_split false b h = cc

pub can_share_latency_loss-Alike :
    (t : Target) → can_share_latency_loss t ≡ true → Alike t t.monitors.latency t.monitors.loss
unfolding can_share_latency_loss
can_share_latency_loss-Alike t h =
    let a = t.monitors.latency in
    let b = t.monitors.loss in
    let protocol = eq_ℤ (effective_probe_protocol t a) (effective_probe_protocol t b) in
    let gap = eq_ℤ a.probe_gap_ms b.probe_gap_ms in
    let burst = eq_ℤ a.probes_per_burst b.probes_per_burst in
    let interval = eq_ℤ a.interval_sec b.interval_sec in
    let (h1, same_protocol) =
      &&_split (a.enabled && b.enabled && interval && burst && gap) protocol h in
    let (h2, same_gap) = &&_split (a.enabled && b.enabled && interval && burst) gap h1 in
    let (h3, same_burst) = &&_split (a.enabled && b.enabled && interval) burst h2 in
    let (h4, same_interval) = &&_split (a.enabled && b.enabled) interval h3 in
    let (a_on, b_on) = &&_split a.enabled b.enabled h4 in
    record {
      enabled = (a_on, b_on);
      interval = (eq_ℤ_iff _ _).0 same_interval;
      burst = (eq_ℤ_iff _ _).0 same_burst;
      gap = (eq_ℤ_iff _ _).0 same_gap;
      protocol = (eq_ℤ_iff _ _).0 same_protocol;
    }

intervals-add_if :
    (metric : Metric) (enabled : Bool) (job : Job) (i : ℤ) (later : List Task)
    → intervals metric (add_if enabled job i later) ≡ (
        if enabled && records job metric
        then i ∷ intervals metric later
        else intervals metric later)
unfolding add_if
intervals-add_if metric true job i later = refl
intervals-add_if metric false job i later = refl

-- The calls of `add` for latency and loss.
burst_tasks : Target → List Task
burst_tasks t =
    if can_share_latency_loss t
    then record { job = run_latency_and_loss_once; interval_sec = t.monitors.latency.interval_sec }
      ∷ []
    else add_if t.monitors.latency.enabled run_latency_once t.monitors.latency.interval_sec
        (add_if t.monitors.loss.enabled run_loss_once t.monitors.loss.interval_sec [])

intervals-shared :
    (t : Target) (metric : Metric)
    → Alike t t.monitors.latency t.monitors.loss
    → (if records run_latency_and_loss_once metric
        then t.monitors.latency.interval_sec ∷ []
        else [])
      ≡ (if records run_latency_and_loss_once metric && is_enabled t metric
          then interval_of t metric ∷ []
          else [])
intervals-shared t online a = refl
intervals-shared t players a = refl
intervals-shared t latency a = rw (a.enabled.0)
intervals-shared t loss a = rw (a.enabled.1, a.interval)

intervals-apart :
    (t : Target) (metric : Metric)
    → intervals metric (
        add_if t.monitors.latency.enabled run_latency_once t.monitors.latency.interval_sec
          (add_if t.monitors.loss.enabled run_loss_once t.monitors.loss.interval_sec []))
      ≡ (if records run_latency_and_loss_once metric && is_enabled t metric
          then interval_of t metric ∷ []
          else [])
unfolding add_if
intervals-apart t online = ground arith
intervals-apart t players = ground arith
intervals-apart t latency = ground arith
intervals-apart t loss = ground arith

intervals-burst_tasks :
    (t : Target) (metric : Metric)
    → intervals metric (burst_tasks t) ≡ (
        if records run_latency_and_loss_once metric && is_enabled t metric
        then interval_of t metric ∷ []
        else [])
unfolding burst_tasks
intervals-burst_tasks t metric = elim (Bool-cases (can_share_latency_loss t)) [
  | inl shared ↦ rw shared (intervals-shared t metric (can_share_latency_loss-Alike t shared))
  | inr apart ↦ rw apart (intervals-apart t metric)
]

-- Each enabled metric is recorded by exactly one of the loops that Start runs, at the metric's own
-- interval, also where one loop serves latency and loss; and no loop records any other metric.
pub plan-intervals :
    (t : Target) (metric : Metric)
    → intervals metric (plan t) ≡ (if is_enabled t metric then interval_of t metric ∷ [] else [])
unfolding plan burst_tasks
plan-intervals t online =
    rw (intervals-add_if, intervals-add_if, intervals-burst_tasks t online) (ground arith)
plan-intervals t players =
    rw (intervals-add_if, intervals-add_if, intervals-burst_tasks t players) (ground arith)
plan-intervals t latency =
    rw (intervals-add_if, intervals-add_if, intervals-burst_tasks t latency) (ground arith)
plan-intervals t loss =
    rw (intervals-add_if, intervals-add_if, intervals-burst_tasks t loss) (ground arith)
