-- ===== src/Prober/Record.antt =====
-- The runs of a loop, of internal/app/prober.go: runOnlineOnce to runLatencyAndLossOnce, with the functions
-- that store their results. A failed insertion is only logged, so a run is the list of the insertions
-- that it tries, in their order; `none` is a panic.
pub mod Laws
use mcmon.Prelude.{
  ℕ, String, ℤ, pos, Bool, true, false, not, ◌||◌, Option, none, some, List, [], ◌∷◌, ◌++◌,
  if◌then◌else◌,
}
use mcmon.Config.Target.{Target, ProbeMonitor, default_protocol_version}
use mcmon.Mcping.Session.{PingResult}
use mcmon.Storage.{Number, Sample, MetricSample}
use mcmon.Prober.Clock.{timeout_for}
use mcmon.Prober.Schedule.{
  Job, run_online_once, run_players_once, run_latency_and_loss_once, run_latency_once,
  run_loss_once,
}
use mcmon.Prober.Burst.{Pings, BurstResult, run_probe_burst}

-- A call of Insert or of InsertMetric.
pub data Insertion : Type 0 where
  insert : Sample → Insertion
  insert_metric : MetricSample → Insertion

-- What a run meets: the answers of mcping.StatusRequest and mcping.Ping, the clock, and the texts of
-- json.Marshal for the players' maximum and for the numbers of a burst.
pub record Surroundings : Type 0 where
  pub status : String → ℤ → ℤ → ℤ → PingResult
  pub pings : Pings
  pub now : ℤ
  pub max_json : ℤ → String
  pub burst_json : Option Number → Option Number → Option Number → Number → String

abbrev pub metric_online : String
metric_online = "online"

abbrev pub metric_players : String
metric_players = "players"

abbrev pub metric_latency : String
metric_latency = "latency"

abbrev pub metric_loss : String
metric_loss = "loss"

-- The numbers of a burst: milliseconds out of microseconds, and the share that is lost.
unfoldable pub over : ℕ → Option ℕ → Option Number
over den none = none
over den (some n) = some (record { num = pos n; den = den })

unfoldable pub min_of : BurstResult → Option Number
min_of r = over 1000 r.min

unfoldable pub p50_of : BurstResult → Option Number
p50_of r = over 2000 r.p50_twice

unfoldable pub max_of : BurstResult → Option Number
max_of r = over 1000 r.max

unfoldable pub loss_of : BurstResult → Number
loss_of r = record { num = pos r.lost; den = r.sent }

abbrev pub metric_sample : Target → String → ℤ → Option Number → String → Insertion
metric_sample t metric ts value extra =
    insert_metric
      (record { target_id = t.id; metric = metric; ts = ts; value = value; extra = extra })

module _ (around : Surroundings) (t : Target) where
  -- StatusRequest is asked with the default protocol version.
  status_result : PingResult
  status_result = around.status t.host t.port (timeout_for t) default_protocol_version

  online_run : List Insertion
  unfolding status_result
  online_run =
      let value = if status_result.is_ok then pos 1 else pos 0 in
      metric_sample t metric_online around.now (some (record { num = value; den = 1 })) "" ∷ []

  players_extra : Option ℤ → String
  players_extra none = ""
  players_extra (some max) = around.max_json max

  -- The row for `res.OK`, `res.PlayersOnline` and `res.PlayersMax`.
  players_row : Bool → Option ℤ → Option ℤ → Insertion
  unfolding players_extra
  players_row true (some online) max =
      metric_sample t metric_players around.now (some (record { num = online; den = 1 }))
        (players_extra max)
  players_row _ _ max = metric_sample t metric_players around.now none ""

  players_run : List Insertion
  unfolding status_result players_row
  players_run =
      let res = status_result in players_row res.is_ok res.players_online res.players_max ∷ []

  insert_legacy_sample : BurstResult → Insertion
  unfolding min_of p50_of max_of loss_of
  insert_legacy_sample r = insert (record {
    target_id = t.id;
    ts = around.now;
    min = min_of r;
    p50 = p50_of r;
    max = max_of r;
    loss_pct = loss_of r;
  })

  latency_extra : BurstResult → String
  unfolding min_of p50_of max_of loss_of
  latency_extra r = around.burst_json (min_of r) (p50_of r) (max_of r) (loss_of r)

  store_latency_result : BurstResult → List Insertion
  unfolding insert_legacy_sample latency_extra
  store_latency_result r =
      insert_legacy_sample r
      ∷ metric_sample t metric_latency around.now (p50_of r) (latency_extra r)
      ∷ []

  store_loss_result : BurstResult → List Insertion
  unfolding loss_of
  store_loss_result r = metric_sample t metric_loss around.now (some (loss_of r)) "" ∷ []

  after_burst : (BurstResult → List Insertion) → Option BurstResult → Option (List Insertion)
  after_burst store none = none
  after_burst store (some r) = some (store r)

  -- One call of the function of a loop.
  unfoldable pub run_job : Job → Option (List Insertion)
  unfolding online_run players_run store_latency_result store_loss_result after_burst
  run_job run_online_once = some online_run
  run_job run_players_once = some players_run
  run_job run_latency_once =
      after_burst store_latency_result (run_probe_burst around.pings t t.monitors.latency)
  run_job run_loss_once =
      after_burst store_loss_result (run_probe_burst around.pings t t.monitors.loss)
  run_job run_latency_and_loss_once =
      after_burst (λ r. store_latency_result r ++ store_loss_result r)
        (run_probe_burst around.pings t t.monitors.latency)
