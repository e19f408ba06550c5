-- ===== src/Prober/Examples.antt =====
-- Runs of internal/app/prober.go on a small target, and its theorems at concrete inputs.
use mcmon.Prelude.{
  List, ℕ, ◌*◌, ◌*ℤ◌, Bool-cases, inl, inr, ◌+◌, ◌≡◌, ◌≢◌, ◌⊎◌, refl, pos, true, false, none, some,
  [], ◌∷◌, length, All, arith, ◌==◌, if◌then◌else◌,
}
use mcmon.Config.Target.{
  SimpleMonitor, ProbeMonitor, Target, normalized, normalized_monitors, own_defaults,
  simple_defaults, probe_defaults, all_enabled, unless_positive, unless_natural, unless_set,
  has_explicit_monitors,
}
use mcmon.Mcping.Session.{PingResult}
use mcmon.Mcping.Result.{eof}
use mcmon.Prober.Clock.{
  timeout_for, ticker_interval, milliseconds, to_i64, signed, to_u64, timeout_for_exact,
}
use mcmon.Prober.Schedule.{
  run_latency_and_loss_once, run_latency_once, run_loss_once, plan, add_if, can_share_latency_loss,
  effective_probe_protocol,
}
use mcmon.Prober.Schedule.Laws.{latency, intervals, is_enabled, interval_of, plan-intervals}
use mcmon.Prober.Percentile.{percentile, at_index, interpolated, scaled}
use mcmon.Prober.Burst.{
  Pings, BurstResult, ping_of, burst_tally, run_probe_burst, burst_result, probe_loop, round,
  tallied,
}
use mcmon.Prober.Burst.Laws.{
  answers, steps_of, IsBurst, Extremes, run_probe_burst_lem, run_probe_burst-shared,
}
use mcmon.Prober.Record.{Insertion, Surroundings, run_job}
use mcmon.Prober.Record.Laws.{keys, due, both, run_job-due, run_job-both}
use mcmon.Prober.Manager.{
  set_stops, set_closing, mark_closed, close_chan, Manager, new_manager, start, begin_stop,
  close_next,
}
use mcmon.Prober.Manager.Sound.{IsOrderly, new_manager-IsOrderly}
use mcmon.Prober.Manager.Start.{restarted, start-restarted}
use mcmon.Prober.Manager.Runs.{Replaces, start-Replaces}
use mcmon.Prober.Manager.Steps.{
  starts, begins, closes_one, Reachable, created, later, Reachable-IsOrderly, never_panics,
  no_orphans,
}

abbrev simple_monitor : SimpleMonitor
simple_monitor = record { enabled = true; interval_sec = pos 60 }

abbrev probe_monitor : ProbeMonitor
probe_monitor = record {
  enabled = true;
  interval_sec = pos 30;
  probes_per_burst = pos 4;
  probe_gap_ms = pos 100;
  protocol_version = pos 760;
}

abbrev server : Target
server = record {
  id = "one";
  name = "One";
  host = "mc.example.com";
  port = pos 25565;
  timeout_ms = pos 1500;
  monitors = record {
    online = simple_monitor;
    players = record { enabled = false; interval_sec = pos 60 };
    latency = probe_monitor;
    loss = probe_monitor;
  };
  interval_sec = pos 60;
  probes_per_burst = pos 5;
  probe_gap_ms = pos 1500;
  protocol_version = pos 760;
}

-- Every second ping fails; the others take 10 ms, 12 ms and so on.
abbrev answered : ℕ → PingResult
answered us = record {
  is_ok = true;
  latency_us = us;
  players_online = none;
  players_max = none;
  error = none;
}

abbrev unanswered : PingResult
unanswered = record {
  is_ok = false;
  latency_us = 0;
  players_online = none;
  players_max = none;
  error = some eof;
}

abbrev every_other : Pings
every_other i host port timeout proto =
    if i == 0 then answered 12000 else if i == 2 then answered 10000 else unanswered

two_of_four :
    run_probe_burst every_other server probe_monitor
    ≡ some
        (record { min = some 10000; p50_twice = some 22000; max = some 12000; lost = 2; sent = 4 })
unfolding run_probe_burst burst_tally burst_result probe_loop round tallied unless_positive ping_of
    percentile at_index interpolated scaled milliseconds to_i64 signed to_u64 ◌*ℤ◌
two_of_four = refl

run_probe_burst_lem_example :
    (r : BurstResult) × (run_probe_burst every_other server probe_monitor ≡ some r)
    × IsBurst (pos 4) r.sent
    × (r.lost + length (answers (ping_of every_other server probe_monitor) r.sent 0) ≡ r.sent)
    × Extremes (answers (ping_of every_other server probe_monitor) r.sent 0) r
    × ((burst_tally every_other server probe_monitor).trace
        ≡ steps_of (milliseconds (pos 100)) r.sent 0)
run_probe_burst_lem_example = run_probe_burst_lem every_other server probe_monitor

shares : can_share_latency_loss server ≡ true
unfolding can_share_latency_loss effective_probe_protocol
shares = refl

run_probe_burst-shared_example :
    run_probe_burst every_other server server.monitors.latency
    ≡ run_probe_burst every_other server server.monitors.loss
run_probe_burst-shared_example =
    run_probe_burst-shared every_other server shares (omega arith) (omega arith)

plan-intervals_example :
    intervals latency (plan server)
    ≡ (if is_enabled server latency then interval_of server latency ∷ [] else [])
plan-intervals_example = plan-intervals server latency

timeout_for_exact_example :
    (timeout_for server ≡ pos (1500 * 1000000)) × (ticker_interval (pos 30) ≡ pos (30 * 1000000000))
timeout_for_exact_example =
    timeout_for_exact server 1500 30 refl (omega arith, omega arith) (omega arith, omega arith)

start-Replaces_example :
    (m' : Manager) × (start server new_manager ≡ some m')
    × IsOrderly m'
    × Replaces (normalized server) new_manager m'
start-Replaces_example = start-Replaces server new_manager new_manager-IsOrderly

-- The server is started once, and a call of Stop takes its channels.
abbrev running : Manager
running = restarted (normalized server) new_manager

abbrev stopping : Manager
stopping = begin_stop "one" running

running-Reachable : Reachable running
running-Reachable =
    later new_manager running created
      (starts server new_manager running (start-restarted server new_manager new_manager-IsOrderly))

stopping-Reachable : Reachable stopping
stopping-Reachable = later running stopping running-Reachable (begins "one" running)

Reachable-IsOrderly_example : IsOrderly stopping
Reachable-IsOrderly_example = Reachable-IsOrderly stopping stopping-Reachable

never_panics_example :
    ((m' : Manager) × (start server stopping ≡ some m'))
    × ((m' : Manager) × (close_next 0 stopping ≡ some m'))
never_panics_example = never_panics stopping stopping-Reachable server 0

-- The two rounds of that call.
abbrev half_stopped : Manager
half_stopped = record stopping {
  closing = set_closing 0 (1 ∷ []) stopping.closing;
  is_closed = mark_closed 0 stopping.is_closed;
}

abbrev stopped : Manager
stopped = record half_stopped {
  closing = set_closing 0 [] half_stopped.closing;
  is_closed = mark_closed 1 half_stopped.is_closed;
}

first_round : close_next 0 stopping ≡ some half_stopped
unfolding close_next close_chan mark_closed begin_stop set_closing set_stops plan add_if
    can_share_latency_loss effective_probe_protocol normalized normalized_monitors own_defaults
    simple_defaults probe_defaults all_enabled unless_positive unless_natural unless_set
    has_explicit_monitors
first_round = refl

second_round : close_next 0 half_stopped ≡ some stopped
unfolding close_next close_chan mark_closed begin_stop set_closing set_stops plan add_if
    can_share_latency_loss effective_probe_protocol normalized normalized_monitors own_defaults
    simple_defaults probe_defaults all_enabled unless_positive unless_natural unless_set
    has_explicit_monitors
second_round = refl

stopped-Reachable : Reachable stopped
stopped-Reachable =
    later half_stopped stopped
      (later stopping half_stopped stopping-Reachable
        (closes_one 0 stopping half_stopped first_round))
      (closes_one 0 half_stopped stopped second_round)

unlisted : stopped.stops "one" ≡ []
unfolding begin_stop set_stops
unlisted = refl

idle : (k : ℕ) → stopped.closing k ≡ []
unfolding begin_stop set_closing
idle k = elim (Bool-cases (0 == k)) [ inl same ↦ rw same | inr other ↦ rw other ]

no_orphans_example :
    All (λ l. (l.target.id ≢ "one") ⊎ (stopped.is_closed l.chan ≡ true)) stopped.loops
no_orphans_example = no_orphans stopped stopped-Reachable "one" unlisted idle

-- A server that answers a status request with 7 of 20 players.
abbrev around : Surroundings
around = record {
  status = λ host port timeout proto. record {
    is_ok = true;
    latency_us = 0;
    players_online = some (pos 7);
    players_max = some (pos 20);
    error = none;
  };
  pings = every_other;
  now = pos 1700000000;
  max_json = λ n. "{}";
  burst_json = λ low mid high lost. "{}";
}

run_job-due_example :
    (rows : List Insertion) × (run_job around server run_latency_and_loss_once ≡ some rows)
    × (keys rows ≡ due server (pos 1700000000) run_latency_and_loss_once)
run_job-due_example = run_job-due around server run_latency_and_loss_once

run_job-both_example :
    run_job around server run_latency_and_loss_once
    ≡ both (run_job around server run_latency_once) (run_job around server run_loss_once)
run_job-both_example = run_job-both around server shares (omega arith) (omega arith)
