-- ===== src/Prober/Record/Laws.antt =====
-- What the runs of a loop store.
use mcmon.Prelude.{
  ◌≡◌, ap, sym, ◌∙◌, pos, ◌≤ℤ◌, refl, String, ℤ, Bool, true, false, Option, none, some, List, [],
  ◌∷◌, ◌++◌,
}
use mcmon.Config.Target.{Target, ProbeMonitor, default_protocol_version}
use mcmon.Prober.Clock.{timeout_for}
use mcmon.Prober.Schedule.{
  can_share_latency_loss, Job, run_online_once, run_players_once, run_latency_and_loss_once,
  run_latency_once, run_loss_once,
}
use mcmon.Prober.Burst.{BurstResult, run_probe_burst}
use mcmon.Prober.Burst.Laws.{run_probe_burst_lem, run_probe_burst-shared}
use mcmon.Prober.Record.{
  Insertion, insert, insert_metric, Surroundings, players_row, store_latency_result,
  store_loss_result, run_job,
}

-- The key of an insertion: the table, with the metric of its row, the target and the time.
abbrev pub key : Insertion → Option String × String × ℤ
key (insert s) = (none, s.target_id, s.ts)
key (insert_metric s) = (some s.metric, s.target_id, s.ts)

-- The rows that a run of a job has to write, by their keys.
abbrev pub due : Target → ℤ → Job → List (Option String × String × ℤ)
due t ts run_online_once = (some "online", t.id, ts) ∷ []
due t ts run_players_once = (some "players", t.id, ts) ∷ []
due t ts run_latency_once = (none, t.id, ts) ∷ (some "latency", t.id, ts) ∷ []
due t ts run_loss_once = (some "loss", t.id, ts) ∷ []
due t ts run_latency_and_loss_once =
    (none, t.id, ts) ∷ (some "latency", t.id, ts) ∷ (some "loss", t.id, ts) ∷ []

abbrev pub keys : List Insertion → List (Option String × String × ℤ)
keys [] = []
keys (x ∷ xs) = key x ∷ keys xs

-- The rows of two runs, one after the other.
abbrev pub both : Option (List Insertion) → Option (List Insertion) → Option (List Insertion)
both (some xs) (some ys) = some (xs ++ ys)
both _ _ = none

module _ (around : Surroundings) (t : Target) where
  key-players_row :
      (answered : Bool) (online max : Option ℤ)
      → key (players_row around t answered online max) ≡ (some "players", t.id, around.now)
  unfolding players_row
  key-players_row true (some n) max = refl
  key-players_row true none max = refl
  key-players_row false (some n) max = refl
  key-players_row false none max = refl

  burst_some :
      (mon : ProbeMonitor) → (r : BurstResult) × (run_probe_burst around.pings t mon ≡ some r)
  burst_some mon = let (r, e, _, _, _, _) = run_probe_burst_lem around.pings t mon in (r, e)

  -- The run of a job does not panic, and writes exactly the rows that are due, each under the target's id
  -- and the time of the run: one row of the job's metric, whether or not the server answers, and for
  -- the latency one row of the old table too.
  pub run_job-due :
      (job : Job)
      → (rows : List Insertion) × (run_job around t job ≡ some rows)
        × (keys rows ≡ due t around.now job)
  unfolding run_job
  run_job-due run_online_once = (_, refl, refl)
  run_job-due run_players_once =
      let res = around.status t.host t.port (timeout_for t) default_protocol_version in
      (_, refl, ap (λ k. k ∷ []) (key-players_row res.is_ok res.players_online res.players_max))
  run_job-due run_latency_once =
      let (r, e) = burst_some t.monitors.latency in (store_latency_result around t r, rw e, refl)
  run_job-due run_loss_once =
      let (r, e) = burst_some t.monitors.loss in (store_loss_result around t r, rw e, refl)
  run_job-due run_latency_and_loss_once =
      let (r, e) = burst_some t.monitors.latency in
      (store_latency_result around t r ++ store_loss_result around t r, rw e, refl)

  -- Where one loop serves latency and loss, its run writes what a run for the latency and then a run for
  -- the loss would write, if the pings give them the same answers and neither protocol version is
  -- negative.
  pub run_job-both :
      can_share_latency_loss t ≡ true
      → pos 0 ≤ℤ t.monitors.latency.protocol_version
      → pos 0 ≤ℤ t.monitors.loss.protocol_version
      → run_job around t run_latency_and_loss_once
        ≡ both (run_job around t run_latency_once) (run_job around t run_loss_once)
  unfolding run_job
  run_job-both shared h k =
      let (r, e) = burst_some t.monitors.latency in
      let e' = sym (run_probe_burst-shared around.pings t shared h k) ∙ e in rw (e, e')
