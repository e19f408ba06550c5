-- ===== src/Prober/Burst.antt =====
-- runProbeBurst of internal/app/prober.go. A latency is kept in microseconds, and the median doubled;
-- the lost share is kept as its two numbers. `none` is a panic.
pub mod Laws
use mcmon.Prelude.{
  ℕ, zero, suc, ◌+◌, ◌-◌, String, ℤ, pos, pos_part, eq_ℤ, ltb_ℤ, Option, none, some, List, [], ◌∷◌,
  ◌++◌, ◌&&◌, ltb, if◌then◌else◌, length,
}
use mcmon.Prelude.Sorting.{get_elem?, sort}
use mcmon.Config.Target.{Target, ProbeMonitor, unless_positive}
use mcmon.Mcping.Session.{PingResult}
use mcmon.Prober.Clock.{milliseconds, timeout_for}
use mcmon.Prober.Schedule.{effective_probe_protocol}
use mcmon.Prober.Percentile.{percentile}

-- The calls of mcping.Ping: what the i-th of them returns for a host, a port, a timeout and a protocol
-- version.
abbrev pub Pings : Type 0
Pings = ℕ → String → ℤ → ℤ → ℤ → PingResult

-- What a burst does, in order: its i-th call of Ping, and a sleep.
pub data Step : Type 0 where
  probe : ℕ → Step
  sleep : ℤ → Step

-- The variables of the loop, and what it has done.
pub record Tally : Type 0 where
  pub vals : List ℕ
  pub fail : ℕ
  pub trace : List Step

unfoldable pub tallied : PingResult → Tally → Tally
tallied res acc =
    if res.is_ok
    then record acc { vals = acc.vals ++ (res.latency_us ∷ []) }
    else record acc { fail = acc.fail + 1 }

abbrev pub no_probes : Tally
no_probes = record { vals = []; fail = 0; trace = [] }

abbrev pub did : Step → Tally → Tally
did step acc = record acc { trace = acc.trace ++ (step ∷ []) }

-- Round `i` of the loop.
unfoldable pub round : (ℕ → PingResult) → ℤ → ℕ → ℕ → Tally → Tally
unfolding tallied
round ping gap n i acc =
    let acc' = tallied (ping i) (did (probe i) acc) in
    if ltb i (n - 1) && ltb_ℤ (pos 0) gap then did (sleep gap) acc' else acc'

-- The rounds that are left, from round `i` on.
unfoldable pub probe_loop : (ℕ → PingResult) → ℤ → ℕ → ℕ → ℕ → Tally → Tally
probe_loop ping gap n zero i acc = acc
probe_loop ping gap n (suc left) i acc = probe_loop ping gap n left (i + 1) (round ping gap n i acc)

-- `probeBurstResult`; LossPct is `lost / sent`.
pub record BurstResult : Type 0 where
  pub min : Option ℕ
  pub p50_twice : Option ℕ
  pub max : Option ℕ
  pub lost : ℕ
  pub sent : ℕ

found : ℕ → ℕ → Option ℕ → Option ℕ → Option ℕ → Option BurstResult
found lost sent (some min) (some p50) (some max) =
    some (record { min = some min; p50_twice = some p50; max = some max; lost = lost; sent = sent })
found lost sent _ _ _ = none

unfoldable pub burst_result : ℕ → Tally → Option BurstResult
unfolding found
burst_result n out =
    if ltb 0 (length out.vals)
    then (let vals = sort out.vals in
        found out.fail n (get_elem? vals 0) (percentile 1 2 vals)
          (get_elem? vals (length vals - 1)))
    else some (record { min = none; p50_twice = none; max = none; lost = out.fail; sent = n })

abbrev pub burst_size : ProbeMonitor → ℕ
burst_size mon = pos_part (unless_positive (pos 5) mon.probes_per_burst)

unfoldable pub burst_protocol : Target → ProbeMonitor → ℤ
burst_protocol t mon =
    if eq_ℤ mon.protocol_version (pos 0)
    then effective_probe_protocol t mon
    else mon.protocol_version

-- The calls of Ping that a burst makes.
unfoldable pub ping_of : Pings → Target → ProbeMonitor → ℕ → PingResult
ping_of pings t mon i = pings i t.host t.port (timeout_for t) (burst_protocol t mon)

unfoldable pub burst_tally : Pings → Target → ProbeMonitor → Tally
burst_tally pings t mon =
    let n = burst_size mon in
    probe_loop (ping_of pings t mon) (milliseconds mon.probe_gap_ms) n n 0 no_probes

unfoldable pub run_probe_burst : Pings → Target → ProbeMonitor → Option BurstResult
run_probe_burst pings t mon = burst_result (burst_size mon) (burst_tally pings t mon)
