-- ===== src/Prober/Burst/Laws.antt =====
-- What a burst reports of its probes.
use mcmon.Prelude.{
  ℕ, zero, suc, ◌+◌, ◌-◌, ◌*◌, ◌≤◌, ◌≡◌, refl, sym, ap, ◌∙◌, ◌⊎◌, inl, inr, ℤ, pos, negsuc,
  pos_part, true, none, some, List, [], ◌∷◌, ◌++◌, append_assoc, arith, ltb, ltb_ℤ, ◌≤ℤ◌, ◌==◌,
  if◌then◌else◌, length, any, All, Bool-cases, append-nil, ltb→lt,
}
use mcmon.Prelude.Sorting.{
  get_elem?, sort, IsSorted, All-sorted, sort-IsSorted, length-sort, any-sort, any-get_elem?,
  All-last,
}
use mathlib.Core.Path.{subst}
use mcmon.Config.Target.{Target, ProbeMonitor, unless_positive}
use mcmon.Mcping.Session.{PingResult}
use mcmon.Prober.Clock.{milliseconds, timeout_for}
use mcmon.Prober.Schedule.{effective_probe_protocol, can_share_latency_loss}
use mcmon.Prober.Schedule.Laws.{can_share_latency_loss-Alike}
use mcmon.Prober.Percentile.Bounds.{Within, percentile-Within}
use mcmon.Prober.Burst.{
  Pings, Step, probe, sleep, Tally, tallied, no_probes, round, probe_loop, BurstResult,
  burst_result, burst_size, burst_protocol, ping_of, burst_tally, run_probe_burst,
}

-- The latencies of the pings that succeed, among `left` pings from the i-th on.
abbrev pub answers : (ℕ → PingResult) → ℕ → ℕ → List ℕ
answers ping zero i = []
answers ping (suc left) i =
    if (ping i).is_ok
    then (ping i).latency_us ∷ answers ping left (i + 1)
    else answers ping left (i + 1)

-- The steps of a loop that has `left` rounds to go, the next of them the i-th: a ping in each round, and a
-- sleep between two of them if the gap is positive.
abbrev pub pause : ℤ → List Step → List Step
pause gap steps = if ltb_ℤ (pos 0) gap then sleep gap ∷ steps else steps

abbrev pub steps_of : ℤ → ℕ → ℕ → List Step
steps_of gap zero i = []
steps_of gap (suc zero) i = probe i ∷ []
steps_of gap (suc (suc left)) i = probe i ∷ pause gap (steps_of gap (suc left) (i + 1))

module _ (ping : ℕ → PingResult) (gap : ℤ) (n : ℕ) where
  round-vals :
      (i : ℕ) (acc : Tally) (later : List ℕ)
      → (round ping gap n i acc).vals ++ later
        ≡ acc.vals ++ (if (ping i).is_ok then (ping i).latency_us ∷ later else later)
  unfolding round
  round-vals i acc later = ground (arith, append_assoc acc.vals ((ping i).latency_us ∷ []) later)

  round-fail :
      (i : ℕ) (acc : Tally) (later : List ℕ)
      → (round ping gap n i acc).fail
          + length (if (ping i).is_ok then (ping i).latency_us ∷ later else later)
        ≡ acc.fail + suc (length later)
  unfolding round
  round-fail i acc later = ground arith

  round-last :
      (i : ℕ) (acc : Tally)
      → i + 1 ≡ n
      → (round ping gap n i acc).trace ≡ acc.trace ++ (probe i ∷ [])
  unfolding round tallied
  round-last i acc e = ground arith

  round-trace :
      (i left : ℕ) (acc : Tally) (later : List Step)
      → i + suc (suc left) ≡ n
      → (round ping gap n i acc).trace ++ later ≡ acc.trace ++ (probe i ∷ pause gap later)
  unfolding round tallied
  round-trace i left acc later e = ground (
    arith,
    append_assoc acc.trace (probe i ∷ []) later,
    append_assoc (acc.trace ++ (probe i ∷ [])) (sleep gap ∷ []) later,
    append_assoc acc.trace (probe i ∷ []) (sleep gap ∷ later),
  )

  probe_loop-vals :
      (left i : ℕ) (acc : Tally)
      → (probe_loop ping gap n left i acc).vals ≡ acc.vals ++ answers ping left i
  unfolding probe_loop
  probe_loop-vals zero i acc = sym (append-nil acc.vals)
  probe_loop-vals (suc left) i acc =
      probe_loop-vals left (i + 1) (round ping gap n i acc)
      ∙ round-vals i acc (answers ping left (i + 1))

  probe_loop-fail :
      (left i : ℕ) (acc : Tally)
      → (probe_loop ping gap n left i acc).fail + length (answers ping left i) ≡ acc.fail + left
  unfolding probe_loop
  probe_loop-fail zero i acc = omega arith
  probe_loop-fail (suc left) i acc =
      let first = round-fail i acc (answers ping left (i + 1)) in
      let later = probe_loop-fail left (i + 1) (round ping gap n i acc) in omega arith

  probe_loop-trace :
      (left i : ℕ) (acc : Tally)
      → i + left ≡ n
      → (probe_loop ping gap n left i acc).trace ≡ acc.trace ++ steps_of gap left i
  unfolding probe_loop
  probe_loop-trace zero i acc e = sym (append-nil acc.trace)
  probe_loop-trace (suc zero) i acc e = round-last i acc e
  probe_loop-trace (suc (suc left)) i acc e =
      probe_loop-trace (suc left) (i + 1) (round ping gap n i acc) (omega arith)
      ∙ round-trace i left acc (steps_of gap (suc left) (i + 1)) e

-- What a result says of the latencies that were found: nothing where there is none, else the least,
-- the greatest, both of which were found, and a median between them.
pub record Measured (found : List ℕ) (low p50 high : ℕ) : Type 0 where
  pub within : All (Within low high) found
  pub low_found : any (λ v. v == low) found ≡ true
  pub high_found : any (λ v. v == high) found ≡ true
  pub median : Within (2 * low) (2 * high) p50

abbrev pub Extremes : List ℕ → BurstResult → Type 0
Extremes found r =
    ((found ≡ []) × (r.min ≡ none) × (r.p50_twice ≡ none) × (r.max ≡ none))
    ⊎ ((low : ℕ) × (p50 : ℕ) × (high : ℕ) × (r.min ≡ some low)
        × (r.p50_twice ≡ some p50)
        × (r.max ≡ some high)
        × Measured found low p50 high)

All-Within :
    (low high : ℕ) (xs : List ℕ)
    → All (λ x. low ≤ x) xs
    → All (λ x. x ≤ high) xs
    → All (Within low high) xs
All-Within low high [] h k = tt
All-Within low high (x ∷ xs) (hx, h) (kx, k) = ((hx, kx), All-Within low high xs h k)

-- The least element of a sorted list is the first.
All-first :
    (xs : List ℕ)
    → IsSorted xs
    → 1 ≤ length xs
    → (low : ℕ) × (get_elem? xs 0 ≡ some low) × All (λ x. low ≤ x) xs
All-first [] h some_value = absurd (omega arith)
All-first (x ∷ xs) (below, sorted) some_value = (x, refl, (omega arith, below))

nothing : (xs : List ℕ) → length xs ≡ 0 → xs ≡ []
nothing [] e = refl
nothing (x ∷ xs) e = absurd (omega arith)

burst_result-Extremes :
    (n : ℕ) (out : Tally)
    → (r : BurstResult) × (burst_result n out ≡ some r)
      × (r.sent ≡ n)
      × (r.lost ≡ out.fail)
      × Extremes out.vals r
unfolding burst_result
burst_result-Extremes n out = elim (Bool-cases (ltb 0 (length out.vals))) [
  | inr empty ↦ (_, rw empty, refl, refl, inl (nothing out.vals (ground arith), refl, refl, refl))
  | inl some_value ↦
      let xs = sort out.vals in
      let long : 1 ≤ length xs = omega (arith, length-sort out.vals, ltb→lt 0 _ some_value) in
      let (low, first, above) = All-first xs (sort-IsSorted out.vals) long in
      let (high, last, below) = All-last xs (sort-IsSorted out.vals) long in
      let within = All-Within low high xs above below in
      let (p50, mid, median) = percentile-Within low high xs within long in
      (
        record { min = some low; p50_twice = some p50; max = some high; lost = out.fail; sent = n },
        rw (some_value, first, last, mid),
        refl,
        refl,
        inr (
          low,
          p50,
          high,
          refl,
          refl,
          refl,
          record {
            within = All-sorted (Within low high) out.vals within;
            low_found = sym (any-sort (λ v. v == low) out.vals) ∙ any-get_elem? xs 0 low first;
            high_found =
                sym (any-sort (λ v. v == high) out.vals)
                ∙ any-get_elem? xs (length xs - 1) high last;
            median = median;
          },
        ),
      )
]

-- How many pings a monitor asks for: its own number, or 5.
abbrev pub IsBurst : ℤ → ℕ → Type 0
IsBurst asked sent = ((pos 1 ≤ℤ asked) × (asked ≡ pos sent)) ⊎ ((asked ≤ℤ pos 0) × (sent ≡ 5))

burst_size-IsBurst : (mon : ProbeMonitor) → IsBurst mon.probes_per_burst (burst_size mon)
unfolding unless_positive
burst_size-IsBurst mon = size mon.probes_per_burst
  where
    size : (v : ℤ) → IsBurst v (pos_part (unless_positive (pos 5) v))
    size (pos zero) = inr (omega arith, refl)
    size (pos (suc n)) = inl (omega arith, ap pos (ground arith))
    size (negsuc n) = inr (omega arith, ground arith)

module _ (pings : Pings) (t : Target) (mon : ProbeMonitor) where
  -- A burst never indexes out of range, and reports what it measured: it makes as many pings as the
  -- monitor says, or 5 where that number is not positive, and loses those that fail; if none succeeds it
  -- has no latency, and else its least and greatest latency are those of the pings that succeed, and the
  -- median is between them. It does nothing but ping, and sleep for the gap between two pings if the gap
  -- is positive.
  pub run_probe_burst_lem :
      (r : BurstResult) × (run_probe_burst pings t mon ≡ some r)
      × IsBurst mon.probes_per_burst r.sent
      × (r.lost + length (answers (ping_of pings t mon) r.sent 0) ≡ r.sent)
      × Extremes (answers (ping_of pings t mon) r.sent 0) r
      × ((burst_tally pings t mon).trace ≡ steps_of (milliseconds mon.probe_gap_ms) r.sent 0)
  unfolding run_probe_burst burst_tally
  run_probe_burst_lem =
      let n = burst_size mon in
      let ping = ping_of pings t mon in
      let gap = milliseconds mon.probe_gap_ms in
      let out = burst_tally pings t mon in
      let (r, result, sent, lost, extremes) = burst_result-Extremes n out in
      (
        r,
        result,
        rw sent (burst_size-IsBurst mon),
        rw sent (omega (arith, lost, probe_loop-fail ping gap n n 0 no_probes)),
        rw sent
            (subst (λ vals. Extremes vals r) (probe_loop-vals ping gap n n 0 no_probes) extremes),
        rw sent (probe_loop-trace ping gap n n 0 no_probes (omega arith)),
      )

burst_protocol-effective :
    (t : Target) (mon : ProbeMonitor)
    → pos 0 ≤ℤ mon.protocol_version
    → burst_protocol t mon ≡ effective_probe_protocol t mon
unfolding burst_protocol effective_probe_protocol
burst_protocol-effective t mon h = ground arith

same_ping :
    (pings : Pings) (t : Target) (a b : ProbeMonitor)
    → burst_protocol t a ≡ burst_protocol t b
    → ping_of pings t a ≡ ping_of pings t b
unfolding ping_of
same_ping pings t a b e = λ i n. pings n t.host t.port (timeout_for t) (e i)

-- Where one loop serves latency and loss, its burst with the latency monitor is the burst that the loss
-- monitor asks for, if neither protocol version is negative.
pub run_probe_burst-shared :
    (pings : Pings) (t : Target)
    → can_share_latency_loss t ≡ true
    → pos 0 ≤ℤ t.monitors.latency.protocol_version
    → pos 0 ≤ℤ t.monitors.loss.protocol_version
    → run_probe_burst pings t t.monitors.latency ≡ run_probe_burst pings t t.monitors.loss
unfolding run_probe_burst burst_tally
run_probe_burst-shared pings t shared h k =
    let a = can_share_latency_loss-Alike t shared in
    let protocol : burst_protocol t t.monitors.latency ≡ burst_protocol t t.monitors.loss =
      burst_protocol-effective t t.monitors.latency h
      ∙ a.protocol
      ∙ sym (burst_protocol-effective t t.monitors.loss k) in
    rw (same_ping pings t t.monitors.latency t.monitors.loss protocol, a.burst, a.gap)
