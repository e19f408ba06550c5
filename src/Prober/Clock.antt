-- ===== src/Prober/Clock.antt =====
-- The durations of internal/app/prober.go: int64 nanoseconds, whose products wrap around.
use mcmon.Prelude.{
  ℕ, ◌-◌, ◌*◌, ◌%◌, ◌^◌, ◌≤◌, ◌<◌, ◌≡◌, false, ℤ, pos, negsuc, ◌*ℤ◌, ◌≤ℤ◌, leb_ℤ, ltb, arith,
  if◌then◌else◌, Bool-cases, inl, inr,
}
use mcmon.Config.Target.{Target}

-- The int64 with these 64 bits, and the bits of an integer.
unfoldable pub signed : ℕ → ℤ
signed u = if ltb u (2 ^ 63) then pos u else negsuc (2 ^ 64 - 1 - u)

unfoldable pub to_u64 : ℤ → ℕ
to_u64 (pos n) = n % 2 ^ 64
to_u64 (negsuc n) = 2 ^ 64 - 1 - n % 2 ^ 64

unfoldable pub to_i64 : ℤ → ℤ
to_i64 v = signed (to_u64 v)

-- `time.Duration(v) * time.Millisecond` and `time.Duration(v) * time.Second`.
unfoldable pub milliseconds : ℤ → ℤ
milliseconds v = to_i64 (v *ℤ pos 1000000)

unfoldable pub seconds : ℤ → ℤ
seconds v = to_i64 (v *ℤ pos 1000000000)

unfoldable pub timeout_for : Target → ℤ
timeout_for t =
    let timeout = milliseconds t.timeout_ms in
    if leb_ℤ timeout (pos 0) then pos 1500000000 else timeout

-- The interval of monitorLoop's ticker.
unfoldable pub ticker_interval : ℤ → ℤ
ticker_interval interval_sec =
    let interval = seconds interval_sec in
    if leb_ℤ interval (pos 0) then pos 60000000000 else interval

to_i64_small : (n : ℕ) → n < 2 ^ 63 → to_i64 (pos n) ≡ pos n
unfolding to_i64 signed to_u64
to_i64_small n h = ground arith

le→leb_false : (n : ℕ) → 1 ≤ n → leb_ℤ (pos n) (pos 0) ≡ false
le→leb_false n h = ground arith

times_pos : (n k : ℕ) → pos n *ℤ pos k ≡ pos (n * k)
unfolding ◌*ℤ◌
times_pos n k = ground arith

defaulted_positive : (d v : ℤ) → pos 1 ≤ℤ d → pos 1 ≤ℤ (if leb_ℤ v (pos 0) then d else v)
defaulted_positive d v h = elim (Bool-cases (leb_ℤ v (pos 0))) [
  | inl small ↦ rw small h
  | inr large ↦ rw large (ground arith)
]

-- Every timeout and every ticker interval is positive, whatever the configuration holds and however
-- the products wrap around.
pub timeout_for_positive :
    (t : Target) (interval_sec : ℤ)
    → (pos 1 ≤ℤ timeout_for t) × (pos 1 ≤ℤ ticker_interval interval_sec)
unfolding timeout_for ticker_interval
timeout_for_positive t interval_sec = (
  defaulted_positive (pos 1500000000) (milliseconds t.timeout_ms) (omega arith),
  defaulted_positive (pos 60000000000) (seconds interval_sec) (omega arith),
)

-- A timeout of 1 to 9223372036854 milliseconds, and an interval of 1 to 9223372036 seconds, is what
-- it says, in nanoseconds.
pub timeout_for_exact :
    (t : Target) (ms sec : ℕ)
    → t.timeout_ms ≡ pos ms
    → (1 ≤ ms) × (ms ≤ 9223372036854)
    → (1 ≤ sec) × (sec ≤ 9223372036)
    → (timeout_for t ≡ pos (ms * 1000000)) × (ticker_interval (pos sec) ≡ pos (sec * 1000000000))
unfolding timeout_for ticker_interval milliseconds seconds
timeout_for_exact t ms sec e (ms_low, ms_high) (sec_low, sec_high) = (
  rw (
    e,
    times_pos ms 1000000,
    to_i64_small (ms * 1000000) (omega arith),
    le→leb_false (ms * 1000000) (omega arith),
  ),
  rw (
    times_pos sec 1000000000,
    to_i64_small (sec * 1000000000) (omega arith),
    le→leb_false (sec * 1000000000) (omega arith),
  ),
)
