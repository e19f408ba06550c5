-- ===== src/Prober/Manager.antt =====
-- Manager of internal/app/prober.go, with its goroutines and channels. Start holds the mutex throughout,
-- and is one step. Stop takes the channels out of the map under the mutex, and closes them one by one
-- after that, so its steps mix with those of other calls.
pub mod Channels
pub mod Sound
pub mod Start
pub mod Runs
pub mod Stop
pub mod Steps
pub mod Serving
use mcmon.Prelude.{
  ℕ, suc, ◌+◌, ◌==◌, String, str_eq, Bool, true, false, Option, none, some, List, [], ◌∷◌, ◌++◌,
  if◌then◌else◌,
}
use mcmon.Config.Target.{Target, normalized}
use mcmon.Prober.Schedule.{Task, plan}

-- A goroutine of monitorLoop, with its stop channel.
pub record Loop : Type 0 where
  pub chan : ℕ
  pub target : Target
  pub task : Task

-- The map `stops`, where a missing key is nil; the channels that each call of Stop has still to close,
-- by the number of the call; the channels made and closed so far; and the loops started so far, each of
-- which ends once its channel is closed.
pub record Manager : Type 0 where
  pub stops : String → List ℕ
  pub closing : ℕ → List ℕ
  pub calls : ℕ
  pub next_chan : ℕ
  pub is_closed : ℕ → Bool
  pub loops : List Loop

abbrev pub new_manager : Manager
new_manager = record {
  stops = λ id. [];
  closing = λ k. [];
  calls = 0;
  next_chan = 0;
  is_closed = λ c. false;
  loops = [];
}

unfoldable pub set_stops : String → List ℕ → (String → List ℕ) → String → List ℕ
set_stops id chans stops other = if str_eq id other then chans else stops other

unfoldable pub set_closing : ℕ → List ℕ → (ℕ → List ℕ) → ℕ → List ℕ
set_closing k chans closing other = if k == other then chans else closing other

unfoldable pub mark_closed : ℕ → (ℕ → Bool) → ℕ → Bool
mark_closed c is_closed other = if c == other then true else is_closed other

-- `close(stop)`; `none` is its panic on a channel that is closed.
unfoldable pub close_chan : ℕ → Manager → Option Manager
close_chan c m =
    if m.is_closed c then none else some (record m { is_closed = mark_closed c m.is_closed })

unfoldable pub close_all : List ℕ → Manager → Option Manager
close_all [] m = some m
close_all (c ∷ chans) m = elim (close_chan c m) [ none ↦ none | some m' ↦ close_all chans m' ]

-- The closure `add`, with its variable `stops`.
unfoldable pub add : Target → Task → List ℕ × Manager → List ℕ × Manager
add t task (stops, m) =
    let stop = m.next_chan in
    (
      stops ++ (stop ∷ []),
      record m {
        next_chan = stop + 1;
        loops = m.loops ++ (record { chan = stop; target = t; task = task } ∷ []);
      },
    )

unfoldable pub add_all : Target → List Task → List ℕ × Manager → List ℕ × Manager
add_all t [] s = s
add_all t (task ∷ tasks) s = add_all t tasks (add t task s)

-- Start once the old channels are closed.
unfoldable pub start_loops : Target → Manager → Manager
start_loops t m =
    let (stops, m') = add_all t (plan t) ([], record m { stops = set_stops t.id [] m.stops }) in
    record m' { stops = set_stops t.id stops m'.stops }

unfoldable pub start : Target → Manager → Option Manager
start t m =
    let t' = normalized t in
    elim (close_all (m.stops t'.id) m) [ none ↦ none | some m' ↦ some (start_loops t' m') ]

-- Sync.
unfoldable pub sync : List Target → Manager → Option Manager
sync [] m = some m
sync (t ∷ ts) m = elim (start t m) [ none ↦ none | some m' ↦ sync ts m' ]

-- The part of Stop under the mutex: the new call of Stop takes the channels of `id`.
unfoldable pub begin_stop : String → Manager → Manager
begin_stop id m = record m {
  stops = set_stops id [] m.stops;
  closing = set_closing m.calls (m.stops id) m.closing;
  calls = m.calls + 1;
}

-- One round of the loop of Stop, in its k-th call.
unfoldable pub close_next : ℕ → Manager → Option Manager
close_next k m = elim (m.closing k) [
  | [] ↦ some m
  | c ∷ chans ↦ close_chan c (record m { closing = set_closing k chans m.closing })
]

-- Stop alone, with no other call in between: a round for each channel that it took.
unfoldable pub close_rounds : List ℕ → ℕ → Manager → Option Manager
close_rounds [] k m = some m
close_rounds (c ∷ chans) k m = elim (close_next k m) [
  | none ↦ none
  | some m' ↦ close_rounds chans k m'
]

unfoldable pub stop : String → Manager → Option Manager
stop id m = close_rounds (m.stops id) m.calls (begin_stop id m)
