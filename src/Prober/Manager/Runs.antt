-- ===== src/Prober/Manager/Runs.antt =====
-- Which loops a target has after Start.
use mcmon.Prelude.{
  ℕ, ◌+◌, ◌≡◌, ◌≢◌, refl, ap, ◌∙◌, ◌⊎◌, inl, inr, String, str_eq, eq_iff, true, false, ◌||◌, some,
  List, [], ◌∷◌, ◌++◌, map, if◌then◌else◌, All, All-weaken, arith, Bool-cases,
}
use mathlib.Core.Path.{subst}
use mcmon.Config.Target.{Target, normalized}
use mcmon.Prober.Schedule.{Task, plan}
use mcmon.Prober.Manager.{Loop, Manager, set_stops, start}
use mcmon.Prober.Manager.Channels.{has, closes-has, chans_from, loops_from}
use mcmon.Prober.Manager.Sound.{registry, IsStoppable, IsOrderly}
use mcmon.Prober.Manager.Start.{
  restarted, new_loops, start-restarted, restarted-IsOrderly, live_after, new_loops-IsNew,
  new_in_map,
}

-- From `m` to `m'` the loops of a target are replaced.
pub record Replaces (t : Target) (m m' : Manager) : Type 0 where
  -- The new loops do the tasks of the plan, in its order, for this target; each is running, and the
  -- map has its channel.
  pub spawned : List Loop
  pub grown : m'.loops ≡ m.loops ++ spawned
  pub tasks : map (λ l. l.task) spawned ≡ plan t
  pub running :
      All
        (λ l. (l.target ≡ t) × (m'.is_closed l.chan ≡ false) × (has l.chan (m'.stops t.id) ≡ true))
        spawned
  -- No earlier loop of the target runs on, unless a call of Stop is about to end it.
  pub ended :
      All
        (λ l.
          (l.target.id ≢ t.id)
          ⊎ (m'.is_closed l.chan ≡ true)
          ⊎ ((k : ℕ) × (has l.chan (m'.closing k) ≡ true)))
        m.loops
  -- The map has the new channels under the target's id, and is the same everywhere else.
  pub stops :
      (id : String)
      → m'.stops id ≡ (if str_eq t.id id then map (λ l. l.chan) spawned else m.stops id)
  pub closing : m'.closing ≡ m.closing

tasks-loops_from :
    (t : Target) (n : ℕ) (tasks : List Task) → map (λ l. l.task) (loops_from t n tasks) ≡ tasks
tasks-loops_from t n [] = refl
tasks-loops_from t n (task ∷ tasks) = ap (λ ts. task ∷ ts) (tasks-loops_from t (n + 1) tasks)

chans-loops_from :
    (t : Target) (n : ℕ) (tasks : List Task)
    → map (λ l. l.chan) (loops_from t n tasks) ≡ chans_from n tasks
chans-loops_from t n [] = refl
chans-loops_from t n (task ∷ tasks) = ap (λ cs. n ∷ cs) (chans-loops_from t (n + 1) tasks)

module _ (t : Target) (m : Manager) (orderly : IsOrderly m) where
  ended_loop :
      (l : Loop)
      → IsStoppable m l
      → (l.target.id ≢ t.id)
        ⊎ ((restarted t m).is_closed l.chan ≡ true)
        ⊎ ((k : ℕ) × (has l.chan (m.closing k) ≡ true))
  ended_loop l s = elim (s.kept) [
    | inl closed ↦ inr (inl (shut (ground (arith, closed))))
    | inr (inr in_call) ↦ inr (inr in_call)
    | inr (inl in_map) ↦ elim (Bool-cases (str_eq l.target.id t.id)) [
      | inr other ↦ inl (λ e. cc ((eq_iff l.target.id t.id).1 e, other))
      | inl same ↦
          let e = (eq_iff l.target.id t.id).0 same in
          let old = subst (λ id. has l.chan (m.stops id) ≡ true) e in_map in
          inr (inl (shut (ground (arith, old))))
    ]
  ]
    where
      shut :
          has l.chan (m.stops t.id) || m.is_closed l.chan ≡ true
          → (restarted t m).is_closed l.chan ≡ true
      shut h = closes-has (m.stops t.id) m.is_closed l.chan ∙ h

  stops_after :
      (id : String)
      → (restarted t m).stops id
        ≡ (if str_eq t.id id then map (λ l. l.chan) (new_loops t m) else m.stops id)
  unfolding set_stops
  stops_after id = elim (Bool-cases (str_eq t.id id)) [
    | inl same ↦ rw (same, chans-loops_from t m.next_chan (plan t))
    | inr other ↦ rw other
  ]

  restarted-Replaces : Replaces t m (restarted t m)
  restarted-Replaces = record {
    spawned = new_loops t m;
    grown = refl;
    tasks = tasks-loops_from t m.next_chan (plan t);
    running =
        All-weaken _ _ (new_loops t m)
          (λ l h.
            let listed = new_in_map t m orderly l h in
            (h.0, (live_after t m orderly (registry t.id) l.chan listed).0, listed))
          (new_loops-IsNew t m orderly m.next_chan (plan t));
    ended = All-weaken _ _ m.loops ended_loop orderly.loops;
    stops = stops_after;
    closing = refl;
  }

-- In a Manager whose books are in order Start does not panic, keeps the books in order, and replaces the
-- loops of the target by those that the plan of the normalized target asks for, whatever calls of Stop
-- are going on.
pub start-Replaces :
    (t : Target) (m : Manager)
    → IsOrderly m
    → (m' : Manager) × (start t m ≡ some m') × IsOrderly m' × Replaces (normalized t) m m'
start-Replaces t m orderly = (
  restarted (normalized t) m,
  start-restarted t m orderly,
  restarted-IsOrderly (normalized t) m orderly,
  restarted-Replaces (normalized t) m orderly,
)
