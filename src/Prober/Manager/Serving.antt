-- ===== src/Prober/Manager/Serving.antt =====
-- A Manager as a dictionary of the targets whose loops run, for calls that do not overlap.
pub mod Start
pub mod Stop
pub mod Sync
use mcmon.Prelude.{
  ℕ, ◌+◌, ◌≡◌, ◌≢◌, refl, sym, ap, ◌∙◌, ◌⊎◌, inl, inr, ◌==◌, ==_iff, String, str_eq, eq_iff,
  eq_refl, true, false, ◌||◌, Option, none, some, List, [], ◌∷◌, ◌++◌, map, if◌then◌else◌, All,
  All-weaken, All-append, arith, Bool-cases,
}
use mathlib.Core.Path.{subst}
use mathlib.Core.List.{Memᴰ}
use mathlib.Core.List.Memᴰ
use mcmon.Config.Target.{Target, normalized}
use mcmon.Config.Target.Normal.{IsNormal, normalized_self}
use mcmon.Prober.Schedule.{Task, plan}
use mcmon.Prober.Manager.{
  Loop, Manager, new_manager, set_stops, set_closing, mark_closed, start, begin_stop, close_rounds,
  stop,
}
use mcmon.Prober.Manager.Channels.{has, closes-has}
use mcmon.Prober.Manager.Sound.{registry, IsStoppable, IsOrderly, new_manager-IsOrderly}
use mcmon.Prober.Manager.Start.{restarted, start-restarted}
use mcmon.Prober.Manager.Runs.{Replaces, start-Replaces}
use mcmon.Prober.Manager.Stop.{
  closed_one, begin_stop-IsOrderly, close_next-closed_one, closed_one-IsOrderly,
}

abbrev pub tasks_of : Option Target → List Task
tasks_of none = []
tasks_of (some t) = plan t

-- The loops that run under an id are those of the target `o`: they do the tasks of its plan, for this
-- target, and Stop finds their channels.
pub record Serves (m : Manager) (id : String) (o : Option Target) : Type 0 where
  pub current : List Loop
  pub tasks : map (λ l. l.task) current ≡ tasks_of o
  pub listed : m.stops id ≡ map (λ l. l.chan) current
  pub started : All (λ l. Memᴰ l m.loops × (some l.target ≡ o)) current
  pub only :
      (l : Loop) → Memᴰ l m.loops → l.target.id ≡ id → (m.is_closed l.chan ≡ true) ⊎ Memᴰ l current

-- No call of Stop is going on, and under each id the loops run of the target that `f` has for it.
pub record IsServing (m : Manager) (f : String → Option Target) : Type 0 where
  pub orderly : IsOrderly m
  pub idle : (k : ℕ) → m.closing k ≡ []
  pub serves : (id : String) → Serves m id (f id)

pub new_manager-IsServing : IsServing new_manager (λ id. none)
new_manager-IsServing = record {
  orderly = new_manager-IsOrderly;
  idle = λ k. refl;
  serves = λ id. record {
    current = [];
    tasks = refl;
    listed = refl;
    started = tt;
    only = λ l m e. absurd (Memᴰ.not-nil m);
  };
}

-- The dictionary counts, not how it is computed.
pub IsServing-same :
    (m : Manager) (f g : String → Option Target)
    → ((id : String) → f id ≡ g id)
    → IsServing m f
    → IsServing m g
IsServing-same m f g same s = record {
  orderly = s.orderly;
  idle = s.idle;
  serves = λ id. subst (λ o. Serves m id o) (same id) (s.serves id);
}

-- What is served under an id goes on to be, where another Manager has more loops, of other ids, the same
-- channels under this id, and has closed what was closed.
module _ (m m' : Manager) (id : String) (o : Option Target) (s : Serves m id o) where
  pub kept-Serves :
      m'.stops id ≡ m.stops id
      → ((l : Loop) → Memᴰ l m.loops → Memᴰ l m'.loops)
      → ((l : Loop) → Memᴰ l m'.loops → l.target.id ≡ id → Memᴰ l m.loops)
      → ((c : ℕ) → m.is_closed c ≡ true → m'.is_closed c ≡ true)
      → Serves m' id o
  kept-Serves stops grown others closed = record {
    current = s.current;
    tasks = s.tasks;
    listed = stops ∙ s.listed;
    started = All-weaken _ _ s.current (λ l h. (grown l h.0, h.1)) s.started;
    only = λ l there mine. elim (s.only l (others l there mine) mine) [
      | inl over ↦ inl (closed l.chan over)
      | inr now ↦ inr now
    ];
  }

pub All-Mem : {P : Loop → Type 0} (ls : List Loop) → ((l : Loop) → Memᴰ l ls → P l) → All P ls
All-Mem [] h = tt
All-Mem (x ∷ ls) h = (h x (Memᴰ.head refl), All-Mem ls (λ l m. h l (Memᴰ.tail m)))

pub Mem-All : (P : Loop → Type 0) {l : Loop} (ls : List Loop) → All P ls → Memᴰ l ls → P l
Mem-All P [] h m = absurd (Memᴰ.not-nil m)
Mem-All P (x ∷ ls) h m = elim (Memᴰ.cases_cons m) [
  | inl e ↦ subst P (sym e) h.0
  | inr later ↦ Mem-All P ls h.1 later
]
