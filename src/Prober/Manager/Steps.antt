-- ===== src/Prober/Manager/Steps.antt =====
-- Calls of Start and Stop in any order, with the steps of the calls of Stop mixed.
use mcmon.Prelude.{
  ℕ, ◌≡◌, ◌≢◌, All, All-weaken, true, String, some, List, [], ◌∷◌, refl, ◌⊎◌, inl, inr,
}
use mcmon.Config.Target.{Target, normalized}
use mcmon.Prober.Manager.{Loop, Manager, new_manager, start, begin_stop, close_next}
use mcmon.Prober.Manager.Sound.{IsStoppable, IsOrderly, new_manager-IsOrderly}
use mcmon.Prober.Manager.Start.{restarted, start-restarted, restarted-IsOrderly}
use mcmon.Prober.Manager.Stop.{
  closed_one, begin_stop-IsOrderly, close_next-closed_one, closed_one-IsOrderly,
}
use mcmon.Prober.Manager.Channels.{has}
use mathlib.Core.Path.{subst}

-- One step of one of the calls that are going on.
pub data Step : Manager → Manager → Type 0 where
  starts : (t : Target) (m m' : Manager) → start t m ≡ some m' → Step m m'
  begins : (id : String) (m : Manager) → Step m (begin_stop id m)
  closes_one : (k : ℕ) (m m' : Manager) → close_next k m ≡ some m' → Step m m'

-- What a new Manager can come to.
pub data Reachable : Manager → Type 0 where
  created : Reachable new_manager
  later : (m m' : Manager) → Reachable m → Step m m' → Reachable m'

List-cases : (xs : List ℕ) → (xs ≡ []) ⊎ ((x : ℕ) × (rest : List ℕ) × (xs ≡ x ∷ rest))
List-cases [] = inl refl
List-cases (x ∷ rest) = inr (x, rest, refl)

nothing_left : (k : ℕ) (m : Manager) → m.closing k ≡ [] → close_next k m ≡ some m
unfolding close_next
nothing_left k m e = rw (e, close_next)

close_next-IsOrderly :
    (k : ℕ) (m : Manager) → IsOrderly m → (m' : Manager) × (close_next k m ≡ some m') × IsOrderly m'
close_next-IsOrderly k m orderly = elim (List-cases (m.closing k)) [
  | inl empty ↦ (m, nothing_left k m empty, orderly)
  | inr (c, rest, next) ↦ (
    closed_one k c rest m orderly next,
    close_next-closed_one k c rest m orderly next,
    closed_one-IsOrderly k c rest m orderly next,
  )
]

Step-IsOrderly : (m m' : Manager) → Step m m' → IsOrderly m → IsOrderly m'
Step-IsOrderly _ _ (starts t m m' e) orderly =
    subst IsOrderly (cc (e, start-restarted t m orderly))
      (restarted-IsOrderly (normalized t) m orderly)
Step-IsOrderly _ _ (begins id m) orderly = begin_stop-IsOrderly id m orderly
Step-IsOrderly _ _ (closes_one k m m' e) orderly =
    let (m'', e', orderly') = close_next-IsOrderly k m orderly in
    subst IsOrderly (cc (e, e')) orderly'

-- However calls of Start and Stop are mixed, the books stay in order: no channel has two holders, a
-- channel that has one is open, and no loop that runs is lost to the map and to every call of Stop.
pub Reachable-IsOrderly : (m : Manager) → Reachable m → IsOrderly m
Reachable-IsOrderly _ created = new_manager-IsOrderly
Reachable-IsOrderly _ (later m m' before step) =
    Step-IsOrderly m m' step (Reachable-IsOrderly m before)

-- However calls of Start and Stop are mixed, none of them ever closes a channel twice, which would
-- panic: every Start and every round of every Stop goes through.
pub never_panics :
    (m : Manager)
    → Reachable m
    → (t : Target) (k : ℕ)
    → ((m' : Manager) × (start t m ≡ some m')) × ((m' : Manager) × (close_next k m ≡ some m'))
never_panics m reachable t k =
    let orderly = Reachable-IsOrderly m reachable in
    let (m', e, _) = close_next-IsOrderly k m orderly in
    ((restarted (normalized t) m, start-restarted t m orderly), (m', e))

-- Where the map has no channel for a target's id and no call of Stop is going on, none of the loops
-- that have ever been started for the target runs: no goroutine is orphaned.
pub no_orphans :
    (m : Manager)
    → Reachable m
    → (id : String) → m.stops id ≡ []
    → ((k : ℕ) → m.closing k ≡ [])
    → All (λ l. (l.target.id ≢ id) ⊎ (m.is_closed l.chan ≡ true)) m.loops
no_orphans m reachable id unlisted idle =
    All-weaken _ _ m.loops ended (Reachable-IsOrderly m reachable).loops
  where
    ended : (l : Loop) → IsStoppable m l → (l.target.id ≢ id) ⊎ (m.is_closed l.chan ≡ true)
    ended l s = elim (s.kept) [
      | inl closed ↦ inr closed
      | inr (inr (k, in_call)) ↦
          absurd (cc (subst (λ chans. has l.chan chans ≡ true) (idle k) in_call))
      | inr (inl in_map) ↦ inl (λ e. cc (
          subst (λ chans. has l.chan chans ≡ true) unlisted
            (subst (λ j. has l.chan (m.stops j) ≡ true) e in_map)))
    ]
