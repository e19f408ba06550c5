-- ===== src/Prober/Manager/Start.antt =====
-- What Start does to a Manager whose books are in order.
use mcmon.Prelude.{
  ℕ, ◌+◌, ◌≤◌, ◌<◌, ◌≡◌, refl, sym, ap, ◌∙◌, ◌⊎◌, inl, inr, str_eq, eq_iff, true, false, ◌||◌, some,
  List, [], ◌∷◌, ◌++◌, length, All, All-append, All-weaken, eq_refl, arith, Bool-cases,
}
use mathlib.Core.Path.{subst}
use mcmon.Config.Target.{Target, normalized}
use mcmon.Prober.Schedule.{Task, plan}
use mcmon.Prober.Manager.{Loop, Manager, set_stops, start_loops, start}
use mcmon.Prober.Manager.Channels.{
  has, IsDistinct, closes, closes-has, close_all-closes, chans_from, loops_from, has-chans_from,
  chans_from-IsDistinct, add_all-chans_from,
}
use mcmon.Prober.Manager.Sound.{Holder, registry, caller, held, IsStoppable, IsOrderly}

module _ (t : Target) (m : Manager) where
  abbrev pub new_chans : List ℕ
  new_chans = chans_from m.next_chan (plan t)

  abbrev pub new_loops : List Loop
  new_loops = loops_from t m.next_chan (plan t)

  -- The Manager after Start, for a normalized target.
  abbrev pub restarted : Manager
  restarted = record m {
    stops = set_stops t.id new_chans (set_stops t.id [] m.stops);
    next_chan = m.next_chan + length (plan t);
    is_closed = closes (m.stops t.id) m.is_closed;
    loops = m.loops ++ new_loops;
  }

  module _ (orderly : IsOrderly m) where
    -- The holders after Start: the map has the new channels under the target's id, and all else is
    -- as before, less the channels that are closed.
    held_after :
        (h : Holder) (c : ℕ)
        → has c (held restarted h) ≡ true
        → ((h ≡ registry t.id) × (has c new_chans ≡ true))
          ⊎ ((has c (held m h) ≡ true) × (has c (m.stops t.id) ≡ false))
    unfolding set_stops
    held_after (registry id) c h = elim (Bool-cases (str_eq t.id id)) [
      | inl same ↦ inl (ap registry (sym ((eq_iff t.id id).0 same)), rw same at h)
      | inr other ↦
          let before : has c (m.stops id) ≡ true = rw other at h in
          inr (
            before,
            elim (Bool-cases (has c (m.stops t.id))) [
              | inr out ↦ out
              | inl old ↦
                  let same : t.id ≡ id =
                    cc (orderly.apart (registry t.id) (registry id) c old before) in
                  absurd (cc ((eq_iff t.id id).1 same, other))
            ],
          )
    ]
    held_after (caller k) c h = inr (
      h,
      elim (Bool-cases (has c (m.stops t.id))) [
        | inr out ↦ out
        | inl old ↦ absurd (cc (orderly.apart (registry t.id) (caller k) c old h))
      ],
    )

    new-fresh : (c : ℕ) → has c new_chans ≡ true → (m.next_chan ≤ c) × (c < restarted.next_chan)
    new-fresh c h = has-chans_from c m.next_chan (plan t) h

    still_open :
        (c : ℕ)
        → m.is_closed c ≡ false
        → has c (m.stops t.id) ≡ false
        → restarted.is_closed c ≡ false
    still_open c h k = closes-has (m.stops t.id) m.is_closed c ∙ rw (h, k)

    apart_after :
        (g h : Holder) (c : ℕ)
        → has c (held restarted g) ≡ true
        → has c (held restarted h) ≡ true
        → g ≡ h
    apart_after g h c p q = elim (held_after g c p) [
      | inl (g_is, new) ↦ elim (held_after h c q) [
        | inl (h_is, new') ↦ g_is ∙ sym h_is
        | inr (old, kept) ↦ absurd (omega (arith, (new-fresh c new).0, (orderly.live h c old).1))
      ]
      | inr (old, kept) ↦ elim (held_after h c q) [
        | inl (h_is, new) ↦ absurd (omega (arith, (new-fresh c new).0, (orderly.live g c old).1))
        | inr (old', kept') ↦ orderly.apart g h c old old'
      ]
    ]

    restarted-IsDistinct : (h : Holder) → IsDistinct (held restarted h)
    unfolding set_stops
    restarted-IsDistinct (registry id) = elim (Bool-cases (str_eq t.id id)) [
      | inl same ↦ rw same (chans_from-IsDistinct m.next_chan (plan t))
      | inr other ↦ rw other (orderly.distinct (registry id))
    ]
    restarted-IsDistinct (caller k) = orderly.distinct (caller k)

    pub live_after :
        (h : Holder) (c : ℕ)
        → has c (held restarted h) ≡ true
        → (restarted.is_closed c ≡ false) × (c < restarted.next_chan)
    live_after h c p = elim (held_after h c p) [
      | inl (h_is, new) ↦
          let (low, high) = new-fresh c new in
          (
            still_open c (orderly.fresh c low) (elim (Bool-cases (has c (m.stops t.id))) [
              | inr out ↦ out
              | inl old ↦ absurd (omega (arith, (orderly.live (registry t.id) c old).1))
            ]),
            high,
          )
      | inr (old, kept) ↦
          let (open_before, below) = orderly.live h c old in
          (still_open c open_before kept, omega arith)
    ]

    fresh_after : (c : ℕ) → restarted.next_chan ≤ c → restarted.is_closed c ≡ false
    fresh_after c h =
        still_open c (orderly.fresh c (omega arith)) (elim (Bool-cases (has c (m.stops t.id))) [
          | inr out ↦ out
          | inl old ↦ absurd (omega (arith, (orderly.live (registry t.id) c old).1))
        ])

    restarted-IsStoppable : (l : Loop) → IsStoppable m l → IsStoppable restarted l
    unfolding set_stops
    restarted-IsStoppable l s = record { made = omega (arith, s.made); kept = still (s.kept) }
      where
        shut :
            has l.chan (m.stops t.id) || m.is_closed l.chan ≡ true
            → restarted.is_closed l.chan ≡ true
        shut h = closes-has (m.stops t.id) m.is_closed l.chan ∙ h

        still :
            (m.is_closed l.chan ≡ true)
              ⊎ (has l.chan (m.stops l.target.id) ≡ true)
              ⊎ ((k : ℕ) × (has l.chan (m.closing k) ≡ true))
            → (restarted.is_closed l.chan ≡ true)
              ⊎ (has l.chan (restarted.stops l.target.id) ≡ true)
              ⊎ ((k : ℕ) × (has l.chan (m.closing k) ≡ true))
        still (inl closed) = inl (shut (ground (arith, closed)))
        still (inr (inr in_call)) = inr (inr in_call)
        still (inr (inl in_map)) = elim (Bool-cases (str_eq t.id l.target.id)) [
          | inr other ↦ inr (inl (rw other in_map))
          | inl same ↦
              let e = (eq_iff t.id l.target.id).0 same in
              let old = subst (λ id. has l.chan (m.stops id) ≡ true) (sym e) in_map in
              inl (shut (ground (arith, old)))
        ]

    -- What a new loop is.
    abbrev pub IsNew : Loop → Type 0
    IsNew l = (l.target ≡ t) × (has l.chan new_chans ≡ true)

    pub new_loops-IsNew :
        (n : ℕ) (tasks : List Task)
        → All
            (λ l. (l.target ≡ t) × (has l.chan (chans_from n tasks) ≡ true))
            (loops_from t n tasks)
    new_loops-IsNew n [] = tt
    new_loops-IsNew n (task ∷ tasks) = (
      (refl, ground arith),
      All-weaken _ _ (loops_from t (n + 1) tasks) (λ l h. (h.0, ground (arith, h.1)))
          (new_loops-IsNew (n + 1) tasks),
    )

    pub new_in_map : (l : Loop) → IsNew l → has l.chan (restarted.stops t.id) ≡ true
    unfolding set_stops
    new_in_map l (is_t, new) = rw (eq_refl t.id) new

    new-IsStoppable : (l : Loop) → IsNew l → IsStoppable restarted l
    new-IsStoppable l (is_t, new) = record {
      made = (new-fresh l.chan new).1;
      kept = inr (
          inl (
            subst (λ (u : Target). has l.chan (restarted.stops u.id) ≡ true) (sym is_t)
              (new_in_map l (is_t, new))));
    }

    pub restarted-IsOrderly : IsOrderly restarted
    restarted-IsOrderly = record {
      apart = apart_after;
      distinct = restarted-IsDistinct;
      live = live_after;
      fresh = fresh_after;
      callers = orderly.callers;
      loops =
          All-append (IsStoppable restarted) m.loops new_loops
            (All-weaken _ _ m.loops restarted-IsStoppable orderly.loops)
            (All-weaken _ _ new_loops new-IsStoppable (new_loops-IsNew m.next_chan (plan t)));
    }

-- In a Manager whose books are in order, Start does not panic.
pub start-restarted :
    (t : Target) (m : Manager) → IsOrderly m → start t m ≡ some (restarted (normalized t) m)
unfolding start start_loops
start-restarted t m orderly =
    let t' = normalized t in
    rw (
      close_all-closes (m.stops t'.id) m (orderly.distinct (registry t'.id))
          (λ c h. (orderly.live (registry t'.id) c h).0),
      start,
      add_all-chans_from,
    )
