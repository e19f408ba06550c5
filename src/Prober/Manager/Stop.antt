-- ===== src/Prober/Manager/Stop.antt =====
-- The two steps of Stop keep the books of a Manager in order.
use mcmon.Prelude.{
  ℕ, ◌≡◌, refl, sym, ap, ◌∙◌, ◌⊎◌, inl, inr, ◌==◌, ==_iff, String, str_eq, eq_iff, eq_refl, true,
  false, some, List, ◌∷◌, if◌then◌else◌, All-weaken, arith, Bool-cases,
}
use mcmon.Prober.Manager.{
  Loop, Manager, set_stops, set_closing, mark_closed, close_chan, begin_stop, close_next,
}
use mcmon.Prober.Manager.Channels.{has, has-apart, IsDistinct}
use mcmon.Prober.Manager.Sound.{Holder, registry, caller, held, IsStoppable, IsOrderly}
use mathlib.Core.Path.{subst}

module _ (id : String) (m : Manager) (orderly : IsOrderly m) where
  -- Who holds after begin_stop what a holder has held.
  heir : Holder → Holder
  heir (registry other) = if str_eq id other then caller m.calls else registry other
  heir (caller k) = caller k

  before_stop :
      (h : Holder) (c : ℕ)
      → has c (held (begin_stop id m) h) ≡ true
      → (g : Holder) × (has c (held m g) ≡ true) × (h ≡ heir g)
  unfolding begin_stop set_stops set_closing heir
  before_stop (registry other) c p = elim (Bool-cases (str_eq id other)) [
    | inl same ↦ absurd (cc (rw same at p))
    | inr apart ↦ (registry other, rw apart at p, rw apart)
  ]
  before_stop (caller k) c p = elim (Bool-cases (m.calls == k)) [
    | inl same ↦
        (registry id, rw same at p, rw (eq_refl id) (ap caller (sym ((==_iff m.calls k).0 same))))
    | inr apart ↦ (caller k, rw apart at p, refl)
  ]

  stop-IsDistinct : (h : Holder) → IsDistinct (held (begin_stop id m) h)
  unfolding begin_stop set_stops set_closing
  stop-IsDistinct (registry other) = elim (Bool-cases (str_eq id other)) [
    | inl same ↦ rw same tt
    | inr apart ↦ rw apart (orderly.distinct (registry other))
  ]
  stop-IsDistinct (caller k) = elim (Bool-cases (m.calls == k)) [
    | inl same ↦ rw same (orderly.distinct (registry id))
    | inr apart ↦ rw apart (orderly.distinct (caller k))
  ]

  -- A call of Stop that has begun has an earlier number.
  earlier_call : (k c : ℕ) → has c (m.closing k) ≡ true → (m.calls == k) ≡ false
  earlier_call k c p = elim (Bool-cases (m.calls == k)) [
    | inr apart ↦ apart
    | inl same ↦
        let none_left = orderly.callers k (omega (arith, (==_iff m.calls k).0 same)) in
        absurd (cc (subst (λ chans. has c chans ≡ true) none_left p))
  ]

  stop-IsStoppable : (l : Loop) → IsStoppable m l → IsStoppable (begin_stop id m) l
  unfolding begin_stop set_stops set_closing
  stop-IsStoppable l s = record { made = s.made; kept = still (s.kept) }
    where
      still :
          (m.is_closed l.chan ≡ true)
            ⊎ (has l.chan (m.stops l.target.id) ≡ true)
            ⊎ ((k : ℕ) × (has l.chan (m.closing k) ≡ true))
          → (m.is_closed l.chan ≡ true)
            ⊎ (has l.chan ((begin_stop id m).stops l.target.id) ≡ true)
            ⊎ ((k : ℕ) × (has l.chan ((begin_stop id m).closing k) ≡ true))
      still (inl closed) = inl closed
      still (inr (inr (k, in_call))) = inr (inr (k, rw (earlier_call k l.chan in_call) in_call))
      still (inr (inl in_map)) = elim (Bool-cases (str_eq id l.target.id)) [
        | inr apart ↦ inr (inl (rw apart in_map))
        | inl same ↦
            let e = (eq_iff id l.target.id).0 same in
            let taken = subst (λ j. has l.chan (m.stops j) ≡ true) (sym e) in_map in
            let this_call : (m.calls == m.calls) ≡ true = (==_iff m.calls m.calls).1 refl in
            inr (inr (m.calls, rw this_call taken))
      ]

  pub begin_stop-IsOrderly : IsOrderly (begin_stop id m)
  unfolding begin_stop set_closing
  begin_stop-IsOrderly = record {
    apart = λ g h c p q.
        let (g', p', eg) = before_stop g c p in
        let (h', q', eh) = before_stop h c q in eg ∙ ap heir (orderly.apart g' h' c p' q') ∙ sym eh;
    distinct = stop-IsDistinct;
    live = λ h c p. let (g, p', e) = before_stop h c p in orderly.live g c p';
    fresh = orderly.fresh;
    callers = λ k h.
        let apart : (m.calls == k) ≡ false = ground arith in
        rw apart (orderly.callers k (omega arith));
    loops = All-weaken _ _ m.loops stop-IsStoppable orderly.loops;
  }

-- One channel closed by the k-th call of Stop.
module _ (k c : ℕ) (rest : List ℕ) (m : Manager) (orderly : IsOrderly m)
    (next : m.closing k ≡ c ∷ rest) where
  abbrev pub closed_one : Manager
  closed_one = record m {
    closing = set_closing k rest m.closing;
    is_closed = mark_closed c m.is_closed;
  }

  holds_c : has c (held m (caller k)) ≡ true
  holds_c = rw next (ground (arith, (==_iff c c).1 refl))

  pub close_next-closed_one : close_next k m ≡ some closed_one
  unfolding close_next close_chan
  close_next-closed_one = rw (next, (orderly.live (caller k) c holds_c).0, close_next)

  rest-IsDistinct : IsDistinct (c ∷ rest)
  rest-IsDistinct = subst IsDistinct next (orderly.distinct (caller k))

  before_close :
      (h : Holder) (d : ℕ)
      → has d (held closed_one h) ≡ true
      → (has d (held m h) ≡ true) × ((c == d) ≡ false)
  unfolding set_closing
  before_close (registry id) d p = (
    p,
    elim (Bool-cases (c == d)) [
      | inr apart ↦ apart
      | inl same ↦
          let p' = subst (λ x. has x (m.stops id) ≡ true) (sym ((==_iff c d).0 same)) p in
          absurd (cc (orderly.apart (registry id) (caller k) c p' holds_c))
    ],
  )
  before_close (caller j) d p = elim (Bool-cases (k == j)) [
    | inl same ↦
        let in_rest : has d rest ≡ true = rw same at p in
        let e = (==_iff k j).0 same in
        (
          subst (λ i. has d (m.closing i) ≡ true) e (rw next (ground (arith, in_rest))),
          has-apart c d rest rest-IsDistinct.0 in_rest,
        )
    | inr other ↦
        let p0 : has d (m.closing j) ≡ true = rw other at p in
        (
          p0,
          elim (Bool-cases (c == d)) [
            | inr apart ↦ apart
            | inl same ↦
                let p' = subst (λ x. has x (m.closing j) ≡ true) (sym ((==_iff c d).0 same)) p0 in
                let e : k ≡ j = cc (orderly.apart (caller k) (caller j) c holds_c p') in
                absurd (cc ((==_iff k j).1 e, other))
          ],
        )
  ]

  close-IsDistinct : (h : Holder) → IsDistinct (held closed_one h)
  unfolding set_closing
  close-IsDistinct (registry id) = orderly.distinct (registry id)
  close-IsDistinct (caller j) = elim (Bool-cases (k == j)) [
    | inl same ↦ rw same (rest-IsDistinct.1)
    | inr other ↦ rw other (orderly.distinct (caller j))
  ]

  close-IsStoppable : (l : Loop) → IsStoppable m l → IsStoppable closed_one l
  unfolding set_closing mark_closed
  close-IsStoppable l s = record { made = s.made; kept = still (s.kept) }
    where
      still :
          (m.is_closed l.chan ≡ true)
            ⊎ (has l.chan (m.stops l.target.id) ≡ true)
            ⊎ ((j : ℕ) × (has l.chan (m.closing j) ≡ true))
          → (closed_one.is_closed l.chan ≡ true)
            ⊎ (has l.chan (m.stops l.target.id) ≡ true)
            ⊎ ((j : ℕ) × (has l.chan (closed_one.closing j) ≡ true))
      still (inl closed) = inl (ground (arith, closed))
      still (inr (inl in_map)) = inr (inl in_map)
      still (inr (inr (j, in_call))) = elim (Bool-cases (k == j)) [
        | inr other ↦ inr (inr (j, rw other in_call))
        | inl same ↦
            let e = (==_iff k j).0 same in
            let here : has l.chan (c ∷ rest) ≡ true =
              subst (λ chans. has l.chan chans ≡ true) next
                (subst (λ i. has l.chan (m.closing i) ≡ true) (sym e) in_call) in
            elim (Bool-cases (c == l.chan)) [
              | inl now ↦ inl (rw now)
              | inr later ↦ inr (inr (j, rw same (ground (arith, here, later))))
            ]
      ]

  pub closed_one-IsOrderly : IsOrderly closed_one
  unfolding mark_closed set_closing
  closed_one-IsOrderly = record {
    apart = λ g h d p q. orderly.apart g h d (before_close g d p).0 (before_close h d q).0;
    distinct = close-IsDistinct;
    live = λ h d p.
        let (old, other) = before_close h d p in
        let (open_before, below) = orderly.live h d old in (rw other open_before, below);
    fresh = λ d high.
        let below = (orderly.live (caller k) c holds_c).1 in
        let other : (c == d) ≡ false = ground arith in rw other (orderly.fresh d high);
    callers = λ j high. elim (Bool-cases (k == j)) [
      | inr other ↦ rw other (orderly.callers j high)
      | inl same ↦
          let e = (==_iff k j).0 same in
          absurd (cc (orderly.callers j high, subst (λ i. m.closing i ≡ c ∷ rest) e next))
    ];
    loops = All-weaken _ _ m.loops close-IsStoppable orderly.loops;
  }
