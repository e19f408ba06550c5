-- ===== src/Prober/Manager/Serving/Stop.antt =====
-- Stop, in a call that no other overlaps, as an update of the dictionary that a Manager serves.
use mcmon.Prelude.{
  ℕ, ◌≡◌, refl, sym, ap, ◌∙◌, inl, inr, ◌==◌, ==_iff, String, str_eq, true, false, Option, none,
  some, List, [], ◌∷◌, if◌then◌else◌, arith, Bool-cases,
}
use mathlib.Core.Path.{subst}
use mathlib.Core.List.{Memᴰ}
use mcmon.Config.Target.{Target}
use mcmon.Prober.Manager.{
  Manager, set_stops, set_closing, mark_closed, begin_stop, close_rounds, stop,
}
use mcmon.Prober.Manager.Channels.{has}
use mcmon.Prober.Manager.Sound.{IsOrderly}
use mcmon.Prober.Manager.Stop.{
  closed_one, begin_stop-IsOrderly, close_next-closed_one, closed_one-IsOrderly,
}
use mcmon.Prober.Manager.Serving.{Serves, IsServing, kept-Serves, Mem-All}

-- The rounds of the k-th call of Stop, alone.
record Rounds (k : ℕ) (m m' : Manager) : Type 0 where
  orderly : IsOrderly m'
  stops : m'.stops ≡ m.stops
  loops : m'.loops ≡ m.loops
  closed : (c : ℕ) → m.is_closed c ≡ true → m'.is_closed c ≡ true
  ended : m'.closing k ≡ []
  others : (j : ℕ) → (k == j) ≡ false → m'.closing j ≡ m.closing j

close_rounds-Rounds :
    (chans : List ℕ) (k : ℕ) (m : Manager)
    → IsOrderly m
    → m.closing k ≡ chans
    → (m' : Manager) × (close_rounds chans k m ≡ some m') × Rounds k m m'
unfolding close_rounds
close_rounds-Rounds [] k m orderly e = (
  m,
  refl,
  record {
    orderly = orderly;
    stops = refl;
    loops = refl;
    closed = λ c h. h;
    ended = e;
    others = λ j h. refl;
  },
)
close_rounds-Rounds (c ∷ chans) k m orderly e =
    let m1 = closed_one k c chans m orderly e in
    let (m', e', r) =
      close_rounds-Rounds chans k m1 (closed_one-IsOrderly k c chans m orderly e)
        (unfold set_closing in rw ((==_iff k k).1 refl) refl) in
    (
      m',
      rw (close_next-closed_one k c chans m orderly e, close_rounds) e',
      record {
        orderly = r.orderly;
        stops = r.stops;
        loops = r.loops;
        closed = λ d h. r.closed d (unfold mark_closed in ground (arith, h));
        ended = r.ended;
        others = λ j apart. r.others j apart ∙ (unfold set_closing in rw apart refl);
      },
    )

-- Stop in such a Manager does not panic, ends the loops of the id and no others, and serves nothing
-- under the id from then on.
module _ (id : String) (m : Manager) (f : String → Option Target) (s : IsServing m f) where
  stop_idle : (m' : Manager) → Rounds m.calls (begin_stop id m) m' → (k : ℕ) → m'.closing k ≡ []
  stop_idle m' r k = elim (Bool-cases (m.calls == k)) [
    | inl same ↦ subst (λ j. m'.closing j ≡ []) ((==_iff m.calls k).0 same) r.ended
    | inr other ↦ r.others k other ∙ (unfold begin_stop set_closing in rw other (s.idle k))
  ]

  stop-Serves :
      (m' : Manager)
      → Rounds m.calls (begin_stop id m) m'
      → (other : String) → Serves m' other (if str_eq id other then none else f other)
  unfolding begin_stop set_stops
  stop-Serves m' r other = elim (Bool-cases (str_eq id other)) [
    | inl same ↦ rw same (record {
      current = [];
      tasks = refl;
      listed = ap (λ g. g other) r.stops ∙ rw same refl;
      started = tt;
      only = λ l there mine. elim (Mem-All _ m'.loops r.orderly.loops there).kept [
        | inl over ↦ inl over
        | inr (inl in_map) ↦
            let gone : m'.stops l.target.id ≡ [] =
              ap m'.stops mine ∙ ap (λ g. g other) r.stops ∙ rw same refl in
            absurd (cc (subst (λ chans. has l.chan chans ≡ true) gone in_map))
        | inr (inr (k, in_call)) ↦
            absurd (cc (subst (λ chans. has l.chan chans ≡ true) (stop_idle m' r k) in_call))
      ];
    })
    | inr apart ↦ rw apart (
        kept-Serves m m' other (f other) (s.serves other)
          (ap (λ g. g other) r.stops ∙ rw apart refl)
          (λ l there. subst (λ ls. Memᴰ l ls) (sym r.loops) there)
          (λ l there mine. subst (λ ls. Memᴰ l ls) r.loops there) r.closed)
  ]

  pub stop-IsServing :
      (m' : Manager) × (stop id m ≡ some m')
      × IsServing m' (λ other. if str_eq id other then none else f other)
  unfolding stop
  stop-IsServing =
      let (m', e, r) =
        close_rounds-Rounds (m.stops id) m.calls (begin_stop id m)
          (begin_stop-IsOrderly id m s.orderly)
          (unfold begin_stop set_closing in rw ((==_iff m.calls m.calls).1 refl) refl) in
      (m', e, record { orderly = r.orderly; idle = stop_idle m' r; serves = stop-Serves m' r })
