-- ===== src/Prober/Manager/Serving/Start.antt =====
-- Start as an update of the dictionary that a Manager serves.
use mcmon.Prelude.{
  ℕ, ◌≡◌, refl, sym, ap, ◌∙◌, inl, inr, String, str_eq, eq_iff, true, Option, some, if◌then◌else◌,
  arith, Bool-cases,
}
use mathlib.Core.Path.{subst}
use mathlib.Core.List.{Memᴰ}
use mathlib.Core.List.Memᴰ
use mcmon.Config.Target.{Target, normalized}
use mcmon.Config.Target.Normal.{IsNormal, normalized_self}
use mcmon.Prober.Manager.{Manager, start}
use mcmon.Prober.Manager.Channels.{has, closes-has}
use mcmon.Prober.Manager.Start.{restarted, start-restarted}
use mcmon.Prober.Manager.Runs.{Replaces, start-Replaces}
use mcmon.Prober.Manager.Serving.{Serves, IsServing, kept-Serves, All-Mem, Mem-All}

-- Start in a Manager that serves a dictionary of targets does not panic, and serves from then on the
-- target under its id and all else as before.
module _ (t : Target) (m : Manager) (f : String → Option Target) (s : IsServing m f)
    (normal : IsNormal t) where
  start-Serves :
      (m' : Manager)
      → ((c : ℕ) → m.is_closed c ≡ true → m'.is_closed c ≡ true)
      → Replaces t m m'
      → (id : String) → Serves m' id (if str_eq t.id id then some t else f id)
  start-Serves m' closed r id = elim (Bool-cases (str_eq t.id id)) [
    | inl same ↦
        let e : t.id ≡ id = (eq_iff t.id id).0 same in
        rw same (record {
          current = r.spawned;
          tasks = r.tasks;
          listed = r.stops id ∙ rw same refl;
          started = All-Mem r.spawned (λ l there. (
            rw (r.grown) (Memᴰ.append_right m.loops there),
            ap some (Mem-All _ r.spawned r.running there).0,
          ));
          only = λ l there mine.
              elim (Memᴰ.append_cases m.loops (subst (λ ls. Memᴰ l ls) (r.grown) there)) [
                | inr new ↦ inr new
                | inl old ↦ elim (Mem-All _ m.loops r.ended old) [
                  | inl other ↦ absurd (other (mine ∙ sym e))
                  | inr (inl over) ↦ inl over
                  | inr (inr (k, in_call)) ↦ absurd (
                      cc (
                        subst (λ chans. has l.chan chans ≡ true)
                          (ap (λ g. g k) r.closing ∙ s.idle k) in_call))
                ]
              ];
        })
    | inr other ↦ rw other (
        kept-Serves m m' id (f id) (s.serves id) (r.stops id ∙ rw other refl)
          (λ l there. rw (r.grown) (Memᴰ.append_left r.spawned there))
          (λ l there mine.
            elim (Memᴰ.append_cases m.loops (subst (λ ls. Memᴰ l ls) (r.grown) there)) [
              | inl old ↦ old
              | inr new ↦
                  let its : l.target ≡ t = (Mem-All _ r.spawned r.running new).0 in
                  let e : t.id ≡ id = ap (λ (x : Target). x.id) (sym its) ∙ mine in
                  absurd (cc ((eq_iff t.id id).1 e, other))
            ])
          closed)
  ]

  closed_after :
      (m' : Manager) → start t m ≡ some m' → (c : ℕ) → m.is_closed c ≡ true → m'.is_closed c ≡ true
  closed_after m' e c h =
      let same : m' ≡ restarted (normalized t) m = cc (e, start-restarted t m s.orderly) in
      rw same (closes-has (m.stops (normalized t).id) m.is_closed c ∙ ground (arith, h))

  pub start-IsServing :
      (m' : Manager) × (start t m ≡ some m')
      × IsServing m' (λ id. if str_eq t.id id then some t else f id)
  start-IsServing =
      let (m', e, orderly, r) = start-Replaces t m s.orderly in
      (
        m',
        e,
        record {
          orderly = orderly;
          idle = λ k. ap (λ g. g k) r.closing ∙ s.idle k;
          serves =
              start-Serves m' (closed_after m' e)
                (subst (λ u. Replaces u m m') (normalized_self t normal) r);
        },
      )
