-- ===== src/Prober/Manager/Serving/Sync.antt =====
-- Sync, which starts every target of a list.
use mcmon.Prelude.{
  ◌≡◌, refl, inl, inr, String, str_eq, eq_iff, Option, none, some, List, [], ◌∷◌, if◌then◌else◌,
  All, Bool-cases,
}
use mathlib.Core.Path.{subst}
use mcmon.Config.Target.{Target}
use mcmon.Config.Targets.{find_target}
use mcmon.Config.Targets.Laws.{IsUnique, Fresh, find_target-none}
use mcmon.Config.Target.Normal.{IsNormal}
use mcmon.Prober.Manager.{Manager, sync}
use mcmon.Prober.Manager.Serving.{IsServing, IsServing-same}
use mcmon.Prober.Manager.Serving.Start.{start-IsServing}

-- The targets of a list over a dictionary.
abbrev pub first_of : Option Target → Option Target → Option Target
first_of none o = o
first_of (some t) o = some t

over-cons :
    (t : Target) (ts : List Target) (f : String → Option Target) (id : String)
    → Fresh t.id ts
    → first_of (find_target id ts) (if str_eq t.id id then some t else f id)
      ≡ first_of (find_target id (t ∷ ts)) (f id)
unfolding find_target
over-cons t ts f id fresh = elim (Bool-cases (str_eq t.id id)) [
  | inr other ↦ rw other refl
  | inl same ↦
      let absent : find_target id ts ≡ none =
        find_target-none id ts (subst (λ j. Fresh j ts) ((eq_iff t.id id).0 same) fresh) in
      rw (same, absent) refl
]

-- Sync with unique and normal targets does not panic, and serves them from then on.
pub sync-IsServing :
    (ts : List Target) (m : Manager) (f : String → Option Target)
    → IsUnique ts
    → All IsNormal ts
    → IsServing m f
    → (m' : Manager) × (sync ts m ≡ some m')
      × IsServing m' (λ id. first_of (find_target id ts) (f id))
unfolding sync
sync-IsServing [] m f u n s = unfold find_target in (m, refl, s)
sync-IsServing (t ∷ ts) m f (fresh, u) (n, ns) s =
    let (m1, e, s1) = start-IsServing t m f s n in
    let (m', e', s') = sync-IsServing ts m1 _ u ns s1 in
    (m', rw (e, sync) e', IsServing-same m' _ _ (λ id. over-cons t ts f id fresh) s')
