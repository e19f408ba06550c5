-- ===== src/Server/Api/Running.antt =====
-- What the answer of POST, PUT and DELETE says of the loops that run.
use mcmon.Prelude.{
  ◌≡◌, refl, sym, ap, ◌∙◌, inl, inr, String, true, false, Option, none, some, List, [], ◌∷◌,
  is_blank, Bool-cases, if◌then◌else◌,
}
use mathlib.Core.Path.{subst}
use mcmon.Config.Target.{Target, normalized, own_defaults}
use mcmon.Config.Store.{Json, saved, not_written, with_id, upsert, delete, get}
use mcmon.Config.Store.Edits.{stored}
use mcmon.Config.Store.Replies.{
  IsPut, UpsertLaw, upsert-UpsertLaw, upsert-not_written, delete-found,
}
use mcmon.Prober.Manager.{Manager}
use mcmon.Prober.Manager.Serving.{IsServing}
use mcmon.Server.Api.{Core, write_error, one_target, ok, http_error}
use mcmon.Server.Api.Targets.{
  start_then, after_upsert, after_delete, upsert_then, save_target, delete_target,
}
use mathlib.Core.List.{Memᴰ}
use mathlib.Core.List.Memᴰ
use mcmon.Prelude.{All, map, arith, ==_iff, eq_refl}
use mcmon.Prober.Manager.{Loop}
use mcmon.Prober.Manager.Channels.{has}
use mcmon.Prober.Manager.Sound.{registry}
use mcmon.Prober.Manager.Serving.{tasks_of, All-Mem, Mem-All}
use mcmon.Server.Api.InStep.{IsInStep, put-IsInStep, delete_target-stops}

-- The goroutines that run under an id: those of `current`, which do the tasks of the plan of the target
-- `o`, for this target, and no others.
pub record IsRunning (m : Manager) (id : String) (o : Option Target) : Type 0 where
  pub current : List Loop
  pub tasks : map (λ l. l.task) current ≡ tasks_of o
  pub alive : All (λ l. Memᴰ l m.loops × (some l.target ≡ o) × (m.is_closed l.chan ≡ false)) current
  pub only :
      (l : Loop) → Memᴰ l m.loops → l.target.id ≡ id → m.is_closed l.chan ≡ false → Memᴰ l current

has-map : (l : Loop) (ls : List Loop) → Memᴰ l ls → has l.chan (map (λ x. x.chan) ls) ≡ true
has-map l [] there = absurd (Memᴰ.not-nil there)
has-map l (x ∷ ls) there = elim (Memᴰ.cases_cons there) [
  | inl e ↦
      let same : x.chan ≡ l.chan = ap (λ (y : Loop). y.chan) (sym e) in
      let found = (==_iff x.chan l.chan).1 same in ground (arith, found)
  | inr later ↦ let rest = has-map l ls later in ground (arith, rest)
]

serving-IsRunning :
    (m : Manager) (f : String → Option Target) (id : String) → IsServing m f → IsRunning m id (f id)
serving-IsRunning m f id s =
    let now = s.serves id in
    record {
      current = now.current;
      tasks = now.tasks;
      alive = All-Mem now.current (λ l there.
          let (started, its) = Mem-All _ now.current now.started there in
          let held : has l.chan (m.stops id) ≡ true =
            subst (λ chans. has l.chan chans ≡ true) (sym now.listed)
              (has-map l now.current there) in
          (started, its, (s.orderly.live (registry id) l.chan held).0));
      only = λ l there mine runs. elim (now.only l there mine) [
        | inl over ↦ absurd (cc (over, runs))
        | inr listed ↦ listed
      ];
    }

-- The id of a target, or a fresh one.
abbrev pub id_or : String → Target → String
id_or fresh t = if is_blank t.id then fresh else t.id

-- What Upsert stores of a target, field by field.
stored-eq :
    (fresh : String) (t : Target)
    → stored fresh t
      ≡ record (normalized t) { id = id_or fresh t; name = t.name; host = t.host; port = t.port }
unfolding with_id normalized own_defaults
stored-eq fresh t = elim (Bool-cases (is_blank t.id)) [
  | inl blank ↦ rw (blank, with_id) refl
  | inr given ↦ rw (given, with_id) refl
]

module _ (json : Json) (path fresh : String) (t : Target) (c : Core) (in_step : IsInStep c)
    (named : is_blank fresh ≡ false) where
  -- Where the stored targets are sound and the running loops are theirs, and generateID gives an id that is
  -- not blank: a POST or PUT whose target was saved answers with the target that Upsert returned, and from
  -- then on Get finds it and exactly the loops of its plan run for it.
  pub save_target-saved :
      (t' : Target)
      → (upsert json path fresh t c.world).0 ≡ saved t'
      → (m' : Manager) × (save_target json path fresh (some t) c ≡ (
        ok (one_target t'),
        record { world = (upsert json path fresh t c.world).1; manager = m' },
      ))
        × IsRunning m' t'.id (some t')
        × (get t'.id (upsert json path fresh t c.world).1 ≡ some t')
  unfolding save_target upsert_then after_upsert start_then
  save_target-saved t' e =
      let w' = (upsert json path fresh t c.world).1 in
      let put : IsPut c.world t' w' =
        subst (λ r. UpsertLaw c.world r w') e
          (upsert-UpsertLaw json path c.world in_step.sound fresh t named) in
      let (m', started, in_step') = put-IsInStep t' c.world w' c.manager put in_step.serving in
      let found : get t'.id w' ≡ some t' = put.found t'.id ∙ rw (eq_refl t'.id) refl in
      (
        m',
        rw (e, after_upsert, started, start_then) refl,
        subst (IsRunning m' t'.id) found (serving-IsRunning m' _ t'.id in_step'.serving),
        found,
      )

  -- Where the stored targets are sound and the running loops are theirs, and generateID gives an id that is
  -- not blank: a POST or PUT whose file could not be written answers with an error; but from then on Get
  -- finds the new target, with the name, the host and the port that were sent, its other fields
  -- normalized, and the fresh id where it had none; while the loops that run under that id are those of
  -- the target that Get found there before.
  pub save_target-not_written :
      (upsert json path fresh t c.world).0 ≡ not_written
      → (save_target json path fresh (some t) c ≡ (
        http_error 400 (write_error ""),
        record c { world = (upsert json path fresh t c.world).1 },
      ))
        × (get (id_or fresh t) (upsert json path fresh t c.world).1
            ≡ some (record (normalized t) {
              id = id_or fresh t;
              name = t.name;
              host = t.host;
              port = t.port;
            }))
        × IsRunning c.manager (id_or fresh t) (get (id_or fresh t) c.world)
  unfolding save_target upsert_then after_upsert
  save_target-not_written e =
      let w' = (upsert json path fresh t c.world).1 in
      let put = upsert-not_written json path c.world in_step.sound fresh t named e in
      let same = stored-eq fresh t in
      (
        rw (e, after_upsert) refl,
        subst (λ (s : Target). get s.id w' ≡ some s) same
            (put.found (stored fresh t).id ∙ rw (eq_refl (stored fresh t).id) refl),
        serving-IsRunning c.manager _ (id_or fresh t) in_step.serving,
      )

module _ (json : Json) (path id : String) (c : Core) (in_step : IsInStep c) where
  -- Where the stored targets are sound, so that no two have the same id, and the running loops are theirs:
  -- a DELETE ends every loop that runs under the id, and Get finds nothing there, whatever its answer:
  -- also where there was no such target, and where the file could not be written.
  pub delete_target-ends :
      (m' : Manager) × (delete_target json path id c ≡ (
        after_delete (delete json path id c.world).0,
        record { world = (delete json path id c.world).1; manager = m' },
      ))
      × IsRunning m' id none
      × (get id (delete json path id c.world).1 ≡ none)
  delete_target-ends =
      let (m', e, in_step') = delete_target-stops json path id c in_step in
      let found : get id (delete json path id c.world).1 ≡ none =
        delete-found json path c.world in_step.sound id id ∙ rw (eq_refl id) refl in
      (m', e, subst (IsRunning m' id) found (serving-IsRunning m' _ id in_step'.serving), found)
