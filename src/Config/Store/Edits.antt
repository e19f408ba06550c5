-- ===== src/Config/Store/Edits.antt =====
-- Upsert and Delete as operations on a dictionary of targets, with the file behind it.
use mcmon.Prelude.{
  ◌≡◌, ◌⊎◌, inl, inr, String, true, false, none, some, List, str_eq, if◌then◌else◌, Option-cases,
}
use mcmon.Config.Target.{Target, Invalid, normalized, validate}
use mcmon.Config.Targets.{put_target, cut_target}
use mcmon.Config.Targets.Laws.{find_target-put_target, IsUnique, CutLaw, cut_target-CutLaw}
use mcmon.Config.Store.{
  Json, World, saved, rejected, with_id, set_targets, persist, upsert, delete, get,
}
use mcmon.Config.Store.Persist.{Persisted, persist-Persisted}

-- What Upsert stores of a target.
abbrev pub stored : String → Target → Target
stored fresh t = with_id fresh (normalized t)

module _ (json : Json) (path fresh : String) (t : Target) (w : World) where
  pub upsert-valid :
      validate t ≡ none
      → upsert json path fresh t w
        ≡ persist json path
            (stored fresh t)
            (set_targets (put_target (stored fresh t) w.cfg.targets) w.cfg)
            w.disk
  unfolding upsert
  upsert-valid h = rw (h, upsert)

  -- A target that does not pass validate changes neither memory nor disk, and its fault is returned.
  pub upsert_rejected :
      (e : Invalid) → validate t ≡ some e → upsert json path fresh t w ≡ (rejected e, w)
  unfolding upsert
  upsert_rejected e h = rw (h, upsert)

  -- A target that passes is in memory from then on, under its id and nowhere else, whether or not
  -- the file could be written; and the file follows the result as persist-Persisted says.
  pub get-upsert :
      validate t ≡ none
      → ((j : String)
          → get j (upsert json path fresh t w).1
            ≡ (if str_eq (stored fresh t).id j then some (stored fresh t) else get j w))
        × Persisted json path
            (upsert json path fresh t w).0
            w.disk
            (upsert json path fresh t w).1.cfg
            (upsert json path fresh t w).1.disk
  unfolding get persist
  get-upsert h =
      let t' = stored fresh t in
      let cfg' = set_targets (put_target t' w.cfg.targets) w.cfg in
      rw (upsert-valid h) (
        λ j. unfold set_targets in find_target-put_target t' w.cfg.targets j,
        persist-Persisted json path t' cfg' w.disk,
      )

module _ (json : Json) (path id : String) (w : World) where
  pub delete-some :
      {rest : List Target}
      → cut_target id w.cfg.targets ≡ some rest
      → delete json path id w ≡ persist json path true (set_targets rest w.cfg) w.disk
  unfolding delete
  delete-some h = rw (h, delete)

  pub delete-none : cut_target id w.cfg.targets ≡ none → delete json path id w ≡ (saved false, w)
  unfolding delete
  delete-none h = rw (h, delete)

  -- With unique ids: where Get finds no target with the id, Delete answers "not found" and changes
  -- nothing; where it finds one, that id and no other is gone from memory, whether or not the file
  -- could be written, and the file follows the result as persist-Persisted says.
  pub get-delete :
      IsUnique w.cfg.targets
      → ((get id w ≡ none) × (delete json path id w ≡ (saved false, w)))
        ⊎ (((t : Target) × (get id w ≡ some t))
            × ((j : String)
                → get j (delete json path id w).1 ≡ (if str_eq id j then none else get j w))
            × Persisted json path
                (delete json path id w).0
                w.disk
                (delete json path id w).1.cfg
                (delete json path id w).1.disk)
  unfolding get persist
  get-delete u = elim (Option-cases (cut_target id w.cfg.targets)) [
    | inl absent ↦ inl (rw absent at law, delete-none absent)
    | inr (rest, e) ↦
        let (found, law') = rw e at law in
        inr (
          found,
          rw (delete-some e) (λ j. unfold set_targets in law' j),
          rw (delete-some e) (persist-Persisted json path true (set_targets rest w.cfg) w.disk),
        )
  ]
    where
      law : CutLaw id w.cfg.targets (cut_target id w.cfg.targets)
      law = cut_target-CutLaw id w.cfg.targets u
