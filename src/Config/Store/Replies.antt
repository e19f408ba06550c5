-- ===== src/Config/Store/Replies.antt =====
-- What Upsert and Delete leave in memory, reply by reply.
use mcmon.Prelude.{
  ◌≡◌, refl, sym, ap, ◌∙◌, inl, inr, String, false, none, some, str_eq, eq_iff, is_blank,
  if◌then◌else◌, Bool-cases, Option-cases,
}
use mathlib.Core.Path.{subst}
use mcmon.Config.Targets.{put_target}
use mcmon.Config.Target.{Target, normalized, validate}
use mcmon.Config.Target.Normal.{normalized-IsNormal}
use mcmon.Config.Disk.{Done, done, failed, crashed}
use mcmon.Config.Store.{
  Json, World, Reply, saved, rejected, not_written, stopped, reply_of, write_config, persist,
  upsert, delete, get, set_targets,
}
use mcmon.Config.Store.Edits.{stored, get-upsert, get-delete, upsert_rejected, upsert-valid}
use mcmon.Config.Store.Restart.{IsKept, IsSound, with_id-IsKept, upsert-IsSound}

-- From `w` to `w'` one target is put under its id.
pub record IsPut (w : World) (t : Target) (w' : World) : Type 0 where
  pub kept : IsKept t
  pub sound : IsSound w'.cfg.targets
  pub found : (id : String) → get id w' ≡ (if str_eq t.id id then some t else get id w)

-- Upsert changes nothing where it rejects the target; else the target that it returns stands in memory,
-- or some target does where the write failed.
abbrev pub UpsertLaw : World → Reply Target → World → Type 0
UpsertLaw w (saved t) w' = IsPut w t w'
UpsertLaw w (rejected e) w' = w' ≡ w
UpsertLaw w not_written w' = (t : Target) × IsPut w t w'
UpsertLaw w stopped w' = Unit

UpsertLaw-reply_of :
    (w w' : World) (t : Target) (r : Done (Unit {0})) → IsPut w t w' → UpsertLaw w (reply_of t r) w'
UpsertLaw-reply_of w w' t (done a) put = put
UpsertLaw-reply_of w w' t failed put = (t, put)
UpsertLaw-reply_of w w' t crashed put = tt

module _ (json : Json) (path : String) (w : World) (sound : IsSound w.cfg.targets) where
  -- How the write in Upsert ends.
  result : String → Target → Done (Unit {0})
  result fresh t =
      (write_config json path (set_targets (put_target (stored fresh t) w.cfg.targets) w.cfg)
        w.disk).0

  upsert-IsPut :
      (fresh : String) (t : Target)
      → is_blank fresh ≡ false
      → validate t ≡ none
      → IsPut w (stored fresh t) (upsert json path fresh t w).1
  upsert-IsPut fresh t named valid = record {
    kept = with_id-IsKept fresh (normalized t) named (normalized-IsNormal t);
    sound = upsert-IsSound json path w sound fresh t named;
    found = (get-upsert json path fresh t w valid).0;
  }

  pub upsert-UpsertLaw :
      (fresh : String) (t : Target)
      → is_blank fresh ≡ false
      → UpsertLaw w (upsert json path fresh t w).0 (upsert json path fresh t w).1
  unfolding result
  upsert-UpsertLaw fresh t named = elim (Option-cases (validate t)) [
    | inr (e, refused) ↦ rw (upsert_rejected json path fresh t w e refused) refl
    | inl valid ↦
        let written : (upsert json path fresh t w).0 ≡ reply_of (stored fresh t) (result fresh t) =
          ap (λ (o : Reply Target × World). o.0) (upsert-valid json path fresh t w valid)
          ∙ (unfold persist in refl) in
        subst (λ r. UpsertLaw w r (upsert json path fresh t w).1) (sym written)
          (UpsertLaw-reply_of w (upsert json path fresh t w).1 (stored fresh t) (result fresh t)
            (upsert-IsPut fresh t named valid))
  ]

  -- Where the write failed, the target that stands in memory is the one that was asked for.
  pub upsert-not_written :
      (fresh : String) (t : Target)
      → is_blank fresh ≡ false
      → (upsert json path fresh t w).0 ≡ not_written
      → IsPut w (stored fresh t) (upsert json path fresh t w).1
  upsert-not_written fresh t named e = elim (Option-cases (validate t)) [
    | inl valid ↦ upsert-IsPut fresh t named valid
    | inr (fault, refused) ↦
        absurd (cc (rw (upsert_rejected json path fresh t w fault refused) at e))
  ]

  -- Delete leaves no target under the id, whatever its reply, and does not reject.
  pub delete-found :
      (id other : String)
      → get other (delete json path id w).1 ≡ (if str_eq id other then none else get other w)
  delete-found id other = elim (get-delete json path id w sound.unique) [
    | inr (t, found, law) ↦ found other
    | inl (absent, e) ↦ elim (Bool-cases (str_eq id other)) [
      | inr apart ↦ rw (e, apart) refl
      | inl same ↦ rw (e, same) (subst (λ j. get j w ≡ none) ((eq_iff id other).0 same) absent)
    ]
  ]
