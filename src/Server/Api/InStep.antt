-- ===== src/Server/Api/InStep.antt =====
-- The running loops are in step with the stored targets, request after request.
use mcmon.Prelude.{
  ℕ, ◌+◌, ◌≡◌, refl, sym, ◌⊎◌, inl, inr, String, str_eq, Bool, true, false, Option, none, some,
  List, [], ◌∷◌, ◌++◌, trim_prefix, is_blank, Bool-cases,
}
use Prim.Native.String.{◌++◌ as str_append}
use mcmon.Config.Target.{Target}
use mcmon.Config.Store.{
  Json, World, Reply, saved, rejected, not_written, stopped, upsert, delete, get,
}
use mcmon.Config.Store.Restart.{IsSound, delete-IsSound}
use mcmon.Config.Store.Replies.{IsPut, UpsertLaw, upsert-UpsertLaw, delete-found}
use mcmon.Prober.Manager.{Manager, start}
use mcmon.Prober.Manager.Serving.{IsServing, IsServing-same}
use mcmon.Prober.Manager.Serving.Start.{start-IsServing}
use mcmon.Prober.Manager.Serving.Stop.{stop-IsServing}
use mcmon.Server.Api.{
  Method, method_get, method_post, method_put, method_delete, other_method, Core, write_error,
  one_target, error, Reaction, Response, responded, halted, panicked, ok, Codec,
}
use mcmon.Server.Api.Targets.{
  start_then, after_upsert, after_delete, upsert_then, save_target, import_loop, import_targets,
  delete_target, with_path_id, handle_targets, handle_import, handle_one, handle_target,
}

-- The stored targets are sound, and the loops that run under an id are exactly those of the target that
-- Get finds for it.
pub record IsInStep (c : Core) : Type 0 where
  pub sound : IsSound c.world.cfg.targets
  pub serving : IsServing c.manager (λ id. get id c.world)

-- The answer of a handler whose file could not be written.
abbrev pub IsUnwritten : Response → Type 0
IsUnwritten r =
    (prefix : String) × (r ≡ record { status = 400; content = error (write_error prefix) })

-- What a request leaves: no panic, and loops in step, unless the file could not be written.
abbrev pub Settled : Reaction → Core → Type 0
Settled (responded r) c = IsInStep c ⊎ IsUnwritten r
Settled halted c = Unit
Settled panicked c = ⊥

pub put-IsInStep :
    (t : Target) (w w' : World) (m : Manager)
    → IsPut w t w'
    → IsServing m (λ id. get id w)
    → (m' : Manager) × (start t m ≡ some m') × IsInStep (record { world = w'; manager = m' })
put-IsInStep t w w' m put serving =
    let (m', e, serving') = start-IsServing t m (λ id. get id w) serving put.kept.normal in
    (
      m',
      e,
      record {
        sound = put.sound;
        serving = IsServing-same m' _ (λ id. get id w') (λ id. sym (put.found id)) serving';
      },
    )

module _ (next : Target → Core → Reaction × Core)
    (settles : (s : Target) (c : Core) → IsInStep c → Settled (next s c).0 (next s c).1) where
  after_upsert-Settled :
      (prefix : String) (w : World) (reply : Reply Target) (w' : World) (m : Manager)
      → IsInStep (record { world = w; manager = m })
      → UpsertLaw w reply w'
      → Settled (after_upsert prefix reply w' m next).0 (after_upsert prefix reply w' m next).1
  unfolding after_upsert start_then
  after_upsert-Settled prefix w (rejected e) w' m in_step law = inl (rw law in_step)
  after_upsert-Settled prefix w not_written w' m in_step law = inr (prefix, refl)
  after_upsert-Settled prefix w stopped w' m in_step law = tt
  after_upsert-Settled prefix w (saved t) w' m in_step put =
      let (m', e, in_step') = put-IsInStep t w w' m put in_step.serving in
      rw (e, start_then) (settles t (record { world = w'; manager = m' }) in_step')

module _ (json : Json) (path : String) where
  module _ (next : Target → Core → Reaction × Core)
      (settles : (s : Target) (c : Core) → IsInStep c → Settled (next s c).0 (next s c).1) where
    upsert_then-Settled :
        (prefix fresh : String) (t : Target) (c : Core)
        → is_blank fresh ≡ false
        → IsInStep c
        → Settled
            (upsert_then json path prefix fresh t c next).0
            (upsert_then json path prefix fresh t c next).1
    unfolding upsert_then
    upsert_then-Settled prefix fresh t c named in_step =
        after_upsert-Settled next settles prefix c.world (upsert json path fresh t c.world).0
          (upsert json path fresh t c.world).1 c.manager in_step
          (upsert-UpsertLaw json path c.world in_step.sound fresh t named)

  save_target-Settled :
      (fresh : String) (o : Option Target) (c : Core)
      → is_blank fresh ≡ false
      → IsInStep c
      → Settled (save_target json path fresh o c).0 (save_target json path fresh o c).1
  unfolding save_target
  save_target-Settled fresh none c named in_step = inl in_step
  save_target-Settled fresh (some t) c named in_step =
      upsert_then-Settled (λ s c'. (ok (one_target s), c')) (λ s c' h. inl h) "" fresh t c named
        in_step

  import_loop-Settled :
      (fresh : ℕ → String) (i : ℕ) (out ts : List Target) (c : Core)
      → ((j : ℕ) → is_blank (fresh j) ≡ false)
      → IsInStep c
      → Settled
          (import_loop json path fresh i out ts c).0
          (import_loop json path fresh i out ts c).1
  unfolding import_loop
  import_loop-Settled fresh i out [] c named in_step = inl in_step
  import_loop-Settled fresh i out (t ∷ ts) c named in_step =
      upsert_then-Settled (λ s c'. import_loop json path fresh (i + 1) (out ++ (s ∷ [])) ts c')
        (λ s c' h. import_loop-Settled fresh (i + 1) (out ++ (s ∷ [])) ts c' named h)
        (str_append (str_append "target " t.name) ": ") (fresh i) t c (named i) in_step

  -- DELETE leaves the loops in step also where the file could not be written.
  after_delete-Settled :
      (reply : Reply Bool) (c : Core) → IsInStep c → Settled (after_delete reply) c
  unfolding after_delete
  after_delete-Settled (saved true) c in_step = inl in_step
  after_delete-Settled (saved false) c in_step = inl in_step
  after_delete-Settled (rejected e) c in_step = inl in_step
  after_delete-Settled not_written c in_step = inl in_step
  after_delete-Settled stopped c in_step = tt

  pub delete_target-stops :
      (id : String) (c : Core)
      → IsInStep c
      → (m' : Manager) × (delete_target json path id c ≡ (
        after_delete (delete json path id c.world).0,
        record { world = (delete json path id c.world).1; manager = m' },
      ))
        × IsInStep (record { world = (delete json path id c.world).1; manager = m' })
  unfolding delete_target
  delete_target-stops id c in_step =
      let (m', e, serving) = stop-IsServing id c.manager _ in_step.serving in
      let w' = (delete json path id c.world).1 in
      (
        m',
        rw (e, delete_target) refl,
        record {
          sound = delete-IsSound json path c.world in_step.sound id;
          serving =
              IsServing-same m' _ (λ j. get j w')
                (λ j. sym (delete-found json path c.world in_step.sound id j)) serving;
        },
      )

  delete_target-Settled :
      (id : String) (c : Core)
      → IsInStep c
      → Settled (delete_target json path id c).0 (delete_target json path id c).1
  delete_target-Settled id c in_step =
      let (m', e, in_step') = delete_target-stops id c in_step in
      rw e (after_delete-Settled (delete json path id c.world).0 _ in_step')

  import_targets-Settled :
      (fresh : ℕ → String) (o : Option (List Target)) (c : Core)
      → ((j : ℕ) → is_blank (fresh j) ≡ false)
      → IsInStep c
      → Settled (import_targets json path fresh o c).0 (import_targets json path fresh o c).1
  unfolding import_targets
  import_targets-Settled fresh none c named in_step = inl in_step
  import_targets-Settled fresh (some ts) c named in_step =
      import_loop-Settled fresh 0 [] ts c named in_step

module _ (json : Json) (path : String) (codec : Codec) (fresh : ℕ → String)
    (named : (j : ℕ) → is_blank (fresh j) ≡ false) (c : Core) (in_step : IsInStep c)
    (body : String) where
  handle_targets-Settled :
      (method : Method)
      → Settled
          (handle_targets json path codec fresh method body c).0
          (handle_targets json path codec fresh method body c).1
  unfolding handle_targets
  handle_targets-Settled method_get = inl in_step
  handle_targets-Settled method_post =
      save_target-Settled json path (fresh 0) (codec.target body) c (named 0) in_step
  handle_targets-Settled method_put = inl in_step
  handle_targets-Settled method_delete = inl in_step
  handle_targets-Settled other_method = inl in_step

  handle_import-Settled :
      (method : Method)
      → Settled
          (handle_import json path codec fresh method body c).0
          (handle_import json path codec fresh method body c).1
  unfolding handle_import
  handle_import-Settled method_post =
      import_targets-Settled json path fresh (codec.targets body) c named in_step
  handle_import-Settled method_get = inl in_step
  handle_import-Settled method_put = inl in_step
  handle_import-Settled method_delete = inl in_step
  handle_import-Settled other_method = inl in_step

  handle_one-Settled :
      (id : String) (method : Method)
      → Settled
          (handle_one json path codec fresh id method body c).0
          (handle_one json path codec fresh id method body c).1
  unfolding handle_one
  handle_one-Settled id method_put =
      save_target-Settled json path (fresh 0) (with_path_id id (codec.target body)) c (named 0)
        in_step
  handle_one-Settled id method_delete = delete_target-Settled json path id c in_step
  handle_one-Settled id method_get = inl in_step
  handle_one-Settled id method_post = inl in_step
  handle_one-Settled id other_method = inl in_step

  handle_target-Settled :
      (method : Method) (url_path : String)
      → Settled
          (handle_target json path codec fresh method url_path body c).0
          (handle_target json path codec fresh method url_path body c).1
  unfolding handle_target
  handle_target-Settled method url_path =
      elim (Bool-cases (str_eq (trim_prefix "/api/targets/" url_path) "import")) [
        | inl bulk ↦ rw bulk (handle_import-Settled method)
        | inr one ↦ elim (Bool-cases (str_eq (trim_prefix "/api/targets/" url_path) "")) [
          | inl empty ↦ rw (one, empty) (inl in_step)
          | inr named_one ↦
              rw (one, named_one) (handle_one-Settled (trim_prefix "/api/targets/" url_path) method)
        ]
      ]

  -- Whatever is asked of /api/targets and /api/targets/…, a handler does not panic, and where the
  -- running loops have been those of the stored targets they are so after it, unless the file could not
  -- be written in a POST or PUT; where the process stops in the middle nothing is claimed of its memory.
  pub handle-Settled :
      (method : Method) (url_path : String)
      → Settled
          (handle_targets json path codec fresh method body c).0
          (handle_targets json path codec fresh method body c).1
        × Settled
            (handle_target json path codec fresh method url_path body c).0
            (handle_target json path codec fresh method url_path body c).1
  handle-Settled method url_path =
      (handle_targets-Settled method, handle_target-Settled method url_path)
