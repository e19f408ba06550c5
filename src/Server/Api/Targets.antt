-- ===== src/Server/Api/Targets.antt =====
-- The handlers of /api/targets and /api/targets/, of internal/app/server.go. Requests are handled one after
-- the other.
pub mod Host
use mcmon.Prelude.{
  ℕ, ◌+◌, String, str_eq, Bool, true, false, Option, none, some, List, [], ◌∷◌, ◌++◌, trim_prefix,
  if◌then◌else◌,
}
use Prim.Native.String.{◌++◌ as str_append}
use mcmon.Config.Target.{Target}
use mcmon.Config.Store.{
  Json, World, Reply, saved, rejected, not_written, stopped, upsert, delete, targets,
}
use mcmon.Prober.Manager.{Manager, start, stop}
use mcmon.Server.Api.{
  Method, method_get, method_post, method_put, method_delete, Core, text, invalid_json,
  invalid_target, write_error, nothing, one_target, all_targets, Reaction, responded, halted,
  panicked, ok, http_error, method_not_allowed, Codec,
}

-- `mgr.Start(saved)`, and what follows it.
unfoldable pub start_then :
    Option Manager → Target → World → Manager → (Target → Core → Reaction × Core) → Reaction × Core
start_then none t w m next = (panicked, record { world = w; manager = m })
start_then (some m') t w m next = next t (record { world = w; manager = m' })

-- What follows `saved, err := cs.Upsert(t)`.
unfoldable pub after_upsert :
    String → Reply Target → World → Manager → (Target → Core → Reaction × Core) → Reaction × Core
after_upsert prefix (saved t) w m next = start_then (start t m) t w m next
after_upsert prefix (rejected e) w m next =
    (http_error 400 (invalid_target prefix e), record { world = w; manager = m })
after_upsert prefix not_written w m next =
    (http_error 400 (write_error prefix), record { world = w; manager = m })
after_upsert prefix stopped w m next = (halted, record { world = w; manager = m })

-- What follows `ok, err := cs.Delete(id)`.
unfoldable pub after_delete : Reply Bool → Reaction
after_delete (saved true) = responded (record { status = 204; content = nothing })
after_delete (saved false) = http_error 404 (text "not found")
after_delete (rejected e) = http_error 500 (invalid_target "" e)
after_delete not_written = http_error 500 (write_error "")
after_delete stopped = halted

-- `t.ID = id`.
unfoldable pub with_path_id : String → Option Target → Option Target
with_path_id id none = none
with_path_id id (some t) = some (record t { id = id })

module _ (json : Json) (path : String) where
  unfoldable pub upsert_then :
      String → String → Target → Core → (Target → Core → Reaction × Core) → Reaction × Core
  upsert_then prefix fresh t c next =
      let (reply, w) = upsert json path fresh t c.world in
      after_upsert prefix reply w c.manager next

  -- Upsert, Start and the answer, of POST and PUT.
  unfoldable pub save_target : String → Option Target → Core → Reaction × Core
  save_target fresh none c = (http_error 400 invalid_json, c)
  save_target fresh (some t) c = upsert_then "" fresh t c (λ s c'. (ok (one_target s), c'))

  -- The loop of the import, with the slice `saved` so far; `fresh i` is what generateID gives at
  -- index `i`, if it is called there.
  unfoldable pub import_loop : (ℕ → String) → ℕ → List Target → List Target → Core → Reaction × Core
  import_loop fresh i out [] c = (ok (all_targets out), c)
  import_loop fresh i out (t ∷ ts) c =
      upsert_then (str_append (str_append "target " t.name) ": ") (fresh i) t c
        (λ s c'. import_loop fresh (i + 1) (out ++ (s ∷ [])) ts c')

  unfoldable pub import_targets : (ℕ → String) → Option (List Target) → Core → Reaction × Core
  import_targets fresh none c = (http_error 400 invalid_json, c)
  import_targets fresh (some ts) c = import_loop fresh 0 [] ts c

  -- DELETE: Stop comes first.
  unfoldable pub delete_target : String → Core → Reaction × Core
  delete_target id c = elim (stop id c.manager) [
    | none ↦ (panicked, c)
    | some m' ↦
        let (reply, w) = delete json path id c.world in
        (after_delete reply, record { world = w; manager = m' })
  ]

  module _ (codec : Codec) where
    -- /api/targets
    unfoldable pub handle_targets : (ℕ → String) → Method → String → Core → Reaction × Core
    handle_targets fresh method_get body c = (ok (all_targets (targets c.world)), c)
    handle_targets fresh method_post body c = save_target (fresh 0) (codec.target body) c
    handle_targets fresh _ body c = (method_not_allowed, c)

    unfoldable pub handle_import : (ℕ → String) → Method → String → Core → Reaction × Core
    handle_import fresh method_post body c = import_targets fresh (codec.targets body) c
    handle_import fresh _ body c = (method_not_allowed, c)

    unfoldable pub handle_one : (ℕ → String) → String → Method → String → Core → Reaction × Core
    handle_one fresh id method_put body c =
        save_target (fresh 0) (with_path_id id (codec.target body)) c
    handle_one fresh id method_delete body c = delete_target id c
    handle_one fresh id _ body c = (method_not_allowed, c)

    -- /api/targets/…
    unfoldable pub handle_target : (ℕ → String) → Method → String → String → Core → Reaction × Core
    handle_target fresh method url_path body c =
        let id = trim_prefix "/api/targets/" url_path in
        if str_eq id "import"
        then handle_import fresh method body c
        else if str_eq id ""
        then (http_error 400 (text "missing target id"), c)
        else handle_one fresh id method body c
