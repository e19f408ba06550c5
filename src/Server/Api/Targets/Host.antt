-- ===== src/Server/Api/Targets/Host.antt =====
-- The handlers on targets leave the remote host of the configuration as it is.
use mcmon.Prelude.{
  ℕ, ◌+◌, ◌≡◌, refl, ap, ◌∙◌, inl, inr, String, str_eq, Option, none, some, List, [], ◌∷◌, ◌++◌,
  trim_prefix, Bool-cases, Option-cases,
}
use Prim.Native.String.{◌++◌ as str_append}
use mcmon.Config.Target.{Target, validate}
use mcmon.Config.Targets.{cut_target}
use mcmon.Config.Store.{
  Json, World, Reply, saved, rejected, not_written, stopped, upsert, delete, persist, set_targets,
}
use mcmon.Config.Store.Edits.{upsert-valid, upsert_rejected, delete-some, delete-none}
use mcmon.Prober.Manager.{Manager, start, stop}
use mcmon.Server.Api.{
  Method, method_get, method_post, method_put, method_delete, other_method, Core, Reaction,
  one_target, ok, Codec,
}
use mcmon.Server.Api.Targets.{
  start_then, after_upsert, upsert_then, with_path_id, save_target, import_loop, import_targets,
  delete_target, handle_targets, handle_import, handle_one, handle_target,
}

abbrev pub host_of : World → String
host_of w = w.cfg.remote_host

host_of-upsert :
    (json : Json) (path fresh : String) (t : Target) (w : World)
    → host_of (upsert json path fresh t w).1 ≡ host_of w
unfolding persist set_targets
host_of-upsert json path fresh t w = elim (Option-cases (validate t)) [
  | inl valid ↦
      ap (λ (o : Reply Target × World). host_of o.1) (upsert-valid json path fresh t w valid)
  | inr (e, refused) ↦
      ap (λ (o : Reply Target × World). host_of o.1) (upsert_rejected json path fresh t w e refused)
]

host_of-delete :
    (json : Json) (path id : String) (w : World) → host_of (delete json path id w).1 ≡ host_of w
unfolding persist set_targets
host_of-delete json path id w = elim (Option-cases (cut_target id w.cfg.targets)) [
  | inl absent ↦ ap (λ o. host_of o.1) (delete-none json path id w absent)
  | inr (rest, e) ↦ ap (λ o. host_of o.1) (delete-some json path id w e)
]

module _ (next : Target → Core → Reaction × Core)
    (keeps : (s : Target) (c : Core) → host_of (next s c).1.world ≡ host_of c.world) where
  host_of-after_upsert :
      (prefix : String) (reply : Reply Target) (w : World) (m : Manager)
      → host_of (after_upsert prefix reply w m next).1.world ≡ host_of w
  unfolding after_upsert start_then
  host_of-after_upsert prefix (rejected e) w m = refl
  host_of-after_upsert prefix not_written w m = refl
  host_of-after_upsert prefix stopped w m = refl
  host_of-after_upsert prefix (saved t) w m = elim (Option-cases (start t m)) [
    | inl panics ↦ rw (panics, start_then) refl
    | inr (m', e) ↦ rw (e, start_then) (keeps t (record { world = w; manager = m' }))
  ]

  host_of-upsert_then :
      (json : Json) (path prefix fresh : String) (t : Target) (c : Core)
      → host_of (upsert_then json path prefix fresh t c next).1.world ≡ host_of c.world
  unfolding upsert_then
  host_of-upsert_then json path prefix fresh t c =
      host_of-after_upsert prefix (upsert json path fresh t c.world).0
        (upsert json path fresh t c.world).1 c.manager
      ∙ host_of-upsert json path fresh t c.world

module _ (json : Json) (path : String) where
  host_of-save_target :
      (fresh : String) (o : Option Target) (c : Core)
      → host_of (save_target json path fresh o c).1.world ≡ host_of c.world
  unfolding save_target
  host_of-save_target fresh none c = refl
  host_of-save_target fresh (some t) c =
      host_of-upsert_then (λ s c'. (ok (one_target s), c')) (λ s c'. refl) json path "" fresh t c

  host_of-import_loop :
      (fresh : ℕ → String) (i : ℕ) (out ts : List Target) (c : Core)
      → host_of (import_loop json path fresh i out ts c).1.world ≡ host_of c.world
  unfolding import_loop
  host_of-import_loop fresh i out [] c = refl
  host_of-import_loop fresh i out (t ∷ ts) c =
      host_of-upsert_then (λ s c'. import_loop json path fresh (i + 1) (out ++ (s ∷ [])) ts c')
        (λ s c'. host_of-import_loop fresh (i + 1) (out ++ (s ∷ [])) ts c') json path
        (str_append (str_append "target " t.name) ": ") (fresh i) t c

  host_of-import_targets :
      (fresh : ℕ → String) (o : Option (List Target)) (c : Core)
      → host_of (import_targets json path fresh o c).1.world ≡ host_of c.world
  unfolding import_targets
  host_of-import_targets fresh none c = refl
  host_of-import_targets fresh (some ts) c = host_of-import_loop fresh 0 [] ts c

  host_of-delete_target :
      (id : String) (c : Core) → host_of (delete_target json path id c).1.world ≡ host_of c.world
  unfolding delete_target
  host_of-delete_target id c = elim (Option-cases (stop id c.manager)) [
    | inl panics ↦ rw (panics, delete_target) refl
    | inr (m', e) ↦ rw (e, delete_target) (host_of-delete json path id c.world)
  ]

  module _ (codec : Codec) (fresh : ℕ → String) (body : String) (c : Core) where
    pub host_of-handle_targets :
        (method : Method)
        → host_of (handle_targets json path codec fresh method body c).1.world ≡ host_of c.world
    unfolding handle_targets
    host_of-handle_targets method_post = host_of-save_target (fresh 0) (codec.target body) c
    host_of-handle_targets method_get = refl
    host_of-handle_targets method_put = refl
    host_of-handle_targets method_delete = refl
    host_of-handle_targets other_method = refl

    host_of-handle_import :
        (method : Method)
        → host_of (handle_import json path codec fresh method body c).1.world ≡ host_of c.world
    unfolding handle_import
    host_of-handle_import method_post = host_of-import_targets fresh (codec.targets body) c
    host_of-handle_import method_get = refl
    host_of-handle_import method_put = refl
    host_of-handle_import method_delete = refl
    host_of-handle_import other_method = refl

    host_of-handle_one :
        (id : String) (method : Method)
        → host_of (handle_one json path codec fresh id method body c).1.world ≡ host_of c.world
    unfolding handle_one
    host_of-handle_one id method_put =
        host_of-save_target (fresh 0) (with_path_id id (codec.target body)) c
    host_of-handle_one id method_delete = host_of-delete_target id c
    host_of-handle_one id method_get = refl
    host_of-handle_one id method_post = refl
    host_of-handle_one id other_method = refl

    pub host_of-handle_target :
        (method : Method) (url_path : String)
        → host_of (handle_target json path codec fresh method url_path body c).1.world
          ≡ host_of c.world
    unfolding handle_target
    host_of-handle_target method url_path =
        elim (Bool-cases (str_eq (trim_prefix "/api/targets/" url_path) "import")) [
          | inl bulk ↦ rw bulk (host_of-handle_import method)
          | inr one ↦ elim (Bool-cases (str_eq (trim_prefix "/api/targets/" url_path) "")) [
            | inl empty ↦ rw (one, empty) refl
            | inr named ↦
                rw (one, named) (host_of-handle_one (trim_prefix "/api/targets/" url_path) method)
          ]
        ]
