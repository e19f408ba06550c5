-- ===== src/Config/Store/Restart.antt =====
-- Edits survive a restart: every method keeps a configuration that openConfigStore reads back as it
-- stands.
use mcmon.Prelude.{
  ℕ, ◌+◌, ◌≡◌, refl, inl, inr, String, false, some, List, [], ◌∷◌, is_blank, Bool-cases,
  Option-cases, All,
}
use mcmon.Config.Target.{Target, normalized, validate}
use mcmon.Config.Target.Normal.{IsNormal, normalized-IsNormal, normalized_self}
use mcmon.Config.Targets.{cut_target}
use mcmon.Config.Targets.Laws.{
  IsUnique, put_target-IsUnique, All-put_target, All-cut_target, cut_target-UniqueCut,
}
use mcmon.Config.Disk.{Bytes, Disk, done, fate_of, succeeds, passed}
use mcmon.Config.Store.{
  Config, Json, World, saved, with_id, set_targets, persist, upsert, delete, read_file, got,
  load_config, open_targets, open_config_store,
}
use mcmon.Config.Store.Persist.{Holds}
use mcmon.Config.Store.Edits.{
  stored, get-upsert, upsert-valid, upsert_rejected, delete-some, delete-none,
}

-- A target as the store keeps it: nothing left to fill in, and an id.
pub record IsKept (t : Target) : Type 0 where
  pub normal : IsNormal t
  pub named : is_blank t.id ≡ false

pub record IsSound (ts : List Target) : Type 0 where
  pub unique : IsUnique ts
  pub kept : All IsKept ts

renamed-IsNormal : (id : String) (t : Target) → IsNormal t → IsNormal (record t { id = id })
renamed-IsNormal id t n = record {
  interval = n.interval;
  timeout = n.timeout;
  burst = n.burst;
  gap = n.gap;
  proto = n.proto;
  online = n.online;
  players = n.players;
  latency = record {
    interval = n.latency.interval;
    burst = n.latency.burst;
    gap = n.latency.gap;
    proto = n.latency.proto;
  };
  loss = record {
    interval = n.loss.interval;
    burst = n.loss.burst;
    gap = n.loss.gap;
    proto = n.loss.proto;
  };
}

pub with_id-IsKept :
    (fresh : String) (t : Target) → is_blank fresh ≡ false → IsNormal t → IsKept (with_id fresh t)
unfolding with_id
with_id-IsKept fresh t h n = elim (Bool-cases (is_blank t.id)) [
  | inl blank ↦ rw blank (record { normal = renamed-IsNormal fresh t n; named = h })
  | inr named ↦ rw named (record { normal = n; named = named })
]

with_id_self : (fresh : String) (t : Target) → is_blank t.id ≡ false → with_id fresh t ≡ t
unfolding with_id
with_id_self fresh t h = rw h

module _ (json : Json) (path : String) (w : World) (sound : IsSound w.cfg.targets) where
  -- Upsert keeps the ids unique and not blank, and every target normal, whether it accepts or refuses the
  -- target and whether or not the file can be written, if generateID gives an id that is not blank.
  pub upsert-IsSound :
      (fresh : String) (t : Target)
      → is_blank fresh ≡ false
      → IsSound (upsert json path fresh t w).1.cfg.targets
  upsert-IsSound fresh t h = elim (Option-cases (validate t)) [
    | inr (e, refused) ↦ rw (upsert_rejected json path fresh t w e refused) sound
    | inl valid ↦ rw (upsert-valid json path fresh t w valid) (
        unfold persist set_targets in
        record {
          unique = put_target-IsUnique (stored fresh t) w.cfg.targets sound.unique;
          kept =
              All-put_target IsKept (stored fresh t) w.cfg.targets
                (with_id-IsKept fresh (normalized t) h (normalized-IsNormal t)) sound.kept;
        })
  ]

  -- So does Delete.
  pub delete-IsSound : (id : String) → IsSound (delete json path id w).1.cfg.targets
  delete-IsSound id = elim (Option-cases (cut_target id w.cfg.targets)) [
    | inl absent ↦ rw (delete-none json path id w absent) sound
    | inr (rest, e) ↦ rw (delete-some json path id w e) (
        unfold persist set_targets in
        record {
          unique = rw e at (cut_target-UniqueCut id w.cfg.targets sound.unique);
          kept = rw e at (All-cut_target IsKept id w.cfg.targets sound.kept);
        })
  ]

open_targets_self :
    (fresh : ℕ → String) (i : ℕ) (ts : List Target)
    → All IsKept ts
    → open_targets fresh i ts ≡ (ts, false)
unfolding open_targets
open_targets_self fresh i [] h = refl
open_targets_self fresh i (t ∷ ts) (k, h) = rw (
  normalized_self t k.normal,
  open_targets_self fresh (i + 1) ts h,
  k.named,
  with_id_self (fresh i) t k.named,
)

-- What encoding/json is relied on for: it reads back what it wrote.
pub record ReadsBack (json : Json) : Type 0 where
  pub unmarshal-marshal :
      (cfg : Config) (b : Bytes) → json.marshal cfg ≡ some b → json.unmarshal b ≡ some cfg

module _ (json : Json) (reads : ReadsBack json) (path : String) where
  read_file-got :
      (d : Disk) {b : Bytes}
      → fate_of d.fates ≡ succeeds
      → d.content path ≡ some b
      → read_file path d ≡ (done (got b), passed d)
  unfolding read_file
  read_file-got d h there = rw (h, there, read_file)

  load_config-Holds :
      (cfg : Config) (d : Disk)
      → fate_of d.fates ≡ succeeds
      → Holds json path cfg d
      → load_config json path d ≡ (done cfg, passed d)
  unfolding load_config
  load_config-Holds cfg d h (b, written, there) =
      rw (read_file-got d h there, reads.unmarshal-marshal cfg b written, load_config)

  -- Where the file holds a sound configuration and can be read, a new process starts with exactly
  -- that configuration, whatever ids generateID would give, and writes nothing.
  pub open_config_store-Holds :
      (fresh : ℕ → String) (cfg : Config) (d : Disk)
      → fate_of d.fates ≡ succeeds
      → Holds json path cfg d
      → All IsKept cfg.targets
      → open_config_store json path fresh d ≡ (done cfg, passed d)
  unfolding open_config_store set_targets
  open_config_store-Holds fresh cfg d h holds kept = rw (
    load_config-Holds cfg d h holds,
    open_targets_self fresh 0 cfg.targets kept,
    open_config_store,
  )

  -- An Upsert that returns its target is not lost: from a store with sound targets, and with an id of
  -- generateID that is not blank, a new process that can read the file starts with the configuration
  -- that the Upsert left in memory, ids included, and writes nothing, if encoding/json reads back what
  -- it wrote.
  pub open_config_store-upsert :
      (fresh : String) (ids : ℕ → String) (t t' : Target) (w : World)
      → IsSound w.cfg.targets
      → is_blank fresh ≡ false
      → (upsert json path fresh t w).0 ≡ saved t'
      → fate_of (upsert json path fresh t w).1.disk.fates ≡ succeeds
      → open_config_store json path ids (upsert json path fresh t w).1.disk
        ≡ (done (upsert json path fresh t w).1.cfg, passed (upsert json path fresh t w).1.disk)
  open_config_store-upsert fresh ids t t' w sound named ok readable =
      elim (Option-cases (validate t)) [
        | inr (e, refused) ↦ cc (upsert_rejected json path fresh t w e refused, ok)
        | inl valid ↦
            open_config_store-Holds ids (upsert json path fresh t w).1.cfg
              (upsert json path fresh t w).1.disk readable
              (rw ok at (get-upsert json path fresh t w valid).1)
              (upsert-IsSound json path w sound fresh t named).kept
      ]
