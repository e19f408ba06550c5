-- ===== src/Runtime/Laws.antt =====
-- A new Runtime monitors the stored targets.
use mcmon.Prelude.{ℕ, ◌≡◌, refl, String, Option, none, some, false, is_blank, All-weaken}
use mcmon.Config.Target.{Target}
use mcmon.Config.Disk.{Disk, done, succeeds, fate_of, passed}
use mcmon.Config.Targets.{find_target}
use mcmon.Config.Store.{Config, Json, World, saved, upsert, open_config_store, get, targets}
use mcmon.Config.Store.Restart.{
  IsKept, IsSound, ReadsBack, upsert-IsSound, open_config_store-upsert,
}
use mcmon.Prober.Manager.{Manager, new_manager, sync}
use mcmon.Prober.Manager.Serving.{IsServing-same, new_manager-IsServing}
use mcmon.Prober.Manager.Serving.Sync.{first_of, sync-IsServing}
use mcmon.Storage.Query.{Sqlite}
use mcmon.Server.Api.InStep.{IsInStep}
use mcmon.Runtime.{Runtime, runs, open_database, sync_runtime, boot, new_runtime}

first_of-none : (o : Option Target) → first_of o none ≡ o
first_of-none none = refl
first_of-none (some t) = refl

-- Sync of a new Manager with the targets of a sound configuration.
synced :
    (w : World)
    → IsSound w.cfg.targets
    → (m : Manager) × (sync (targets w) new_manager ≡ some m)
      × IsInStep (record { world = w; manager = m })
synced w sound =
    let (m, e, s) =
      sync-IsServing w.cfg.targets new_manager (λ id. none) sound.unique
        (All-weaken _ _ w.cfg.targets (λ t (k : IsKept t). k.normal) sound.kept)
        new_manager-IsServing in
    (
      m,
      e,
      record {
        sound = sound;
        serving =
            IsServing-same m (λ id. first_of (find_target id w.cfg.targets) none) (λ id. get id w)
              (λ id. unfold get in first_of-none (find_target id w.cfg.targets)) s;
      },
    )

module _ (sql : Sqlite) (connect : String → Option sql.Db) (json : Json) (config_path : String)
    (fresh : ℕ → String) where
  -- Where the configuration that openConfigStore returns is sound and its database opens, NewRuntime returns
  -- a Runtime with this configuration, in which exactly the loops of the stored targets run.
  pub new_runtime-IsInStep :
      (cfg : Config) (d d' : Disk) (db : sql.Db)
      → open_config_store json config_path fresh d ≡ (done cfg, d')
      → IsSound cfg.targets
      → open_database sql connect cfg.db_path ≡ some db
      → (m : Manager) × (new_runtime sql connect json config_path fresh d
          ≡ runs (record {
            core = record { world = record { cfg = cfg; disk = d' }; manager = m };
            db = db;
          }))
        × IsInStep (record { world = record { cfg = cfg; disk = d' }; manager = m })
  unfolding new_runtime boot sync_runtime
  new_runtime-IsInStep cfg d d' db opened sound there =
      let (m, e, in_step) = synced (record { cfg = cfg; disk = d' }) sound in
      (m, rw (opened, boot, there, sync_runtime, e) refl, in_step)

  -- After an Upsert that returned its target, a new process that can read the file and open the database
  -- runs with the configuration that the Upsert left in memory, and exactly the loops of its targets run;
  -- the store must hold sound targets before, generateID must give an id that is not blank, and
  -- encoding/json must read back what it wrote.
  pub new_runtime-upsert :
      ReadsBack json
      → (new_id : String) (t t' : Target) (w : World) (db : sql.Db) → IsSound w.cfg.targets
      → is_blank new_id ≡ false
      → (upsert json config_path new_id t w).0 ≡ saved t'
      → fate_of (upsert json config_path new_id t w).1.disk.fates ≡ succeeds
      → open_database sql connect (upsert json config_path new_id t w).1.cfg.db_path ≡ some db
      → (rt : Runtime sql.Db) × (new_runtime sql connect json config_path fresh
            (upsert json config_path new_id t w).1.disk
          ≡ runs rt)
        × (rt.core.world.cfg ≡ (upsert json config_path new_id t w).1.cfg)
        × IsInStep rt.core
  new_runtime-upsert reads new_id t t' w db sound named ok readable there =
      let w' = (upsert json config_path new_id t w).1 in
      let opened =
        open_config_store-upsert json reads config_path new_id fresh t t' w sound named ok
          readable in
      let (m, e, in_step) =
        new_runtime-IsInStep w'.cfg w'.disk (passed w'.disk) db opened
          (upsert-IsSound json config_path w sound new_id t named) there in
      (
        record {
          core = record { world = record { cfg = w'.cfg; disk = passed w'.disk }; manager = m };
          db = db;
        },
        e,
        refl,
        in_step,
      )
