-- ===== src/Runtime.antt =====
-- NewRuntime and RunServer of internal/app/runtime.go: the parts put together. The handle of sql.Open and
-- the listener of net/http are arguments.
pub mod Laws
mod Examples
use mcmon.Prelude.{ℕ, String, Option, none, some}
use mcmon.Config.Disk.{Disk, Done, done, failed, crashed, passed}
use mcmon.Config.Store.{Config, Json, World, open_config_store, targets}
use mcmon.Prober.Manager.{Manager, new_manager, sync}
use mcmon.Storage.Query.{Sqlite, open_store}
use mcmon.Server.Api.{Core}

-- A Runtime: the configuration with its disk and the Manager, and the database.
pub record Runtime (Db : Type 0) : Type 0 where
  pub core : Core
  pub db : Db

-- How NewRuntime ends: with a Runtime, with an error, with the process while it writes a file, or with a
-- panic.
pub data Booted (Db : Type 0) : Type 0 where
  runs : Runtime Db → Booted Db
  boot_error boot_stopped boot_panicked : Booted Db

-- How ListenAndServe ends: after Shutdown with http.ErrServerClosed, or with another error.
pub data Listening : Type 0 where
  server_closed listen_error : Listening

module _ (sql : Sqlite) (connect : String → Option sql.Db) where
  -- `store.Open(path)`, with `connect` for the handle of sql.Open.
  unfoldable pub open_database : String → Option sql.Db
  open_database path = elim (connect path) [ none ↦ none | some db ↦ open_store sql db ]

  -- NewRuntime once the configuration is there.
  unfoldable pub sync_runtime : Option sql.Db → World → Booted sql.Db
  sync_runtime none w = boot_error
  sync_runtime (some db) w = elim (sync (targets w) new_manager) [
    | none ↦ boot_panicked
    | some m ↦ runs (record { core = record { world = w; manager = m }; db = db })
  ]

  unfoldable pub boot : Done Config → Disk → Booted sql.Db
  boot (done cfg) d = sync_runtime (open_database cfg.db_path) (record { cfg = cfg; disk = d })
  boot failed d = boot_error
  boot crashed d = boot_stopped

  unfoldable pub new_runtime : Json → String → (ℕ → String) → Disk → Booted sql.Db
  new_runtime json config_path fresh d =
      let (r, d') = open_config_store json config_path fresh d in boot r d'

  -- RunServer: `listen` is what ListenAndServe comes to at an address. The result is its error, if any; a
  -- panic ends the process.
  unfoldable pub after_boot : (String → Listening) → Booted sql.Db → Done (Unit {0})
  after_boot listen (runs rt) = elim (listen rt.core.world.cfg.listen_addr) [
    | server_closed ↦ done tt
    | listen_error ↦ failed
  ]
  after_boot listen boot_error = failed
  after_boot listen boot_stopped = crashed
  after_boot listen boot_panicked = crashed

  unfoldable pub run_server :
      Json → (String → Listening) → String → (ℕ → String) → Disk → Done (Unit {0})
  run_server json listen config_path fresh d =
      after_boot listen (new_runtime json config_path fresh d)
