-- ===== src/Runtime/Examples.antt =====
-- A process that starts with the configuration that the last one left, and the theorem at it.
use mcmon.Prelude.{◌≡◌, refl, some}
use mcmon.Config.Fixtures.{
  legacy, one_json, one_json-ReadsBack, empty_world, empty_world-IsSound, legacy_world,
  legacy_saved, readable, fresh_named,
}
use mcmon.Config.Store.Edits.{stored}
use mcmon.Storage.Query.{open_store}
use mcmon.Storage.OneRow.{one_row, no_rows, Tables}
use mcmon.Server.Api.InStep.{IsInStep}
use mcmon.Runtime.{Runtime, runs, open_database, new_runtime}
use mcmon.Runtime.Laws.{new_runtime-upsert}

opens : open_database one_row (λ path. some no_rows) legacy_world.cfg.db_path ≡ some no_rows
unfolding open_database open_store
opens = refl

new_runtime-upsert_example :
    (rt : Runtime Tables) × (new_runtime one_row
        (λ path. some no_rows)
        one_json
        "config.json"
        (λ i. "new")
        legacy_world.disk
      ≡ runs rt)
    × (rt.core.world.cfg ≡ legacy_world.cfg)
    × IsInStep rt.core
new_runtime-upsert_example =
    new_runtime-upsert one_row (λ path. some no_rows) one_json "config.json" (λ i. "new")
      one_json-ReadsBack "fresh" legacy (stored "fresh" legacy) empty_world no_rows
      empty_world-IsSound fresh_named legacy_saved readable opens
