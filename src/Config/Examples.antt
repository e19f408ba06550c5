-- ===== src/Config/Examples.antt =====
-- Runs of internal/app/config.go on a small configuration, and its theorems at concrete inputs.
use mcmon.Prelude.{
  ◌≡◌, refl, ◌⊎◌, String, pos, true, false, none, some, [], ◌∷◌, str_eq, if◌then◌else◌,
}
use mcmon.Config.Target.{
  Target, has_explicit_monitors, normalized, normalized_monitors, own_defaults, simple_defaults,
  probe_defaults, all_enabled, unless_positive, unless_natural, unless_set,
}
use mcmon.Config.Target.Normal.{IsNormal, normalized-IsNormal}
use mcmon.Config.Target.Flags.{SameFlags, AllEnabled, SomeGiven, NoneGiven, normalized-SameFlags}
use mcmon.Config.Disk.{crashes, Disk, done, crashed, passed, put_file, atomic_write_file}
use mcmon.Config.Disk.Atomic.{Survives, atomic_write_file-Survives}
use mcmon.Config.Targets.Laws.{IsUnique}
use mcmon.Config.Store.{World, saved, set_targets, upsert, delete, get, open_config_store}
use mcmon.Config.Store.Persist.{Persisted}
use mcmon.Config.Store.Edits.{stored, get-upsert, get-delete}
use mcmon.Config.Store.Restart.{IsSound, upsert-IsSound, open_config_store-upsert}
use mcmon.Config.Fixtures.{
  legacy, legacy_valid, quiet, empty_config, one_json, one_json-ReadsBack, empty_world,
  empty_world-IsSound, legacy_world, legacy_saved, readable, fresh_named,
}

legacy_enabled : (normalized legacy).monitors.latency ≡ record {
  enabled = true;
  interval_sec = pos 45;
  probes_per_burst = pos 3;
  probe_gap_ms = pos 250;
  protocol_version = pos 760;
}
unfolding normalized normalized_monitors own_defaults simple_defaults probe_defaults all_enabled
    unless_positive unless_natural unless_set has_explicit_monitors
legacy_enabled = refl

normalized-IsNormal_example : IsNormal (normalized legacy)
normalized-IsNormal_example = normalized-IsNormal legacy

normalized-SameFlags_example :
    (SomeGiven legacy.monitors × SameFlags (normalized legacy).monitors legacy.monitors)
    ⊎ (NoneGiven legacy.monitors × AllEnabled (normalized legacy).monitors)
normalized-SameFlags_example = normalized-SameFlags legacy

-- A disk with an old configuration file, on which the process stops in the middle of the first write.
abbrev stopping : Disk
stopping = record {
  content = λ p. if str_eq p "config.json" then some (1 ∷ []) else none;
  fates = crashes 1 ∷ [];
}

stops : (atomic_write_file "config.json" (7 ∷ 8 ∷ []) stopping).0 ≡ crashed
unfolding atomic_write_file
stops = refl

partial_tmp :
    (atomic_write_file "config.json" (7 ∷ 8 ∷ []) stopping).1.content "config.json.tmp"
    ≡ some (7 ∷ [])
unfolding atomic_write_file put_file
partial_tmp = refl

atomic_write_file-Survives_example :
    Survives
      (atomic_write_file "config.json" (7 ∷ 8 ∷ []) stopping).0
      (some (1 ∷ []))
      (7 ∷ 8 ∷ [])
      ((atomic_write_file "config.json" (7 ∷ 8 ∷ []) stopping).1.content "config.json")
atomic_write_file-Survives_example = atomic_write_file-Survives "config.json" (7 ∷ 8 ∷ []) stopping

open_config_store-upsert_example :
    open_config_store one_json "config.json" (λ i. "new") legacy_world.disk
    ≡ (done legacy_world.cfg, passed legacy_world.disk)
open_config_store-upsert_example =
    open_config_store-upsert one_json one_json-ReadsBack "config.json" "fresh" (λ i. "new") legacy
      (stored "fresh" legacy) empty_world empty_world-IsSound fresh_named legacy_saved readable

upsert-IsSound_example : IsSound legacy_world.cfg.targets
upsert-IsSound_example =
    upsert-IsSound one_json "config.json" empty_world empty_world-IsSound "fresh" legacy fresh_named

get-upsert_example :
    ((j : String)
      → get j legacy_world ≡ (
          if str_eq (stored "fresh" legacy).id j
          then some (stored "fresh" legacy)
          else get j empty_world))
    × Persisted one_json "config.json"
        (upsert one_json "config.json" "fresh" legacy empty_world).0
        quiet
        legacy_world.cfg
        legacy_world.disk
get-upsert_example = get-upsert one_json "config.json" "fresh" legacy empty_world legacy_valid

abbrev holding : World
holding = record { cfg = set_targets (legacy ∷ []) empty_config; disk = quiet }

holding-IsUnique : IsUnique holding.cfg.targets
unfolding set_targets
holding-IsUnique = (tt, tt)

get-delete_example :
    ((get "legacy" holding ≡ none)
      × (delete one_json "config.json" "legacy" holding ≡ (saved false, holding)))
    ⊎ (((t : Target) × (get "legacy" holding ≡ some t))
        × ((j : String)
            → get j (delete one_json "config.json" "legacy" holding).1
              ≡ (if str_eq "legacy" j then none else get j holding))
        × Persisted one_json "config.json"
            (delete one_json "config.json" "legacy" holding).0
            quiet
            (delete one_json "config.json" "legacy" holding).1.cfg
            (delete one_json "config.json" "legacy" holding).1.disk)
get-delete_example = get-delete one_json "config.json" "legacy" holding holding-IsUnique
