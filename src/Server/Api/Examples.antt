-- ===== src/Server/Api/Examples.antt =====
-- Requests to a server with one target, and the theorems on the handlers at them.
use mcmon.Prelude.{◌≡◌, refl, ap, none, some, is_blank}
use mcmon.Config.Fixtures.{legacy, one_json, empty_world, legacy_world, legacy_saved, fresh_named}
use mcmon.Config.Target.{Target, normalized, validate}
use mcmon.Config.Store.{Json, World, Reply, not_written, persist, write_config, upsert, delete, get}
use mcmon.Config.Store.Edits.{upsert-valid}
use mcmon.Prober.Manager.{Manager}
use mcmon.Server.Fixtures.{net, url}
use mcmon.Server.Api.{method_post, one_target, write_error, ok, http_error}
use mcmon.Server.Api.Targets.{save_target, delete_target, after_delete}
use mcmon.Server.Api.Running.{
  IsRunning, save_target-saved, save_target-not_written, delete_target-ends,
}
use mcmon.Server.Api.Remote.{handle_remote_config, handle_login, handle_remote}
use mcmon.Server.Api.Remote.Safe.{IsCareful}
use mcmon.Server.Api.Remote.Relay.{remote-IsCareful}
use mcmon.Server.Api.Fixtures.{
  idle, idle-IsInStep, kept, busy, busy-IsInStep, codec, client, empty_world-IsRemoteSafe,
}

save_target-saved_example :
    (m : Manager) × (save_target one_json "config.json" "fresh" (some legacy) idle
      ≡ (ok (one_target kept), record { world = legacy_world; manager = m }))
    × IsRunning m kept.id (some kept)
    × (get kept.id legacy_world ≡ some kept)
save_target-saved_example =
    save_target-saved one_json "config.json" "fresh" legacy idle idle-IsInStep fresh_named kept
      legacy_saved

-- An encoding that always fails.
abbrev no_json : Json
no_json = record { marshal = λ cfg. none; unmarshal = λ b. none }

abbrev renamed : Target
renamed = record legacy { name = "Renamed" }

renamed_valid : validate renamed ≡ none
unfolding validate is_blank
renamed_valid = refl

renamed_lost : (upsert no_json "config.json" "fresh" renamed legacy_world).0 ≡ not_written
unfolding persist write_config
renamed_lost =
    ap (λ (o : Reply Target × World). o.0)
      (upsert-valid no_json "config.json" "fresh" renamed legacy_world renamed_valid)

save_target-not_written_example :
    (save_target no_json "config.json" "fresh" (some renamed) busy ≡ (
      http_error 400 (write_error ""),
      record busy { world = (upsert no_json "config.json" "fresh" renamed legacy_world).1 },
    ))
    × (get "legacy" (upsert no_json "config.json" "fresh" renamed legacy_world).1
        ≡ some (record (normalized renamed) {
          id = "legacy";
          name = "Renamed";
          host = renamed.host;
          port = renamed.port;
        }))
    × IsRunning busy.manager "legacy" (get "legacy" legacy_world)
unfolding is_blank
save_target-not_written_example =
    save_target-not_written no_json "config.json" "fresh" renamed busy busy-IsInStep fresh_named
      renamed_lost

delete_target-ends_example :
    (m : Manager) × (delete_target one_json "config.json" "legacy" busy ≡ (
      after_delete (delete one_json "config.json" "legacy" legacy_world).0,
      record { world = (delete one_json "config.json" "legacy" legacy_world).1; manager = m },
    ))
    × IsRunning m "legacy" none
    × (get "legacy" (delete one_json "config.json" "legacy" legacy_world).1 ≡ none)
delete_target-ends_example = delete_target-ends one_json "config.json" "legacy" busy busy-IsInStep

remote-IsCareful_example :
    IsCareful net url client empty_world
      (handle_remote_config one_json "config.json" net url codec method_post "{}" empty_world)
    × IsCareful net url client empty_world
        (handle_login one_json "config.json" net url codec client method_post "{}" empty_world)
    × IsCareful net url client empty_world
        (handle_remote net url client method_post "/api/remote/targets" "" empty_world)
remote-IsCareful_example =
    remote-IsCareful net url client one_json "config.json" codec empty_world
      empty_world-IsRemoteSafe "{}" method_post "/api/remote/targets" ""
