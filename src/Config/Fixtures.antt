-- ===== src/Config/Fixtures.antt =====
-- A small configuration for the tests, with an encoding that can write it and a disk that works.
use mcmon.Prelude.{
  ◌≡◌, refl, ap, sym, ◌∙◌, String, pos, ℤ_discrete, false, Option, none, some, [], ◌∷◌, is_blank,
  str_eq, Bool-cases, inl, inr, eq_iff,
}
use mcmon.Config.Target.{SimpleMonitor, ProbeMonitor, Target, validate}
use mcmon.Config.Disk.{Bytes, succeeds, Disk, fate_of, put_file, atomic_write_file}
use mcmon.Config.Targets.{put_target}
use mcmon.Config.Store.{
  Config, Json, World, Reply, saved, with_id, set_targets, persist, write_config, upsert,
}
use mcmon.Config.Store.Edits.{stored, upsert-valid}
use mcmon.Config.Store.Restart.{IsSound, ReadsBack}

-- A target as an old configuration file writes it.
abbrev pub simple_unset : SimpleMonitor
simple_unset = record { enabled = false; interval_sec = pos 0 }

abbrev pub probe_unset : ProbeMonitor
probe_unset = record {
  enabled = false;
  interval_sec = pos 0;
  probes_per_burst = pos 0;
  probe_gap_ms = pos 0;
  protocol_version = pos 0;
}

abbrev pub legacy : Target
legacy = record {
  id = "legacy";
  name = "Legacy";
  host = "mc.example.com";
  port = pos 25565;
  timeout_ms = pos 1200;
  monitors = record {
    online = simple_unset;
    players = simple_unset;
    latency = probe_unset;
    loss = probe_unset;
  };
  interval_sec = pos 45;
  probes_per_burst = pos 3;
  probe_gap_ms = pos 250;
  protocol_version = pos 760;
}

pub legacy_valid : validate legacy ≡ none
unfolding validate is_blank
legacy_valid = refl

abbrev pub quiet : Disk
quiet = record { content = λ p. none; fates = [] }

String-discrete : Discrete String
String-discrete a b = elim (Bool-cases (str_eq a b)) [
  | inl same ↦ yes ((eq_iff a b).0 same)
  | inr other ↦ no (λ p. cc (other, (eq_iff a b).1 p))
]

pub Config-discrete : Discrete Config
Config-discrete = hlevel (String-discrete, ℤ_discrete)

-- The configuration with one target, and an encoding that can write this configuration only.
abbrev pub empty_config : Config
empty_config = record {
  listen_addr = "";
  db_path = "";
  remote_host = "";
  remote_username = "";
  remote_session_token = "";
  targets = [];
}

abbrev pub with_legacy : Config
with_legacy = set_targets (put_target (stored "fresh" legacy) []) empty_config

pub if_legacy : {cfg : Config} → Dec (cfg ≡ with_legacy) → Option Bytes
if_legacy (yes p) = some (1 ∷ [])
if_legacy (no p) = none

if_legacy-some :
    {cfg : Config} (d : Dec (cfg ≡ with_legacy)) (b : Bytes)
    → if_legacy d ≡ some b
    → cfg ≡ with_legacy
unfolding if_legacy
if_legacy-some (yes p) b h = p
if_legacy-some (no p) b h = cc

if_legacy_self : (d : Dec (with_legacy ≡ with_legacy)) → if_legacy d ≡ some (1 ∷ [])
unfolding if_legacy
if_legacy_self (yes p) = refl
if_legacy_self (no p) = absurd (p refl)

abbrev pub one_json : Json
one_json = record {
  marshal = λ cfg. if_legacy (Config-discrete cfg with_legacy);
  unmarshal = λ b. some with_legacy;
}

pub one_json-ReadsBack : ReadsBack one_json
one_json-ReadsBack = record {
  unmarshal-marshal =
      λ cfg b h. ap some (sym (if_legacy-some (Config-discrete cfg with_legacy) b h));
}

abbrev pub empty_world : World
empty_world = record { cfg = empty_config; disk = quiet }

pub empty_world-IsSound : IsSound empty_world.cfg.targets
empty_world-IsSound = record { unique = tt; kept = tt }

abbrev pub legacy_world : World
legacy_world = (upsert one_json "config.json" "fresh" legacy empty_world).1

pub legacy_saved :
    (upsert one_json "config.json" "fresh" legacy empty_world).0 ≡ saved (stored "fresh" legacy)
unfolding persist write_config atomic_write_file put_file with_id
legacy_saved =
    rw (upsert-valid one_json "config.json" "fresh" legacy empty_world legacy_valid)
      (rw (if_legacy_self (Config-discrete with_legacy with_legacy), write_config))

pub readable : fate_of legacy_world.disk.fates ≡ succeeds
unfolding persist write_config atomic_write_file put_file with_id
readable =
    ap (λ (o : Reply Target × World). fate_of o.1.disk.fates)
      (upsert-valid one_json "config.json" "fresh" legacy empty_world legacy_valid)
    ∙ rw (if_legacy_self (Config-discrete with_legacy with_legacy), write_config)

pub fresh_named : is_blank "fresh" ≡ false
unfolding is_blank
fresh_named = refl
