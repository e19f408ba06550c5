-- ===== src/Config/Store.antt =====
-- Config, ConfigStore and their persistence, of internal/app/config.go. encoding/json is the
-- argument `json`; a random id of generateID is an argument too.
pub mod Persist
pub mod Edits
pub mod Restart
pub mod Replies
use mcmon.Prelude.{
  ℕ, suc, ◌+◌, String, ℤ, pos, Bool, true, false, Option, none, some, List, [], ◌∷◌, is_blank,
  if◌then◌else◌, ◌||◌,
}
use mcmon.Config.Target.{
  Target, Monitors, SimpleMonitor, ProbeMonitor, Invalid, default_protocol_version, normalized,
  validate,
}
use mcmon.Config.Targets.{find_target, put_target, cut_target}
use mcmon.Config.Disk.{
  Bytes, Disk, Done, done, failed, crashed, Io, handle, fate_of, passed, Fate, succeeds, refused,
  fails, crashes, atomic_write_file, return_error,
}

pub record Config : Type 0 where
  pub listen_addr : String
  pub db_path : String
  pub remote_host : String
  pub remote_username : String
  pub remote_session_token : String
  pub targets : List Target

-- `json.MarshalIndent` and `json.Unmarshal` at a Config; `none` is their error.
pub record Json : Type 0 where
  pub marshal : Config → Option Bytes
  pub unmarshal : Bytes → Option Config

abbrev simple_on : SimpleMonitor
simple_on = record { enabled = true; interval_sec = pos 60 }

abbrev probe_on : ProbeMonitor
probe_on = record {
  enabled = true;
  interval_sec = pos 60;
  probes_per_burst = pos 5;
  probe_gap_ms = pos 1500;
  protocol_version = default_protocol_version;
}

unfoldable pub default_config : Config
default_config = record {
  listen_addr = "127.0.0.1:8090";
  db_path = "mcmon.db";
  remote_host = "";
  remote_username = "";
  remote_session_token = "";
  targets =
      record {
        id = "example";
        name = "Example Server";
        host = "mc.example.com";
        port = pos 25565;
        timeout_ms = pos 1500;
        monitors = record {
          online = simple_on;
          players = simple_on;
          latency = probe_on;
          loss = probe_on;
        };
        interval_sec = pos 60;
        probes_per_burst = pos 5;
        probe_gap_ms = pos 1500;
        protocol_version = default_protocol_version;
      }
      ∷ [];
}

-- What `os.ReadFile` gives: `missing` is the error of os.IsNotExist.
pub data ReadResult : Type 0 where
  got : Bytes → ReadResult
  missing : ReadResult

unfoldable pub read_file : String → Io ReadResult
read_file path d = elim (fate_of d.fates) [
  | succeeds ↦ elim (d.content path) [
    | none ↦ (done missing, passed d)
    | some bytes ↦ (done (got bytes), passed d)
  ]
  | refused ↦ (failed, passed d)
  | fails n ↦ (failed, passed d)
  | crashes n ↦ (crashed, passed d)
]

-- A ConfigStore beside the disk that it writes to. Each method holds the mutex throughout, so it is
-- one step. The path never changes, and stands as an argument.
pub record World : Type 0 where
  pub cfg : Config
  pub disk : Disk

-- How a method ends: with a value, with an error, or with the process.
pub data Reply {ℓ} (A : Type ℓ) : Type ℓ where
  saved : A → Reply A
  rejected : Invalid → Reply A
  not_written : Reply A
  stopped : Reply A

abbrev pub reply_of {ℓ κ} : {A : Type ℓ} {B : Type κ} → B → Done A → Reply B
reply_of b (done a) = saved b
reply_of b failed = not_written
reply_of b crashed = stopped

unfoldable pub with_id : String → Target → Target
with_id fresh t = if is_blank t.id then record t { id = fresh } else t

unfoldable pub set_targets : List Target → Config → Config
set_targets ts cfg = record cfg { targets = ts }

module _ (json : Json) (path : String) where
  unfoldable pub write_config : Config → Io (Unit {0})
  write_config cfg d = elim (json.marshal cfg) [
    | none ↦ (failed, d)
    | some bytes ↦ atomic_write_file path bytes d
  ]

  -- `return …, writeConfig(c.path, c.cfg)` once the configuration in memory is `cfg`.
  unfoldable pub persist {ℓ} : {B : Type ℓ} → B → Config → Disk → Reply B × World
  persist b cfg d =
      let (r, d') = write_config cfg d in (reply_of b r, record { cfg = cfg; disk = d' })

  -- Upsert. The change of `c.cfg` stays, whatever becomes of the write.
  unfoldable pub upsert : String → Target → World → Reply Target × World
  upsert fresh t w = elim (validate t) [
    | some e ↦ (rejected e, w)
    | none ↦
        let t' = with_id fresh (normalized t) in
        persist t' (set_targets (put_target t' w.cfg.targets) w.cfg) w.disk
  ]

  -- Delete; `saved false` is "not found".
  unfoldable pub delete : String → World → Reply Bool × World
  delete id w = elim (cut_target id w.cfg.targets) [
    | none ↦ (saved false, w)
    | some rest ↦ persist true (set_targets rest w.cfg) w.disk
  ]

  -- SetRemoteConfig.
  unfoldable pub set_remote_config : String → String → String → World → Reply (Unit {0}) × World
  set_remote_config host_url username session_token w =
      persist tt
        (record (w.cfg) {
          remote_host = host_url;
          remote_username = username;
          remote_session_token = session_token;
        })
        w.disk

  -- loadConfig: a missing file is created with the defaults.
  unfoldable pub load_config : Io Config
  load_config d =
      handle (read_file path d)
        (λ r d'. elim r [
          | missing ↦
              handle (write_config default_config d') (λ _ d''. (done default_config, d''))
                return_error
          | got bytes ↦ elim (json.unmarshal bytes) [
            | none ↦ (failed, d')
            | some cfg ↦ (done cfg, d')
          ]
        ])
        return_error

-- The loop of openConfigStore: `fresh i` is what generateID gives at index `i`, if it is called
-- there. The flag is `dirty`.
unfoldable pub open_targets : (ℕ → String) → ℕ → List Target → List Target × Bool
open_targets fresh i [] = ([], false)
open_targets fresh i (t ∷ ts) =
    let t' = normalized t in
    let (ts', dirty) = open_targets fresh (i + 1) ts in
    (with_id (fresh i) t' ∷ ts', is_blank t'.id || dirty)

-- openConfigStore; the error of writing back new ids is dropped.
unfoldable pub open_config_store : Json → String → (ℕ → String) → Io Config
unfolding open_targets
open_config_store json path fresh d =
    handle (load_config json path d)
      (λ cfg d'.
        let (ts, dirty) = open_targets fresh 0 cfg.targets in
        let cfg' = set_targets ts cfg in
        if dirty
        then handle (write_config json path cfg' d') (λ _ d''. (done cfg', d''))
            (λ d''. (done cfg', d''))
        else (done cfg', d'))
      return_error

-- Get, Targets and RemoteConfig read the configuration in memory. Snapshot copies the list, so what
-- it returns does not change with the store, as no value here does.
unfoldable pub get : String → World → Option Target
get id w = find_target id w.cfg.targets

abbrev pub snapshot : World → Config
snapshot w = w.cfg

abbrev pub targets : World → List Target
targets w = (snapshot w).targets

abbrev pub remote_config : World → String × String × String
remote_config w = (w.cfg.remote_host, w.cfg.remote_username, w.cfg.remote_session_token)
