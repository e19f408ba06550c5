-- ===== src/Command/Desktop.antt =====
-- The command line and the configuration of the desktop program, of main_desktop.go. The window itself is the
-- Wails library's.

pub mod Laws
pub mod Main
use mcmon.Prelude.{
  not, ◌&&◌, leb_str, String, str_eq, Bool, true, false, Option, none, some, List, [], ◌∷◌,
  if◌then◌else◌,
}
use mcmon.Config.Disk.{
  Bytes, Disk, Done, done, failed, crashed, Io, handle, write_file, return_error,
}
use mcmon.Config.Store.{ReadResult, got, missing, read_file}
use mcmon.Service.System.{make_dirs}

-- What the packages os and path/filepath say; `none` is an error.
pub record Paths : Type 0 where
  pub user_config_dir : Option String
  pub join : String → String → String
  pub dir : String → String
  pub is_abs : String → Bool

pub data DesktopMode : Type 0 where
  window_mode serve_mode : DesktopMode

pub record DesktopCommand : Type 0 where
  pub mode : DesktopMode
  pub config_path : String

-- A JSON value, as encoding/json has it in an `any`. A number is kept as the text that encoding/json writes
-- of it, and a map as its fields in the order of their keys, in which encoding/json writes them, so that
-- each map has one representation (is_map).
mutual
  pub data Value : Type 0 where
    null : Value
    bool : Bool → Value
    number : String → Value
    text : String → Value
    array : Values → Value
    object : Fields → Value

  pub data Values : Type 0 where
    no_values : Values
    value : Value → Values → Values

  pub data Fields : Type 0 where
    no_fields : Fields
    field : String → Value → Fields → Fields

-- json.Unmarshal into a `map[string]any`, where `none` is its error, and a nil map is `some none`; and
-- json.MarshalIndent of such a map.
pub record Maps : Type 0 where
  pub unmarshal : Bytes → Option (Option Fields)
  pub marshal : Fields → Option Bytes

-- `raw[key]`, and `raw[key] = value`.
unfoldable pub lookup : String → Fields → Option Value
lookup key no_fields = none
lookup key (field k v fields) = if str_eq k key then some v else lookup key fields

unfoldable pub assign : String → Value → Fields → Fields
assign key new no_fields = field key new no_fields
assign key new (field k v fields) =
    let rest = assign key new fields in
    if str_eq k key
    then field key new fields
    else if leb_str key k
    then field key new (field k v fields)
    else field k v rest

-- `s, _ := v.(string)`.
unfoldable pub as_text : Option Value → String
as_text (some (text s)) = s
as_text _ = ""

-- Whether the fields are in the order of their keys, each key once, here and in the values.
abbrev pub starts_after : String → Fields → Bool
starts_after key no_fields = true
starts_after key (field k v rest) = not (leb_str k key)

unfoldable mutual
  pub is_json : Value → Bool
  is_json (array vs) = are_json vs
  is_json (object fields) = is_map fields
  is_json _ = true

  pub are_json : Values → Bool
  are_json no_values = true
  are_json (value v vs) = is_json v && are_json vs

  pub is_map : Fields → Bool
  is_map no_fields = true
  is_map (field k v fields) = is_json v && starts_after k fields && is_map fields

-- The map that writeDesktopConfig writes. A monitor has the field of its interval after `enabled`, and a
-- burst two more after that.
abbrev pub monitor : Fields → Value
monitor more = object (field "enabled" (bool true) (field "interval_sec" (number "60") more))

abbrev pub burst : Fields → Value
burst more =
    monitor (field "probe_gap_ms" (number "1500") (field "probes_per_burst" (number "5") more))

abbrev pub example_monitors : Fields
example_monitors = field "latency" (burst (field "protocol_version" (number "760") no_fields)) (
    field "loss" (burst no_fields)
      (field "online" (monitor no_fields) (field "players" (monitor no_fields) no_fields)))

abbrev pub example_target : Fields
example_target = field "host" (text "mc.example.com") (
    field "id" (text "example") (
      field "interval_sec" (number "60") (
        field "monitors" (object example_monitors) (
          field "name" (text "Example Server") (
            field "port" (number "25565") (
              field "probe_gap_ms" (number "1500") (
                field "probes_per_burst" (number "5") (
                  field "protocol_version" (number "760")
                    (field "timeout_ms" (number "1500") no_fields)))))))))

unfoldable pub desktop_defaults : String → Fields
desktop_defaults db_path = field "db_path" (text db_path) (
    field "listen_addr" (text "127.0.0.1:8090")
      (field "targets" (array (value (object example_target) no_values)) no_fields))

-- How ensureDesktopConfig goes on, where it does not end in log.Fatal: it returns, or it panics on the
-- assignment to a nil map.
pub data Ensured : Type 0 where
  ensured nil_map : Ensured

module _ (paths : Paths) (maps : Maps) where
  unfoldable pub desktop_db_path : String → String
  desktop_db_path config_path = paths.join (paths.dir config_path) "mcmon.db"

  -- `os.WriteFile` of a map, which both functions end with.
  unfoldable pub write_map : String → Fields → Io Ensured
  write_map config_path raw d = elim (maps.marshal raw) [
    | none ↦ (failed, d)
    | some out ↦ handle (write_file config_path out d) (λ _ d'. (done ensured, d')) return_error
  ]

  unfoldable pub write_desktop_config : String → String → Io Ensured
  write_desktop_config config_path db_path d = write_map config_path (desktop_defaults db_path) d

  -- ensureDesktopConfig once the map is read.
  unfoldable pub ensure_db_path : String → Option (Fields) → Io Ensured
  ensure_db_path config_path none d =
      if paths.is_abs "" then (done ensured, d) else (done nil_map, d)
  ensure_db_path config_path (some raw) d =
      if paths.is_abs (as_text (lookup "db_path" raw))
      then (done ensured, d)
      else write_map config_path (assign "db_path" (text (desktop_db_path config_path)) raw) d

  unfoldable pub ensure_read : String → Bytes → Io Ensured
  ensure_read config_path b d = elim (maps.unmarshal b) [
    | none ↦ (failed, d)
    | some raw ↦ ensure_db_path config_path raw d
  ]

  unfoldable pub ensure_result : String → ReadResult → Io Ensured
  ensure_result config_path missing d =
      write_desktop_config config_path (desktop_db_path config_path) d
  ensure_result config_path (got b) d = ensure_read config_path b d

  unfoldable pub ensure_desktop_config : String → Io Ensured
  ensure_desktop_config config_path d =
      handle (read_file config_path d) (ensure_result config_path) return_error

module _ (paths : Paths) where
  -- desktopConfigPath.
  unfoldable pub desktop_config_path : Io String
  desktop_config_path d = elim paths.user_config_dir [
    | none ↦ (failed, d)
    | some dir ↦
        handle (make_dirs d)
          (λ _ d'. (done (paths.join (paths.join dir "mcmon") "config.json"), d')) return_error
  ]

  -- parseDesktopCommand once the default path is there; `none` where the flags end the process.
  unfoldable pub desktop_command :
      (String → List String → Option String) → String → List String → Option DesktopCommand
  desktop_command flags default [] = some (record { mode = window_mode; config_path = default })
  desktop_command flags default (word ∷ args) =
      if str_eq word "serve"
      then (elim (flags default args) [
        | none ↦ none
        | some path ↦ some (record { mode = serve_mode; config_path = path })
      ])
      else some (record { mode = window_mode; config_path = default })
