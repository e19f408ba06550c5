-- ===== src/Command/Examples.antt =====
-- Command lines and configurations of the two programs, and the theorems at them.
use mcmon.Prelude.{
  ◌≡◌, refl, sym, ap, true, String, str_eq, ℕ, zero, suc, Bool-cases, inl, inr, eq_iff, Option,
  none, some, List, [], ◌∷◌,
}
use Prim.Native.String.{◌++◌}
use mcmon.Config.Fixtures.{one_json}
use mcmon.Config.Disk.{Disk, Done, done, write_file, put_file, update}
use mcmon.Config.Store.{read_file}
use mcmon.Storage.OneRow.{one_row, no_rows}
use mcmon.Service.Quote.{exec_start}
use mcmon.Service.Quote.Words.{read_command}
use mcmon.Service.Fixtures.{linux, clean}
use mcmon.Runtime.{server_closed, run_server}
use mcmon.Command.{Flags, install, serve, with_config_path, action_of, exit_of, main}
use mcmon.Service.System.{make_dirs}
use mcmon.Command.Desktop.Main.{desktop_main}
use mcmon.Command.Laws.{ReadsFlag, serve_args, exec_start-serves}
use mcmon.Command.Desktop.{
  Paths, Maps, Fields, text, no_fields, field, is_map, desktop_defaults, Ensured,
  write_desktop_config, desktop_config_path, ensured, ensure_result, write_map, desktop_db_path,
  ensure_desktop_config,
}
use mcmon.Command.Desktop.Laws.{IsFitting, IsEnsured, ensure_desktop_config-IsEnsured}

abbrev flags : Flags
flags default [] = some default
flags default (word ∷ []) = none
flags default (word ∷ path ∷ args) = some path

flags-ReadsFlag : ReadsFlag flags
flags-ReadsFlag = record { config = λ default path. refl }

abbrev paths : Paths
paths = record {
  user_config_dir = some "/home/.config";
  join = λ dir name. dir ++ ("/" ++ name);
  dir = λ path. "/home";
  is_abs = λ path. str_eq path "/home/mcmon.db";
}

defaults_serve : action_of flags [] ≡ serve "config.json"
unfolding action_of with_config_path
defaults_serve = refl

installs : action_of flags ("install" ∷ "-config" ∷ "my.json" ∷ []) ≡ install "my.json"
unfolding action_of with_config_path
installs = refl

-- Files with a relative path of the database and with an absolute one, and the defaults.
abbrev other_map : String → Fields
other_map path = field "db_path" (text path) (field "listen_addr" (text "127.0.0.1:9000") no_fields)

String-discrete : Discrete String
String-discrete a b = elim (Bool-cases (str_eq a b)) [
  | inl same ↦ yes ((eq_iff a b).0 same)
  | inr apart ↦ no (λ e. cc (apart, (eq_iff a b).1 e))
]

Fields-discrete : Discrete Fields
Fields-discrete = hlevel String-discrete

abbrev defaults : Fields
defaults = desktop_defaults "/home/mcmon.db"

abbrev unmarshal : List ℕ → Option (Option Fields)
unmarshal [] = none
unmarshal (zero ∷ rest) = some (some (other_map "mcmon.db"))
unmarshal (suc zero ∷ rest) = some (some (other_map "/home/mcmon.db"))
unmarshal (suc (suc n) ∷ rest) = some (some defaults)

abbrev written :
    {raw : Fields} → Dec (raw ≡ defaults) → Dec (raw ≡ other_map "/home/mcmon.db") → Option (List ℕ)
written (yes _) _ = some (2 ∷ [])
written (no _) (yes _) = some (1 ∷ [])
written (no _) (no _) = none

-- An encoding of two maps, the defaults among them, that can also read the relative path.
abbrev maps : Maps
maps = record {
  unmarshal = unmarshal;
  marshal = λ raw.
      written (Fields-discrete raw defaults) (Fields-discrete raw (other_map "/home/mcmon.db"));
}

read_back :
    (raw : Fields) (x : Dec (raw ≡ defaults)) (y : Dec (raw ≡ other_map "/home/mcmon.db"))
    (b : List ℕ)
    → written x y ≡ some b
    → unmarshal b ≡ some (some raw)
read_back raw (yes p) y b e = let b_is : 2 ∷ [] ≡ b = cc e in rw (sym b_is, p) refl
read_back raw (no n) (yes p) b e = let b_is : 1 ∷ [] ≡ b = cc e in rw (sym b_is, p) refl
read_back raw (no n) (no m) b e = absurd (cc e)

unmarshal-is_map : (b : List ℕ) (raw : Fields) → unmarshal b ≡ some (some raw) → is_map raw ≡ true
unfolding is_map desktop_defaults
unmarshal-is_map [] raw e = absurd (cc e)
unmarshal-is_map (zero ∷ rest) raw e =
    let raw_is : other_map "mcmon.db" ≡ raw = cc e in rw (sym raw_is) refl
unmarshal-is_map (suc zero ∷ rest) raw e =
    let raw_is : other_map "/home/mcmon.db" ≡ raw = cc e in rw (sym raw_is) refl
unmarshal-is_map (suc (suc n) ∷ rest) raw e =
    let raw_is : defaults ≡ raw = cc e in rw (sym raw_is) refl

fits : IsFitting paths maps "config.json"
unfolding desktop_db_path
fits = record {
  unmarshal-marshal = λ raw b ordered e.
      read_back raw (Fields-discrete raw defaults)
        (Fields-discrete raw (other_map "/home/mcmon.db")) b e;
  unmarshal-is_map = unmarshal-is_map;
  empty_relative = refl;
  absolute = refl;
}

defaults_written :
    (x : Dec (defaults ≡ defaults)) (y : Dec (defaults ≡ other_map "/home/mcmon.db"))
    → written x y ≡ some (2 ∷ [])
defaults_written (yes p) y = refl
defaults_written (no n) y = absurd (n refl)

marshal_defaults : maps.marshal defaults ≡ some (2 ∷ [])
marshal_defaults =
    defaults_written (Fields-discrete defaults defaults)
      (Fields-discrete defaults (other_map "/home/mcmon.db"))

-- A disk without the file, to which the defaults are written.
abbrev fresh_disk : Disk
fresh_disk = record { content = λ path. none; fates = [] }

fresh_ensured : ensure_desktop_config paths maps "config.json" fresh_disk ≡ (
  done ensured,
  record fresh_disk { content = update (fresh_disk.content) "config.json" (some (2 ∷ [])) },
)
unfolding ensure_desktop_config ensure_result write_desktop_config write_map write_file read_file
    put_file desktop_db_path
fresh_ensured = rw (marshal_defaults, write_map) refl

ensure_desktop_config-IsEnsured_example :
    IsEnsured paths maps "config.json" none
      (ensure_desktop_config paths maps "config.json" fresh_disk).1
ensure_desktop_config-IsEnsured_example =
    ensure_desktop_config-IsEnsured paths maps "config.json" fits fresh_disk
      (ap (λ (o : Done Ensured × Disk). o.0) fresh_ensured)

fresh_path :
    desktop_config_path paths fresh_disk ≡ (done "/home/.config/mcmon/config.json", fresh_disk)
unfolding desktop_config_path make_dirs
fresh_path = refl

served_ready :
    ensure_desktop_config paths maps "/opt/my config.json" fresh_disk
    ≡ (done ensured, (ensure_desktop_config paths maps "/opt/my config.json" fresh_disk).1)
unfolding ensure_desktop_config ensure_result write_desktop_config write_map write_file read_file
    put_file desktop_db_path
served_ready = rw (marshal_defaults, write_map) refl

exec_start-serves_example :
    (read_command (exec_start "/opt/mcmon" "/opt/my config.json" ++ "\n")
      ≡ some ("/opt/mcmon", "/opt/my config.json", "\n"))
    × (main flags
          (linux "")
          one_row
          (λ path. some no_rows)
          one_json
          (λ addr. server_closed)
          (λ i. "new")
          clean
          (serve_args "/opt/my config.json")
        ≡ exit_of (
            run_server one_row
              (λ path. some no_rows)
              one_json
              (λ addr. server_closed)
              "/opt/my config.json"
              (λ i. "new")
              clean.disk))
    × (desktop_main paths maps flags one_row
          (λ path. some no_rows)
          one_json
          (λ addr. server_closed)
          (λ rt. true)
          (λ i. "new")
          (serve_args "/opt/my config.json")
          fresh_disk
        ≡ exit_of (
            run_server one_row
              (λ path. some no_rows)
              one_json
              (λ addr. server_closed)
              "/opt/my config.json"
              (λ i. "new")
              (ensure_desktop_config paths maps "/opt/my config.json" fresh_disk).1))
exec_start-serves_example =
    exec_start-serves flags flags-ReadsFlag (linux "") one_row (λ path. some no_rows) one_json
      (λ addr. server_closed) (λ i. "new") clean paths maps (λ rt. true) "/opt/mcmon"
      "/opt/my config.json" "/home/.config/mcmon/config.json" "\n" fresh_disk fresh_disk
      (ensure_desktop_config paths maps "/opt/my config.json" fresh_disk).1 refl refl fresh_path
      served_ready
