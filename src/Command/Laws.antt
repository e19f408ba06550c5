-- ===== src/Command/Laws.antt =====
-- The installed service starts the program as `serve` with its configuration.
use mcmon.Prelude.{ℕ, ◌≡◌, refl, ap, String, Bool, true, Option, some, List, [], ◌∷◌}
use Prim.Native.String.{◌++◌}
use mcmon.Config.Store.{Json}
use mcmon.Storage.Query.{Sqlite}
use mcmon.Service.Quote.{exec_start}
use mcmon.Service.Quote.Words.{is_plain, read_command, read_command-exec_start}
use mcmon.Service.System.{Host, System}
use mcmon.Config.Disk.{Disk, done}
use mcmon.Runtime.{Runtime, Listening, run_server}
use mcmon.Command.{Flags, with_config_path, serve, action_of, exit_of, perform, main}
use mcmon.Command.Desktop.{
  Paths, Maps, ensured, desktop_command, desktop_config_path, ensure_desktop_config,
}
use mcmon.Command.Desktop.Main.{after_ensure, run_mode, run_command, after_path, desktop_main}

-- What the package flag is relied on for: -config takes the word after it.
pub record ReadsFlag (flags : Flags) : Type 0 where
  pub config : (default path : String) → flags default ("-config" ∷ path ∷ []) ≡ some path

-- The words after the program in the command of the service.
abbrev pub serve_args : String → List String
serve_args config_path = "serve" ∷ "-config" ∷ config_path ∷ []

action_of-serve_args :
    (flags : Flags)
    → ReadsFlag flags
    → (config_path : String) → action_of flags (serve_args config_path) ≡ serve config_path
unfolding action_of with_config_path
action_of-serve_args flags reads config_path =
    rw (reads.config "config.json" config_path, with_config_path) refl

-- The command in the systemd unit is read as the program and the path of the configuration, if neither has
-- a percent sign, a dollar sign, an end of a line or a NUL; and with the arguments in it the command line
-- program runs the server on that configuration, and the desktop program does so in its serve mode, once
-- it has made its own directory and ensureDesktopConfig has returned. The package flag must take the word
-- after -config.
pub exec_start-serves :
    (flags : Flags)
    → ReadsFlag flags
    → (host : Host) (sql : Sqlite) (connect : String → Option sql.Db) (json : Json)
      (listen : String → Listening) (fresh : ℕ → String) (sys : System) (paths : Paths)
      (maps : Maps) (window : Runtime sql.Db → Bool) (exe config_path default rest : String)
      (d d1 d2 : Disk)
    → is_plain exe ≡ true
    → is_plain config_path ≡ true
    → desktop_config_path paths d ≡ (done default, d1)
    → ensure_desktop_config paths maps config_path d1 ≡ (done ensured, d2)
    → (read_command (exec_start exe config_path ++ rest) ≡ some (exe, config_path, rest))
      × (main flags host sql connect json listen fresh sys (serve_args config_path)
          ≡ exit_of (run_server sql connect json listen config_path fresh sys.disk))
      × (desktop_main paths maps flags sql connect json listen window fresh
            (serve_args config_path)
            d
          ≡ exit_of (run_server sql connect json listen config_path fresh d2))
unfolding main perform desktop_main after_path run_command after_ensure run_mode desktop_command
exec_start-serves flags reads host sql connect json listen fresh sys paths maps window exe
      config_path default rest d d1 d2 fine well place ready =
    (
      read_command-exec_start exe config_path rest fine well,
      ap (perform flags host sql connect json listen fresh sys)
          (action_of-serve_args flags reads config_path),
      rw (place, after_path, reads.config default config_path, run_command, ready) refl,
    )
