-- ===== src/Command/Desktop/Main.antt =====
-- main of main_desktop.go. What wails.Run comes to with the handler of a Runtime is the argument `window`:
-- whether it returns nil.
use mcmon.Prelude.{ℕ, String, Bool, Option, none, some, List, if◌then◌else◌}
use mcmon.Config.Disk.{Disk, Done, done, failed, crashed}
use mcmon.Config.Store.{Json}
use mcmon.Storage.Query.{Sqlite}
use mcmon.Runtime.{
  Runtime, Booted, runs, boot_error, boot_stopped, boot_panicked, Listening, new_runtime,
  run_server,
}
use mcmon.Command.{Flags, Exit, exit_ok, exit_fatal, exit_usage, exit_panic, killed, exit_of}
use mcmon.Command.Desktop.{
  Paths, Maps, DesktopMode, window_mode, serve_mode, DesktopCommand, Ensured, ensured, nil_map,
  ensure_desktop_config, desktop_config_path, desktop_command,
}

module _ (paths : Paths) (maps : Maps) (flags : Flags) (sql : Sqlite)
    (connect : String → Option sql.Db) (json : Json) (listen : String → Listening)
    (window : Runtime sql.Db → Bool) (fresh : ℕ → String) where
  unfoldable pub open_window : Booted sql.Db → Exit
  open_window (runs rt) = if window rt then exit_ok else exit_fatal
  open_window boot_error = exit_fatal
  open_window boot_stopped = killed
  open_window boot_panicked = exit_panic

  -- The two ways of main, once the configuration is there.
  unfoldable pub run_mode : DesktopMode → String → Disk → Exit
  run_mode serve_mode path d = exit_of (run_server sql connect json listen path fresh d)
  run_mode window_mode path d = open_window (new_runtime sql connect json path fresh d)

  unfoldable pub after_ensure : DesktopCommand → Done Ensured → Disk → Exit
  after_ensure cmd (done ensured) d = run_mode cmd.mode cmd.config_path d
  after_ensure cmd (done nil_map) d = exit_panic
  after_ensure cmd failed d = exit_fatal
  after_ensure cmd crashed d = killed

  unfoldable pub run_command : Option DesktopCommand → Disk → Exit
  run_command none d = exit_usage
  run_command (some cmd) d =
      let (r, d') = ensure_desktop_config paths maps cmd.config_path d in after_ensure cmd r d'

  unfoldable pub after_path : List String → Done String → Disk → Exit
  after_path args (done default) d = run_command (desktop_command paths flags default args) d
  after_path args failed d = exit_fatal
  after_path args crashed d = killed

  unfoldable pub desktop_main : List String → Disk → Exit
  desktop_main args d = let (r, d') = desktop_config_path paths d in after_path args r d'
