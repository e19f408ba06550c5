-- ===== src/Command.antt =====
-- What the two programs make of their arguments: cmd/mcmon/main.go, and parseDesktopCommand of
-- main_desktop.go. The package flag is an argument: `flags d args` is the value of the flag -config with the
-- default `d`, or `none` where the flags end the process.

pub mod Laws
pub mod Desktop
mod Examples
use mcmon.Prelude.{ℕ, String, str_eq, Option, none, some, List, [], ◌∷◌, if◌then◌else◌}
use mcmon.Config.Disk.{Done, done, failed, crashed}
use mcmon.Config.Store.{Json}
use mcmon.Storage.Query.{Sqlite}
use mcmon.Service.System.{Host, System}
use mcmon.Service.Install.{install_service, uninstall_service}
use mcmon.Runtime.{Listening, run_server}

abbrev pub Flags : Type 0
Flags = String → List String → Option String

pub data Action : Type 0 where
  install serve : String → Action
  uninstall bad_flags : Action

module _ (flags : Flags) where
  -- commandConfigPath, and what is done with the path.
  unfoldable pub with_config_path : (String → Action) → List String → Action
  with_config_path action args = elim (flags "config.json" args) [
    | none ↦ bad_flags
    | some path ↦ action path
  ]

  -- The arguments of main, without the name of the program.
  unfoldable pub action_of : List String → Action
  action_of [] = with_config_path serve []
  action_of (word ∷ args) =
      if str_eq word "install"
      then with_config_path install args
      else if str_eq word "uninstall"
      then uninstall
      else if str_eq word "serve"
      then with_config_path serve args
      else with_config_path serve (word ∷ args)

-- How the process ends: with status 0, with the status 1 of log.Fatal, with the status 2 of wrong flags or
-- of a panic, or in the middle.
pub data Exit : Type 0 where
  exit_ok exit_fatal exit_usage exit_panic killed : Exit

abbrev pub exit_of {ℓ} : {A : Type ℓ} → Done A → Exit
exit_of (done a) = exit_ok
exit_of failed = exit_fatal
exit_of crashed = killed

module _ (flags : Flags) (host : Host) (sql : Sqlite) (connect : String → Option sql.Db)
    (json : Json) (listen : String → Listening) (fresh : ℕ → String) (sys : System) where
  unfoldable pub perform : Action → Exit
  perform (install path) = exit_of (install_service host path sys).0
  perform uninstall = exit_of (uninstall_service host sys).0
  perform (serve path) = exit_of (run_server sql connect json listen path fresh sys.disk)
  perform bad_flags = exit_usage

  -- main of cmd/mcmon/main.go.
  unfoldable pub main : List String → Exit
  main args = perform (action_of flags args)
