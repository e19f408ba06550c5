-- ===== src/Service/Install.antt =====
-- installService, uninstallService and backgroundStatus of internal/app/service.go, with what they do on each
-- platform. What is printed is left out.
pub mod Steps
pub mod Laws
use mcmon.Prelude.{
  String, str_eq, Bool, true, false, Option, none, some, List, [], ◌∷◌, utf8, if◌then◌else◌,
}
use Prim.Native.String.{◌++◌}
use mathlib.Core.Option
use mcmon.Config.Disk.{Done, done, failed, crashed, write_file, remove}
use mcmon.Service.Files.{
  service_label, windows_task_name, launchd_plist, systemd_unit, windows_task_args,
}
use mcmon.Service.System.{
  Host, System, Op, return, found, on_disk, ignored, ◌>>=◌, ◌>>◌, make_dirs, file_exists, run,
}

pub record BackgroundStatus : Type 0 where
  pub platform : String
  pub supported : Bool
  pub enabled : Bool
  pub detail : String

module _ (host : Host) where
  unfoldable pub launchd_plist_path : Option String
  launchd_plist_path =
      Option.map
        (λ home. host.join (home ∷ "Library" ∷ "LaunchAgents" ∷ (service_label ++ ".plist") ∷ []))
        host.user_home

  unfoldable pub systemd_unit_path : Option String
  systemd_unit_path =
      Option.map (λ home. host.join (home ∷ ".config" ∷ "systemd" ∷ "user" ∷ "mcmon.service" ∷ []))
        host.user_home

  -- The part of the installations on macOS and Linux that writes the file.
  unfoldable pub write_service_file : String → String → Op (Unit {0})
  write_service_file path content = on_disk (make_dirs) >> on_disk (write_file path (utf8 content))

  unfoldable pub install_launchd : String → String → String → Op (Unit {0})
  install_launchd exe wd config_path = do
    path ← found launchd_plist_path
    _ ← write_service_file path (launchd_plist exe wd config_path)
    _ ← ignored (run host ("launchctl" ∷ "unload" ∷ path ∷ []))
    run host ("launchctl" ∷ "load" ∷ path ∷ [])

  unfoldable pub uninstall_launchd : Op (Unit {0})
  uninstall_launchd = do
    path ← found launchd_plist_path
    _ ← ignored (run host ("launchctl" ∷ "unload" ∷ path ∷ []))
    on_disk (remove path)

  unfoldable pub install_systemd : String → String → String → Op (Unit {0})
  install_systemd exe wd config_path = do
    path ← found systemd_unit_path
    _ ← write_service_file path (systemd_unit exe wd config_path)
    _ ← run host ("systemctl" ∷ "--user" ∷ "daemon-reload" ∷ [])
    run host ("systemctl" ∷ "--user" ∷ "enable" ∷ "--now" ∷ "mcmon.service" ∷ [])

  -- A file that is not there is no error of the removal.
  unfoldable pub uninstall_systemd : Op (Unit {0})
  uninstall_systemd = do
    _ ← ignored (run host ("systemctl" ∷ "--user" ∷ "disable" ∷ "--now" ∷ "mcmon.service" ∷ []))
    path ← found systemd_unit_path
    _ ← on_disk (remove path)
    ignored (run host ("systemctl" ∷ "--user" ∷ "daemon-reload" ∷ []))

  unfoldable pub install_windows_task : String → String → Op (Unit {0})
  install_windows_task exe config_path = do
    _ ← run host ("schtasks" ∷ windows_task_args exe config_path)
    ignored (run host ("schtasks" ∷ "/Run" ∷ "/TN" ∷ windows_task_name ∷ []))

  unfoldable pub uninstall_windows_task : Op (Unit {0})
  uninstall_windows_task = run host ("schtasks" ∷ "/Delete" ∷ "/F" ∷ "/TN" ∷ windows_task_name ∷ [])

  -- The switch of installService.
  unfoldable pub install_on : String → String → String → Op (Unit {0})
  install_on exe wd config_path =
      if str_eq host.goos "darwin"
      then install_launchd exe wd config_path
      else if str_eq host.goos "linux"
      then install_systemd exe wd config_path
      else if str_eq host.goos "windows"
      then install_windows_task exe config_path
      else found none

  unfoldable pub install_service : String → Op (Unit {0})
  install_service config_path = do
    exe ← found host.executable
    abs_exe ← found (host.abs exe)
    abs_config ← found (host.abs (if str_eq config_path "" then "config.json" else config_path))
    install_on abs_exe (host.dir abs_config) abs_config

  unfoldable pub uninstall_service : Op (Unit {0})
  uninstall_service =
      if str_eq host.goos "darwin"
      then uninstall_launchd
      else if str_eq host.goos "linux"
      then uninstall_systemd
      else if str_eq host.goos "windows"
      then uninstall_windows_task
      else found none

  abbrev path_or_empty : Option String → String
  path_or_empty none = ""
  path_or_empty (some path) = path

  -- `err == nil && fileExists(path)`.
  unfoldable pub path_exists : Option String → Op Bool
  path_exists none = return false
  path_exists (some path) = on_disk (file_exists path)

  abbrev pub status_of : Bool → String → Bool → BackgroundStatus
  status_of supported detail enabled = record {
    platform = host.goos;
    supported = supported;
    enabled = enabled;
    detail = detail;
  }

  -- The status on macOS and Linux, by the file of the service.
  unfoldable pub file_status : Option String → Op BackgroundStatus
  file_status path = do
    enabled ← path_exists path
    return (status_of true (path_or_empty path) enabled)

  abbrev works_now : Done (Unit {0}) → Op Bool
  works_now (done a) sys = (done true, sys)
  works_now failed sys = (done false, sys)
  works_now crashed sys = (crashed, sys)

  -- `run(…) == nil`.
  unfoldable pub query_task : Op Bool
  query_task sys =
      let (r, sys') = run host ("schtasks" ∷ "/Query" ∷ "/TN" ∷ windows_task_name ∷ []) sys in
      works_now r sys'

  unfoldable pub windows_status : Op BackgroundStatus
  windows_status = do enabled ← query_task; return (status_of true windows_task_name enabled)

  unfoldable pub background_status : Op BackgroundStatus
  background_status =
      if str_eq host.goos "darwin"
      then file_status launchd_plist_path
      else if str_eq host.goos "linux"
      then file_status systemd_unit_path
      else if str_eq host.goos "windows"
      then windows_status
      else return (status_of false "background mode is not supported on this platform" false)
