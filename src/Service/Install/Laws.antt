-- ===== src/Service/Install/Laws.antt =====
-- What an installation that returned nil has done, and what the status says after it.
use mcmon.Prelude.{
  ◌≡◌, refl, ◌∙◌, inl, inr, String, str_eq, eq_refl, ◌||◌, true, false, Option, none, some, List,
  [], ◌∷◌, utf8, if◌then◌else◌, Bool-cases,
}
use mcmon.Config.Disk.{Bytes, done, failed, succeeds, fate_of, write_file, put_file, update}
use mcmon.Service.Files.{systemd_unit, launchd_plist}
use mcmon.Service.System.{Command, Host, System, make_dirs, file_exists, is_there, run}
use mcmon.Service.Install.{
  launchd_plist_path, systemd_unit_path, write_service_file, install_systemd, install_on,
  install_service, uninstall_service, path_exists, status_of, file_status, background_status,
}
use mcmon.Service.Install.Steps.{
  found-bind, enable, reload, load, unload, install_systemd-done, install_launchd-done,
  uninstall_launchd-done, uninstall_systemd-done,
}

-- Where the file of the service stands, what it holds, and the command that starts the service.
abbrev pub service_path : Host → Option String
service_path host =
    if str_eq host.goos "darwin" then launchd_plist_path host else systemd_unit_path host

abbrev pub service_text : Host → String → String → String
service_text host exe config_path =
    let wd = host.dir config_path in
    if str_eq host.goos "darwin"
    then launchd_plist exe wd config_path
    else systemd_unit exe wd config_path

abbrev pub start_command : Host → String → Command
start_command host path = if str_eq host.goos "darwin" then load path else enable

-- What an installation on macOS or Linux has done, of the program `exe` with the configuration at
-- `config_path`, both absolute.
pub record IsInstalled (host : Host) (exe config_path : String) (s' : System) : Type 0 where
  pub path : String
  pub place : service_path host ≡ some path
  pub written : s'.disk.content path ≡ some (utf8 (service_text host exe config_path))
  pub earlier : List Command
  pub ran : s'.ran ≡ start_command host path ∷ earlier
  pub started : host.works earlier (start_command host path) ≡ true

module _ (host : Host) (exe config_path : String) (sys s' : System)
    (unix : (str_eq host.goos "darwin" || str_eq host.goos "linux") ≡ true) where
  install_on-IsInstalled :
      install_on host exe (host.dir config_path) config_path sys ≡ (done tt, s')
      → IsInstalled host exe config_path s'
  unfolding install_on
  install_on-IsInstalled e = elim (Bool-cases (str_eq host.goos "darwin")) [
    | inl mac ↦
        let (path, there, written, ran, loaded) =
          install_launchd-done host exe (host.dir config_path) config_path sys s' (rw mac at e) in
        record {
          path = path;
          place = rw mac there;
          written = rw mac written;
          earlier = unload path ∷ sys.ran;
          ran = rw mac ran;
          started = rw mac loaded;
        }
    | inr other ↦
        let linux : str_eq host.goos "linux" ≡ true = rw other at unix in
        let (path, there, written, ran, _, enabled) =
          install_systemd-done host exe (host.dir config_path) config_path sys s'
            (rw (other, linux) at e) in
        record {
          path = path;
          place = rw other there;
          written = rw other written;
          earlier = reload ∷ sys.ran;
          ran = rw other ran;
          started = rw other enabled;
        }
  ]

module _ (host : Host) (unix : (str_eq host.goos "darwin" || str_eq host.goos "linux") ≡ true) where
  background_status-file_status : background_status host ≡ file_status host (service_path host)
  unfolding background_status
  background_status-file_status = elim (Bool-cases (str_eq host.goos "darwin")) [
    | inl mac ↦ rw mac refl
    | inr other ↦
        let linux : str_eq host.goos "linux" ≡ true = rw other at unix in rw (other, linux) refl
  ]

  -- Where the disk can be read, the status says whether the file of the service is there.
  pub background_status-is_there :
      (path : String) (sys : System)
      → service_path host ≡ some path
      → fate_of sys.disk.fates ≡ succeeds
      → (background_status host sys).0
        ≡ done (status_of host true path (is_there (sys.disk.content path)))
  unfolding file_status path_exists file_exists
  background_status-is_there path sys place readable =
      rw (background_status-file_status, place, readable, file_exists) refl

  -- An installation that returned nil, on macOS or Linux: the file of the service holds the text for the
  -- absolute paths of the program and of the configuration (config.json where none is given), the command
  -- that starts the service ran last and succeeded, and the status says enabled as long as the disk can be
  -- read.
  pub install_service-IsInstalled :
      (config_path : String) (sys s' : System)
      → install_service host config_path sys ≡ (done tt, s')
      → fate_of s'.disk.fates ≡ succeeds
      → (exe abs_exe abs_config : String) × (host.executable ≡ some exe)
        × (host.abs exe ≡ some abs_exe)
        × (host.abs (if str_eq config_path "" then "config.json" else config_path)
            ≡ some abs_config)
        × (installed : IsInstalled host abs_exe abs_config s') × ((background_status host s').0
            ≡ done (status_of host true installed.path true))
  unfolding install_service
  install_service-IsInstalled config_path sys s' e readable =
      let (exe, known, e1) = found-bind sys s' tt host.executable _ e in
      let (abs_exe, known_abs, e2) = found-bind sys s' tt (host.abs exe) _ e1 in
      let (abs_config, known_config, e3) =
        found-bind sys s' tt
          (host.abs (if str_eq config_path "" then "config.json" else config_path)) _ e2 in
      let installed = install_on-IsInstalled host abs_exe abs_config sys s' unix e3 in
      let status = background_status-is_there installed.path s' installed.place readable in
      (
        exe,
        abs_exe,
        abs_config,
        known,
        known_abs,
        known_config,
        installed,
        status ∙ rw (installed.written) refl,
      )

  -- An uninstallation that returned nil, on macOS or Linux: the file of the service is gone, and the status
  -- says disabled as long as the disk can be read.
  pub uninstall_service-done :
      (sys s' : System)
      → uninstall_service host sys ≡ (done tt, s')
      → fate_of s'.disk.fates ≡ succeeds
      → (path : String) × (service_path host ≡ some path)
        × (s'.disk.content path ≡ none)
        × ((background_status host s').0 ≡ done (status_of host true path false))
  unfolding uninstall_service
  uninstall_service-done sys s' e readable = elim (Bool-cases (str_eq host.goos "darwin")) [
    | inl mac ↦
        let (path, there, gone) = uninstall_launchd-done host sys s' (rw mac at e) in
        let place : service_path host ≡ some path = rw mac there in
        (path, place, gone, background_status-is_there path s' place readable ∙ rw gone refl)
    | inr other ↦
        let linux : str_eq host.goos "linux" ≡ true = rw other at unix in
        let (path, there, gone) = uninstall_systemd-done host sys s' (rw (other, linux) at e) in
        let place : service_path host ≡ some path = rw other there in
        (path, place, gone, background_status-is_there path s' place readable ∙ rw gone refl)
  ]

-- On Linux, with a disk on which every operation succeeds: where systemd cannot enable the unit, the
-- installation returns an error, but has left the unit in its file, by which the status says enabled.
pub install_systemd-not_started :
    (host : Host) (exe wd config_path path : String) (content : String → Option Bytes)
    (ran : List Command)
    → systemd_unit_path host ≡ some path
    → host.works ran reload ≡ true
    → host.works (reload ∷ ran) enable ≡ false
    → (s' : System) × (install_systemd host exe wd config_path
          (record { disk = record { content = content; fates = [] }; ran = ran })
        ≡ (failed, s'))
      × (s'.disk.content path ≡ some (utf8 (systemd_unit exe wd config_path)))
      × ((file_status host (some path) s').0 ≡ done (status_of host true path true))
unfolding install_systemd file_status path_exists file_exists write_service_file make_dirs
    write_file put_file update run
install_systemd-not_started host exe wd config_path path content ran place reloads refuses = (
  record {
    disk = record {
      content = update content path (some (utf8 (systemd_unit exe wd config_path)));
      fates = [];
    };
    ran = enable ∷ reload ∷ ran;
  },
  rw (place, reloads, refuses) refl,
  rw (eq_refl path) refl,
  rw (eq_refl path) refl,
)
