-- ===== src/Service/Examples.antt =====
-- An installation on a Linux machine, and the theorems at it.
use mcmon.Prelude.{◌≡◌, refl, String, true, false, some, none, [], str_eq, utf8, if◌then◌else◌}
use Prim.Native.String.{◌++◌}
use mcmon.Config.Disk.{done, failed, fate_of, succeeds, write_file, remove, put_file}
use mcmon.Service.Files.{systemd_unit}
use mcmon.Service.Quote.{replace_all, systemd_quote, exec_start}
use mcmon.Service.Quote.Words.{read_command, read_command-exec_start}
use mcmon.Service.System.{System, make_dirs, run}
use mcmon.Service.Install.{
  status_of, systemd_unit_path, write_service_file, install_systemd, install_on, install_service,
  uninstall_systemd, uninstall_service, background_status, file_status,
}
use mcmon.Service.Install.Laws.{
  IsInstalled, service_path, install_service-IsInstalled, uninstall_service-done,
  install_systemd-not_started,
}
use mcmon.Service.Fixtures.{linux, clean}

quoted : systemd_quote "a \"b\" \\c" ≡ "\"a \\\"b\\\" \\\\c\""
unfolding systemd_quote replace_all
quoted = refl

read_command-exec_start_example :
    read_command (exec_start "/opt/my \"mcmon\"" "C:\\config.json" ++ "\nRestart=on-failure")
    ≡ some ("/opt/my \"mcmon\"", "C:\\config.json", "\nRestart=on-failure")
read_command-exec_start_example =
    read_command-exec_start "/opt/my \"mcmon\"" "C:\\config.json" "\nRestart=on-failure" refl refl

abbrev installed : System
installed = (install_service (linux "") "" clean).1

install_done : install_service (linux "") "" clean ≡ (done tt, installed)
unfolding install_service install_on install_systemd write_service_file make_dirs write_file run
    systemd_unit_path
install_done = refl

installed_readable : fate_of installed.disk.fates ≡ succeeds
unfolding install_service install_on install_systemd write_service_file make_dirs write_file
    put_file run systemd_unit_path
installed_readable = refl

install_service-IsInstalled_example :
    (exe abs_exe abs_config : String) × (some "mcmon" ≡ some exe)
    × ((linux "").abs exe ≡ some abs_exe)
    × ((linux "").abs (if str_eq "" "" then "config.json" else "") ≡ some abs_config)
    × (there : IsInstalled (linux "") abs_exe abs_config installed) × ((background_status
          (linux "")
          installed).0
        ≡ done (status_of (linux "") true there.path true))
install_service-IsInstalled_example =
    install_service-IsInstalled (linux "") refl "" clean installed install_done installed_readable

abbrev removed : System
removed = (uninstall_service (linux "") installed).1

uninstall_done : uninstall_service (linux "") installed ≡ (done tt, removed)
unfolding uninstall_service uninstall_systemd remove install_service install_on install_systemd
    write_service_file make_dirs write_file put_file run systemd_unit_path
uninstall_done = refl

removed_readable : fate_of removed.disk.fates ≡ succeeds
unfolding uninstall_service uninstall_systemd remove install_service install_on install_systemd
    write_service_file make_dirs write_file put_file run systemd_unit_path
removed_readable = refl

uninstall_service-done_example :
    (path : String) × (service_path (linux "") ≡ some path)
    × (removed.disk.content path ≡ none)
    × ((background_status (linux "") removed).0 ≡ done (status_of (linux "") true path false))
uninstall_service-done_example =
    uninstall_service-done (linux "") refl installed removed uninstall_done removed_readable

unit_place : systemd_unit_path (linux "enable") ≡ some "/home/.config/systemd/user/mcmon.service"
unfolding systemd_unit_path
unit_place = refl

install_systemd-not_started_example :
    (s' : System) × (install_systemd (linux "enable") "/opt/mcmon" "/opt" "/opt/config.json" clean
      ≡ (failed, s'))
    × (s'.disk.content "/home/.config/systemd/user/mcmon.service"
        ≡ some (utf8 (systemd_unit "/opt/mcmon" "/opt" "/opt/config.json")))
    × ((file_status (linux "enable") (some "/home/.config/systemd/user/mcmon.service") s').0
        ≡ done (status_of (linux "enable") true "/home/.config/systemd/user/mcmon.service" true))
install_systemd-not_started_example =
    install_systemd-not_started (linux "enable") "/opt/mcmon" "/opt" "/opt/config.json"
      "/home/.config/systemd/user/mcmon.service" (λ path. none) [] unit_place refl refl
