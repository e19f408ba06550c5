-- ===== src/Service/Files.antt =====
-- The texts that internal/app/service.go hands to the systems: the launchd property list, the systemd unit
-- and the command of the Windows task.
use mcmon.Prelude.{String, List, [], ◌∷◌}
use Prim.Native.String.{◌++◌}
use mcmon.Service.Quote.{systemd_quote, exec_start}

abbrev pub service_label : String
service_label = "com.mcmon"

abbrev pub windows_task_name : String
windows_task_name = "mcmon"

abbrev xml_string : String → String
xml_string s = "<string>" ++ (s ++ "</string>\n")

abbrev xml_key : String → String → String
xml_key key value = "  <key>" ++ (key ++ ("</key>" ++ value))

abbrev all_of : List String → String
all_of [] = ""
all_of (s ∷ ss) = s ++ all_of ss

unfoldable pub launchd_plist : String → String → String → String
launchd_plist exe wd config_path = all_of (
    "<?xml version=\"1.0\" encoding=\"UTF-8\"?>\n"
    ∷ "<!DOCTYPE plist PUBLIC \"-//Apple//DTD PLIST 1.0//EN\" \"http://www.apple.com/DTDs/PropertyList-1.0.dtd\">\n"
    ∷ "<plist version=\"1.0\">\n<dict>\n"
    ∷ xml_key "Label" (xml_string service_label)
    ∷ "  <key>ProgramArguments</key>\n  <array>\n"
    ∷ "    "
    ∷ xml_string exe
    ∷ "    <string>serve</string>\n    <string>-config</string>\n    "
    ∷ xml_string config_path
    ∷ "  </array>\n"
    ∷ xml_key "WorkingDirectory" (xml_string wd)
    ∷ xml_key "RunAtLoad" "<true/>\n"
    ∷ xml_key "KeepAlive" "<true/>\n"
    ∷ xml_key "StandardOutPath" (xml_string (wd ++ "/mcmon.log"))
    ∷ xml_key "StandardErrorPath" (xml_string (wd ++ "/mcmon.err.log"))
    ∷ "</dict>\n</plist>\n"
    ∷ [])

unfoldable pub systemd_unit : String → String → String → String
systemd_unit exe wd config_path = all_of (
    "[Unit]\nDescription=mcmon desktop monitor\n\n[Service]\nExecStart="
    ∷ exec_start exe config_path
    ∷ "\nWorkingDirectory="
    ∷ systemd_quote wd
    ∷ "\nRestart=on-failure\n\n[Install]\nWantedBy=default.target\n"
    ∷ [])

unfoldable pub windows_task_command : String → String → String
windows_task_command exe config_path =
    "\"" ++ (exe ++ ("\" serve -config \"" ++ (config_path ++ "\"")))

unfoldable pub windows_task_args : String → String → List String
windows_task_args exe config_path =
    "/Create"
    ∷ "/F"
    ∷ "/SC"
    ∷ "ONLOGON"
    ∷ "/TN"
    ∷ windows_task_name
    ∷ "/TR"
    ∷ windows_task_command exe config_path
    ∷ []
