-- ===== src/Service/Quote.antt =====
-- systemdQuote of internal/app/service.go, and the line of the unit that starts the program.
pub mod Words
use mcmon.Prelude.{ℕ, ◌==◌, String, if◌then◌else◌}
use Prim.Native.Char.{code}
use Prim.Native.String.{◌++◌}

-- strings.ReplaceAll(s, old, new), for an `old` of the one rune `c`.
unfoldable pub replace_all : ℕ → String → String → String
replace_all c new String.[] = String.[]
replace_all c new (String.◌∷◌ d s) =
    let rest = replace_all c new s in if code d == c then new ++ rest else String.◌∷◌ d rest

-- A backslash is 92, and a quotation mark 34.
unfoldable pub systemd_quote : String → String
systemd_quote s =
    let escaped = replace_all 92 "\\\\" s in "\"" ++ (replace_all 34 "\\\"" escaped ++ "\"")

-- The value of ExecStart in systemdUnit.
unfoldable pub exec_start : String → String → String
exec_start exe config_path = systemd_quote exe ++ (" serve -config " ++ systemd_quote config_path)
