-- ===== src/Service/Fixtures.antt =====
-- A Linux machine for the tests, on which every command succeeds but those that `refused` names.
use mcmon.Prelude.{String, str_eq, Bool, false, not, some, none, List, [], ◌∷◌}
use Prim.Native.String.{◌++◌}
use mcmon.Service.System.{Command, Host, System}

abbrev pub joined : List String → String
joined [] = ""
joined (s ∷ ss) = "/" ++ (s ++ joined ss)

-- Whether a command has the third word.
abbrev pub third_is : String → Command → Bool
third_is word (a ∷ b ∷ c ∷ rest) = str_eq c word
third_is word command = false

abbrev pub linux : String → Host
linux refused = record {
  goos = "linux";
  executable = some "mcmon";
  user_home = some "home";
  abs = λ path. some ("/opt/" ++ path);
  dir = λ path. "/opt";
  join = joined;
  works = λ ran command. not (third_is refused command);
}

abbrev pub clean : System
clean = record { disk = record { content = λ path. none; fates = [] }; ran = [] }
