-- ===== src/Server/Fixtures.antt =====
-- A resolver, and a parser of URLs, that know what the tests ask for.
use mcmon.Prelude.{
  ◌≡◌, refl, false, none, some, str_eq, [], ◌∷◌, if◌then◌else◌, trim_space, trim_slashes, is_blank,
}
use mcmon.Server.Proxy.{NetPackage, Url, UrlPackage, accepted, checked, normalize_remote_host}

-- A resolver that knows two names, and a parser that knows one address.
abbrev pub net : NetPackage
net = record {
  split_host_port = λ addr.
      if str_eq addr "good:443"
      then some ("good", "443")
      else if str_eq addr "bad:443"
      then some ("bad", "443")
      else none;
  lookup = λ host.
      if str_eq host "good"
      then some ((93 ∷ 184 ∷ 216 ∷ 34 ∷ []) ∷ [])
      else some ((93 ∷ 184 ∷ 216 ∷ 34 ∷ []) ∷ (10 ∷ 0 ∷ 0 ∷ 1 ∷ []) ∷ []);
  parse_ip = λ host. if str_eq host "10.0.0.1" then 10 ∷ 0 ∷ 0 ∷ 1 ∷ [] else [];
}

abbrev pub good_url : Url
good_url = record {
  scheme = "https";
  host = "good:443";
  has_user = false;
  raw_query = "";
  fragment = "";
  host_name = "good";
  escaped_path = "/mc/";
}

-- A parser that knows one URL, and a printer for it.
abbrev pub url : UrlPackage
url = record {
  parse = λ raw. if str_eq raw "https://good:443/mc/" then some good_url else none;
  print = λ u path. "https://good:443/mc";
}

pub good_accepted :
    normalize_remote_host net url " https://good:443/mc/" ≡ accepted "https://good:443/mc"
unfolding normalize_remote_host checked trim_space trim_slashes is_blank
good_accepted = refl
