-- ===== src/Server/Proxy.antt =====
-- normalizeRemoteHost and the DialContext of safeProxyTransport, of internal/app/server.go. The
-- packages net and net/url are arguments.
pub mod Safe
use mcmon.Prelude.{
  String, str_eq, Bool, true, false, not, ◌&&◌, ◌||◌, Option, none, some, List, [], ◌∷◌, any,
  length, ◌==◌, is_blank, trim_space, trim_slashes, if◌then◌else◌,
}
use mcmon.Server.Address.{Ip, is_blocked_remote_ip}

-- `net.SplitHostPort`, the resolver's `LookupIPAddr` and `net.ParseIP`; `none` is their error, and
-- the nil of ParseIP is empty.
pub record NetPackage : Type 0 where
  pub split_host_port : String → Option (String × String)
  pub lookup : String → Option (List Ip)
  pub parse_ip : String → Ip

-- What is read of a `*url.URL`; `has_user` is `u.User != nil`, and `host_name` is `u.Hostname()`.
pub record Url : Type 0 where
  pub scheme : String
  pub host : String
  pub has_user : Bool
  pub raw_query : String
  pub fragment : String
  pub host_name : String
  pub escaped_path : String

-- `url.Parse`, and `u.String()` once `u.Path` is set.
pub record UrlPackage : Type 0 where
  pub parse : String → Option Url
  pub print : Url → String → String

-- How DialContext goes on: it dials an address and a port, returns an error, or panics.
pub data Dial : Type 0 where
  dials : Ip → String → Dial
  refuses : Dial
  panics : Dial

unfoldable pub dial_first : String → List Ip → Dial
dial_first port [] = panics
dial_first port (ip ∷ ips) = dials ip port

unfoldable pub dial_context : NetPackage → String → Dial
dial_context net addr = elim (net.split_host_port addr) [
  | none ↦ refuses
  | some (host, port) ↦ elim (net.lookup host) [
    | none ↦ refuses
    | some ips ↦ if any is_blocked_remote_ip ips then refuses else dial_first port ips
  ]
]

pub data Fault : Type 0 where
  not_absolute bad_scheme has_user_info has_query no_host blocked_ip : Fault

pub data Normalized : Type 0 where
  accepted : String → Normalized
  refused : Fault → Normalized

abbrev pub refuse_if : Bool → Fault → Normalized → Normalized
refuse_if test fault next = if test then refused fault else next

unfoldable pub checked : NetPackage → UrlPackage → Url → Normalized
checked net url u =
    let ip = net.parse_ip u.host_name in
    refuse_if (str_eq u.scheme "" || str_eq u.host "") not_absolute (
      refuse_if (not (str_eq u.scheme "http") && not (str_eq u.scheme "https")) bad_scheme (
        refuse_if u.has_user has_user_info (
          refuse_if (not (is_blank u.raw_query) || not (is_blank u.fragment)) has_query (
            refuse_if (str_eq u.host_name "") no_host (
              refuse_if (not (length ip == 0) && is_blocked_remote_ip ip) blocked_ip
                (accepted (trim_slashes (url.print u (trim_slashes u.escaped_path)))))))))

unfoldable pub normalize_remote_host : NetPackage → UrlPackage → String → Normalized
normalize_remote_host net url raw = elim (url.parse (trim_space raw)) [
  | none ↦ refused not_absolute
  | some u ↦ checked net url u
]
