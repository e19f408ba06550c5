-- ===== src/Server/Proxy/Safe.antt =====
-- The proxy dials no address that is refused, and accepts no such host.
use mcmon.Prelude.{
  ℕ, ◌≡◌, ◌≢◌, ◌⊎◌, inl, inr, refl, String, str_eq, eq_iff, Bool, true, false, not, ◌&&◌, ◌||◌,
  some, List, [], ◌∷◌, any, length, ◌==◌, is_blank, trim_space, trim_slashes, trim_slashes_idem,
  arith, All, Bool-cases, Option-cases,
}
use mathlib.Core.Path.{subst}
use mcmon.Server.Address.{Ip, is_blocked_remote_ip}
use mcmon.Server.Proxy.{
  NetPackage, Url, UrlPackage, dials, dial_first, dial_context, Fault, not_absolute, bad_scheme,
  has_user_info, has_query, no_host, blocked_ip, accepted, refuse_if, checked,
  normalize_remote_host,
}

-- What DialContext dials, by the answer of the resolver.
pub record Allowed (net : NetPackage) (addr : String) (ip : Ip) (port : String) : Type 0 where
  pub host : String
  pub others : List Ip
  pub split : net.split_host_port addr ≡ some (host, port)
  pub looked_up : net.lookup host ≡ some (ip ∷ others)
  pub clear : All (λ x. is_blocked_remote_ip x ≡ false) (ip ∷ others)

any-All : (p : Ip → Bool) (ips : List Ip) → any p ips ≡ false → All (λ x. p x ≡ false) ips
any-All p [] h = tt
any-All p (ip ∷ ips) h = (ground arith, any-All p ips (ground arith))

-- If DialContext dials, it dials the port that was asked for, at the first address that the resolver gave
-- for the host in this very call, and none of the addresses that it gave is blocked.
pub dial_context-Allowed :
    (net : NetPackage) (addr : String) (ip : Ip) (port : String)
    → dial_context net addr ≡ dials ip port
    → Allowed net addr ip port
unfolding dial_context dial_first
dial_context-Allowed net addr ip port h = elim (Option-cases (net.split_host_port addr)) [
  | inl bad ↦ absurd (cc (rw (bad, dial_context) at h))
  | inr ((host, port'), split) ↦ elim (Option-cases (net.lookup host)) [
    | inl unknown ↦ absurd (cc (rw (split, unknown, dial_context) at h))
    | inr (ips, found) ↦ elim (Bool-cases (any is_blocked_remote_ip ips)) [
      | inl blocked ↦ absurd (cc (rw (split, found, blocked, dial_context) at h))
      | inr clear ↦
          first ips port' host split found clear (rw (split, found, clear, dial_context) at h)
    ]
  ]
]
  where
    first :
        (ips : List Ip) (port' host : String)
        → net.split_host_port addr ≡ some (host, port')
        → net.lookup host ≡ some ips
        → any is_blocked_remote_ip ips ≡ false
        → dial_first port' ips ≡ dials ip port
        → Allowed net addr ip port
    first [] port' host split found clear h = absurd (cc h)
    first (x ∷ others) port' host split found clear h = record {
      host = host;
      others = others;
      split = rw split (cc h);
      looked_up = rw found (cc h);
      clear =
          subst (λ y. All (λ z. is_blocked_remote_ip z ≡ false) (y ∷ others)) (cc h)
            (any-All is_blocked_remote_ip (x ∷ others) clear);
    }

-- What an accepted remote host is.
pub record Accepted (net : NetPackage) (url : UrlPackage) (raw result : String) : Type 0 where
  pub u : Url
  pub parsed : url.parse (trim_space raw) ≡ some u
  pub scheme : (u.scheme ≡ "http") ⊎ (u.scheme ≡ "https")
  pub no_user : u.has_user ≡ false
  pub no_query : is_blank u.raw_query ≡ true
  pub no_fragment : is_blank u.fragment ≡ true
  pub named : (u.host ≢ "") × (u.host_name ≢ "")
  pub clear :
      (length (net.parse_ip u.host_name) ≡ 0)
      ⊎ (is_blocked_remote_ip (net.parse_ip u.host_name) ≡ false)
  pub printed : result ≡ trim_slashes (url.print u (trim_slashes u.escaped_path))
  pub no_slash : trim_slashes result ≡ result

-- A host passes if no test finds a fault.
all_pass :
    (b1 b2 b3 b4 b5 b6 : Bool) (e1 e2 e3 e4 e5 e6 : Fault) (r s : String)
    → refuse_if b1 e1 (
        refuse_if b2 e2
          (refuse_if b3 e3 (refuse_if b4 e4 (refuse_if b5 e5 (refuse_if b6 e6 (accepted r))))))
      ≡ accepted s
    → (b1 ≡ false)
      × (b2 ≡ false)
      × (b3 ≡ false)
      × (b4 ≡ false)
      × (b5 ≡ false)
      × (b6 ≡ false)
      × (s ≡ r)
all_pass b1 b2 b3 b4 b5 b6 e1 e2 e3 e4 e5 e6 r s h = ground arith

||_false : (a b : Bool) → a || b ≡ false → (a ≡ false) × (b ≡ false)
||_false true b h = cc
||_false false b h = (refl, h)

str_eq-≢ : (a b : String) → str_eq a b ≡ false → a ≢ b
str_eq-≢ a b h = λ e. cc (h, (eq_iff a b).1 e)

not-false : (b : Bool) → not b ≡ false → b ≡ true
not-false true h = refl
not-false false h = cc

clear_of_test : (n : ℕ) (b : Bool) → not (n == 0) && b ≡ false → (n ≡ 0) ⊎ (b ≡ false)
clear_of_test n b h = ground arith

either : (a b : Bool) → not a && not b ≡ false → (a ≡ true) ⊎ (b ≡ true)
either true b h = inl refl
either false true h = inr refl
either false false h = cc

module _ (net : NetPackage) (url : UrlPackage) (raw s : String) where
  checked-Accepted :
      (u : Url)
      → url.parse (trim_space raw) ≡ some u
      → checked net url u ≡ accepted s
      → Accepted net url raw s
  unfolding checked
  checked-Accepted u parsed h =
      let ip = net.parse_ip u.host_name in
      let (absolute, web, no_user, no_query, has_name, clear, printed) =
        all_pass (str_eq u.scheme "" || str_eq u.host "")
          (not (str_eq u.scheme "http") && not (str_eq u.scheme "https")) u.has_user
          (not (is_blank u.raw_query) || not (is_blank u.fragment)) (str_eq u.host_name "")
          (not (length ip == 0) && is_blocked_remote_ip ip) not_absolute bad_scheme has_user_info
          has_query no_host blocked_ip (trim_slashes (url.print u (trim_slashes u.escaped_path))) s
          h in
      let (has_scheme, has_host) = ||_false _ _ absolute in
      let (no_raw, no_fragment) = ||_false _ _ no_query in
      record {
        u = u;
        parsed = parsed;
        scheme = elim (either _ _ web) [
          | inl http ↦ inl ((eq_iff u.scheme "http").0 http)
          | inr https ↦ inr ((eq_iff u.scheme "https").0 https)
        ];
        no_user = no_user;
        no_query = not-false _ no_raw;
        no_fragment = not-false _ no_fragment;
        named = (str_eq-≢ u.host "" has_host, str_eq-≢ u.host_name "" has_name);
        clear = clear_of_test (length ip) (is_blocked_remote_ip ip) clear;
        printed = printed;
        no_slash = rw printed (trim_slashes_idem _);
      }

  -- A remote host that normalizeRemoteHost accepts is an absolute http or https URL without user info,
  -- query or fragment, whose host is no blocked IP address; and the result ends in no slash.
  pub normalize_remote_host-Accepted :
      normalize_remote_host net url raw ≡ accepted s → Accepted net url raw s
  unfolding normalize_remote_host
  normalize_remote_host-Accepted h = elim (Option-cases (url.parse (trim_space raw))) [
    | inl bad ↦ absurd (cc (rw (bad, normalize_remote_host) at h))
    | inr (u, parsed) ↦ checked-Accepted u parsed (rw (parsed, normalize_remote_host) at h)
  ]
