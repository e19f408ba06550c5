-- ===== src/Server/Api/Remote/Safe.antt =====
-- Where the handlers of /api/remote send requests and credentials.
use mcmon.Prelude.{
  ◌≡◌, refl, ◌⊎◌, inl, inr, String, str_eq, false, Option, none, some, trim_space, Bool-cases,
}
use Prim.Native.String.{◌++◌}
use mcmon.Config.Store.{
  Json, World, Reply, saved, rejected, not_written, stopped, set_remote_config, persist,
}
use mcmon.Server.Proxy.{
  NetPackage, UrlPackage, Normalized, accepted, refused, dial_context, normalize_remote_host,
}
use mcmon.Server.Api.{Reaction, responded, halted, panicked, Content, is_status, with_status}
use mcmon.Server.Api.Remote.{
  Sent, send_error, send_panic, received, Incoming, Client, Outgoing, Result, answer, answer_sent,
  after_set, save_remote, save_settings, save_normalized, post_remote_config,
}

pub Normalized-cases :
    (n : Normalized) → ((f : _) × (n ≡ refused f)) ⊎ ((host : String) × (n ≡ accepted host))
Normalized-cases (refused f) = inl (f, refl)
Normalized-cases (accepted host) = inr (host, refl)

-- What the host's answer is where a handler panics on it: a status that does not have three digits; or
-- the sending itself panicked.
abbrev pub IsBadReply : Sent → Type 0
IsBadReply send_error = ⊥
IsBadReply send_panic = Unit
IsBadReply (received resp) = is_status resp.status ≡ false

module _ (net : NetPackage) (url : UrlPackage) where
  -- A text that normalizeRemoteHost accepts, or what it makes of one.
  abbrev pub IsAllowedHost : String → Type 0
  IsAllowedHost host =
      (raw : String) × (normal : String) × (normalize_remote_host net url raw ≡ accepted normal)
      × ((host ≡ normal) ⊎ (host ≡ raw))

  -- A request to an allowed host. It bears a session token only if that host is the one that the
  -- configuration holds, and the token is the one held with it.
  pub record IsPermitted (w : World) (req : Outgoing) : Type 0 where
    pub host : String
    pub allowed : IsAllowedHost host
    pub rest : String
    pub to_host : req.url ≡ host ++ rest
    pub token :
        (req.authorization ≡ none)
        ⊎ ((host ≡ w.cfg.remote_host)
            × (req.authorization ≡ some ("Bearer " ++ w.cfg.remote_session_token)))

  -- The stored host is empty or came out of normalizeRemoteHost.
  abbrev pub IsRemoteSafe : World → Type 0
  IsRemoteSafe w =
      (w.cfg.remote_host ≡ "")
      ⊎ ((raw : String) × (normalize_remote_host net url raw ≡ accepted w.cfg.remote_host))

  abbrev pub SentPermitted : World → Option Outgoing → Type 0
  SentPermitted w none = Unit
  SentPermitted w (some req) = IsPermitted w req

  -- A handler panics only on what came of the request that it has sent.
  abbrev pub IsExcused : Client → Reaction → Option Outgoing → Type 0
  IsExcused client (responded r) sent = Unit
  IsExcused client halted sent = Unit
  IsExcused client panicked none = ⊥
  IsExcused client panicked (some req) = IsBadReply (client.send (dial_context net) req)

  -- What a handler leaves, of the configuration `w` before.
  pub record IsCareful (client : Client) (w : World) (r : Result) : Type 0 where
    pub stored : IsRemoteSafe r.world
    pub sent : SentPermitted w r.sent
    pub same_targets : r.world.cfg.targets ≡ w.cfg.targets
    pub calm : IsExcused client r.reaction r.sent

  pub answer-IsCareful :
      (client : Client) (w : World) (reaction : Reaction)
      → IsExcused client reaction none
      → IsRemoteSafe w
      → IsCareful client w (answer reaction w)
  answer-IsCareful client w reaction calm safe = record {
    stored = safe;
    sent = tt;
    same_targets = refl;
    calm = calm;
  }

  pub answer_sent-IsCareful :
      (client : Client) (w : World) (req : Outgoing) (reaction : Reaction)
      → IsExcused client reaction (some req)
      → IsRemoteSafe w
      → IsPermitted w req
      → IsCareful client w (answer_sent req reaction w)
  answer_sent-IsCareful client w req reaction calm safe ok = record {
    stored = safe;
    sent = ok;
    same_targets = refl;
    calm = calm;
  }

  pub with_status-IsExcused :
      (client : Client) (req : Outgoing) (resp : Incoming)
      → client.send (dial_context net) req ≡ received resp
      → (content : Content) → IsExcused client (with_status resp.status content) (some req)
  with_status-IsExcused client req resp e content = elim (Bool-cases (is_status resp.status)) [
    | inl fine ↦ rw fine tt
    | inr bad ↦ rw (bad, e) bad
  ]

  after_set-IsExcused :
      (client : Client) (sent : Option Outgoing) (content : Content) (reply : Reply (Unit {0}))
      → IsExcused client (after_set content reply) sent
  unfolding after_set
  after_set-IsExcused client sent content (saved a) = tt
  after_set-IsExcused client sent content (rejected e) = tt
  after_set-IsExcused client sent content not_written = tt
  after_set-IsExcused client sent content stopped = tt

  module _ (json : Json) (path : String) (client : Client) where
    pub save_remote-IsCareful :
        (w : World) (sent : Option Outgoing) (content : Content) (host username token : String)
        → (host ≡ "") ⊎ ((raw : String) × (normalize_remote_host net url raw ≡ accepted host))
        → SentPermitted w sent
        → IsCareful client w (save_remote json path sent content host username token w)
    unfolding save_remote set_remote_config persist
    save_remote-IsCareful w sent content host username token allowed ok = record {
      stored = allowed;
      sent = ok;
      same_targets = refl;
      calm =
          after_set-IsExcused client sent content
            (set_remote_config json path host username token w).0;
    }

    pub post_remote_config-IsCareful :
        (o : Option (String × String)) (w : World)
        → IsRemoteSafe w
        → IsCareful client w (post_remote_config json path net url o w)
    unfolding post_remote_config save_normalized save_settings
    post_remote_config-IsCareful none w safe = answer-IsCareful client w _ tt safe
    post_remote_config-IsCareful (some (raw, name)) w safe =
        elim (Bool-cases (str_eq (trim_space raw) "")) [
          | inl empty ↦
              rw empty (save_remote-IsCareful w none _ "" (trim_space name) "" (inl refl) tt)
          | inr given ↦ elim (Normalized-cases (normalize_remote_host net url (trim_space raw))) [
            | inl (f, e) ↦ rw (given, e, save_normalized) (answer-IsCareful client w _ tt safe)
            | inr (host, e) ↦
                rw (given, e, save_normalized)
                  (save_remote-IsCareful w none _ host (trim_space name) ""
                    (inr (trim_space raw, e)) tt)
          ]
        ]
