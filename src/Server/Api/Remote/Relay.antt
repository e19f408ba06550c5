-- ===== src/Server/Api/Remote/Relay.antt =====
-- The relay of requests to a remote host, and what the three handlers of /api/remote have in common.
use mcmon.Prelude.{◌≡◌, refl, inl, inr, String, str_eq, Bool-cases}
use mcmon.Config.Store.{Json, World}
use mcmon.Server.Proxy.{
  NetPackage, UrlPackage, Normalized, accepted, refused, dial_context, normalize_remote_host,
}
use mcmon.Server.Api.{
  Method, method_get, method_post, method_put, method_delete, other_method, panicked, Codec,
}
use mcmon.Server.Api.Remote.{
  Outgoing, Sent, send_error, send_panic, received, Client, handle_remote_config, handle_login,
  proxy_request, after_proxy, proxy, handle_remote,
}
use mcmon.Server.Api.Remote.Safe.{
  with_status-IsExcused, IsPermitted, IsRemoteSafe, IsCareful, answer-IsCareful,
  answer_sent-IsCareful, post_remote_config-IsCareful,
}
use mcmon.Server.Api.Remote.Login.{post_login-IsCareful}

module _ (net : NetPackage) (url : UrlPackage) (client : Client) where
  proxy_request-IsPermitted :
      (w : World) (url_path raw_query normal : String)
      → normalize_remote_host net url w.cfg.remote_host ≡ accepted normal
      → IsPermitted net url w
          (proxy_request w.cfg.remote_host w.cfg.remote_session_token url_path raw_query)
  unfolding proxy_request
  proxy_request-IsPermitted w url_path raw_query normal e = record {
    host = w.cfg.remote_host;
    allowed = (w.cfg.remote_host, normal, e, inr refl);
    rest = _;
    to_host = refl;
    token = elim (Bool-cases (str_eq w.cfg.remote_session_token "")) [
      | inl empty ↦ inl (rw empty refl)
      | inr given ↦ inr (refl, rw given refl)
    ];
  }

  after_proxy-IsCareful :
      (req : Outgoing) (o : Sent) (w : World)
      → client.send (dial_context net) req ≡ o
      → IsRemoteSafe net url w
      → IsPermitted net url w req
      → IsCareful net url client w (after_proxy net url client req o w)
  unfolding after_proxy
  after_proxy-IsCareful req send_error w e safe ok =
      answer_sent-IsCareful net url client w req _ tt safe ok
  after_proxy-IsCareful req send_panic w e safe ok =
      answer_sent-IsCareful net url client w req panicked (rw e tt) safe ok
  after_proxy-IsCareful req (received resp) w e safe ok =
      answer_sent-IsCareful net url client w req _
        (with_status-IsExcused net url client req resp e _) safe ok

  proxy-IsCareful :
      (n : Normalized) (req : Outgoing) (w : World)
      → IsRemoteSafe net url w
      → ((normal : String) → n ≡ accepted normal → IsPermitted net url w req)
      → IsCareful net url client w (proxy net url client n req w)
  unfolding proxy
  proxy-IsCareful (refused f) req w safe ok = answer-IsCareful net url client w _ tt safe
  proxy-IsCareful (accepted normal) req w safe ok = elim (Bool-cases (client.accepts req.url)) [
    | inr bad ↦ rw bad (answer-IsCareful net url client w _ tt safe)
    | inl good ↦ rw good (
        after_proxy-IsCareful req (client.send (dial_context net) req) w refl safe (ok normal refl))
  ]

  get_remote-IsCareful :
      (url_path raw_query : String) (w : World)
      → IsRemoteSafe net url w
      → IsCareful net url client w (handle_remote net url client method_get url_path raw_query w)
  unfolding handle_remote
  get_remote-IsCareful url_path raw_query w safe = elim (Bool-cases (str_eq w.cfg.remote_host "")) [
    | inl empty ↦ rw empty (answer-IsCareful net url client w _ tt safe)
    | inr given ↦ rw given (
        proxy-IsCareful (normalize_remote_host net url w.cfg.remote_host) _ w safe
          (λ normal e. proxy_request-IsPermitted w url_path raw_query normal e))
  ]

module _ (net : NetPackage) (url : UrlPackage) (client : Client) (json : Json) (path : String)
    (codec : Codec) (w : World) (safe : IsRemoteSafe net url w) (body : String) where
  handle_remote_config-IsCareful :
      (method : Method)
      → IsCareful net url client w (handle_remote_config json path net url codec method body w)
  unfolding handle_remote_config
  handle_remote_config-IsCareful method_get = answer-IsCareful net url client w _ tt safe
  handle_remote_config-IsCareful method_post =
      post_remote_config-IsCareful net url json path client (codec.remote body) w safe
  handle_remote_config-IsCareful method_put = answer-IsCareful net url client w _ tt safe
  handle_remote_config-IsCareful method_delete = answer-IsCareful net url client w _ tt safe
  handle_remote_config-IsCareful other_method = answer-IsCareful net url client w _ tt safe

  handle_login-IsCareful :
      (method : Method)
      → IsCareful net url client w (handle_login json path net url codec client method body w)
  unfolding handle_login
  handle_login-IsCareful method_post =
      post_login-IsCareful net url json path client (codec.login body) w safe
  handle_login-IsCareful method_get = answer-IsCareful net url client w _ tt safe
  handle_login-IsCareful method_put = answer-IsCareful net url client w _ tt safe
  handle_login-IsCareful method_delete = answer-IsCareful net url client w _ tt safe
  handle_login-IsCareful other_method = answer-IsCareful net url client w _ tt safe

  handle_remote-IsCareful :
      (method : Method) (url_path raw_query : String)
      → IsCareful net url client w (handle_remote net url client method url_path raw_query w)
  unfolding handle_remote
  handle_remote-IsCareful method_get url_path raw_query =
      get_remote-IsCareful net url client url_path raw_query w safe
  handle_remote-IsCareful method_post url_path raw_query =
      answer-IsCareful net url client w _ tt safe
  handle_remote-IsCareful method_put url_path raw_query =
      answer-IsCareful net url client w _ tt safe
  handle_remote-IsCareful method_delete url_path raw_query =
      answer-IsCareful net url client w _ tt safe
  handle_remote-IsCareful other_method url_path raw_query =
      answer-IsCareful net url client w _ tt safe

  -- Whatever is asked of the three handlers of /api/remote: they keep the stored host empty or one that
  -- came out of normalizeRemoteHost; a request that they send goes to a host that it accepts, with a URL
  -- that begins with it; and the request bears a session token only if that host is the stored one, and
  -- then the stored token.
  pub remote-IsCareful :
      (method : Method) (url_path raw_query : String)
      → IsCareful net url client w (handle_remote_config json path net url codec method body w)
        × IsCareful net url client w (handle_login json path net url codec client method body w)
        × IsCareful net url client w (handle_remote net url client method url_path raw_query w)
  remote-IsCareful method url_path raw_query = (
    handle_remote_config-IsCareful method,
    handle_login-IsCareful method,
    handle_remote-IsCareful method url_path raw_query,
  )
