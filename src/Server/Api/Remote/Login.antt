-- ===== src/Server/Api/Remote/Login.antt =====
-- The login at a remote host.
use mcmon.Prelude.{◌≡◌, refl, inl, inr, String, str_eq, Option, none, some, ◌==◌, Bool-cases}
use mcmon.Config.Store.{Json, World}
use mcmon.Server.Proxy.{NetPackage, UrlPackage, accepted, dial_context, normalize_remote_host}
use mcmon.Server.Api.{panicked, LoginRequest, LoginReply}
use mcmon.Server.Api.Remote.{
  Outgoing, Sent, send_error, send_panic, received, Client, login_request, after_decode, after_send,
  send_login, login_to, post_login,
}
use mcmon.Server.Api.Remote.Safe.{
  Normalized-cases, IsPermitted, IsRemoteSafe, IsCareful, answer-IsCareful, answer_sent-IsCareful,
  with_status-IsExcused, save_remote-IsCareful,
}

module _ (net : NetPackage) (url : UrlPackage) (json : Json) (path : String) (client : Client) where
  after_decode-IsCareful :
      (req : Outgoing) (host : String) (form : LoginRequest) (o : Option LoginReply) (w : World)
      → IsRemoteSafe net url w
      → ((raw : String) × (normalize_remote_host net url raw ≡ accepted host))
      → IsPermitted net url w req
      → IsCareful net url client w (after_decode json path client req host form o w)
  unfolding after_decode
  after_decode-IsCareful req host form none w safe from ok =
      answer_sent-IsCareful net url client w req _ tt safe ok
  after_decode-IsCareful req host form (some reply) w safe from ok =
      elim (Bool-cases (str_eq reply.session_token "")) [
        | inl empty ↦ rw empty (answer_sent-IsCareful net url client w req _ tt safe ok)
        | inr given ↦ rw given (
            save_remote-IsCareful net url json path client w (some req) _ host _ reply.session_token
              (inr from) ok)
      ]

  after_send-IsCareful :
      (req : Outgoing) (host : String) (form : LoginRequest) (o : Sent) (w : World)
      → client.send (dial_context net) req ≡ o
      → IsRemoteSafe net url w
      → ((raw : String) × (normalize_remote_host net url raw ≡ accepted host))
      → IsPermitted net url w req
      → IsCareful net url client w (after_send json path client req host form o w)
  unfolding after_send
  after_send-IsCareful req host form send_error w e safe from ok =
      answer_sent-IsCareful net url client w req _ tt safe ok
  after_send-IsCareful req host form send_panic w e safe from ok =
      answer_sent-IsCareful net url client w req panicked (rw e tt) safe ok
  after_send-IsCareful req host form (received resp) w e safe from ok =
      elim (Bool-cases (resp.status == 200)) [
        | inr other ↦ rw other (
            answer_sent-IsCareful net url client w req _
              (with_status-IsExcused net url client req resp e _) safe ok)
        | inl fine ↦ rw fine (
            after_decode-IsCareful req host form (client.decode_login (resp.body 1048576)) w safe
              from ok)
      ]

  send_login-IsCareful :
      (host : String) (form : LoginRequest) (payload : Option String) (w : World)
      → IsRemoteSafe net url w
      → ((raw : String) × (normalize_remote_host net url raw ≡ accepted host))
      → IsCareful net url client w (send_login json path net url client host form payload w)
  unfolding send_login login_request
  send_login-IsCareful host form none w safe from = answer-IsCareful net url client w _ tt safe
  send_login-IsCareful host form (some payload) w safe from =
      let req = login_request host payload in
      elim (Bool-cases (client.accepts req.url)) [
        | inr bad ↦ rw bad (answer-IsCareful net url client w _ tt safe)
        | inl good ↦ rw good (
            after_send-IsCareful req host form (client.send (dial_context net) req) w refl safe from
              (record {
                host = host;
                allowed = (from.0, host, from.1, inl refl);
                rest = "/api/auth/login";
                to_host = refl;
                token = inl refl;
              }))
      ]

  pub post_login-IsCareful :
      (o : Option (String × LoginRequest)) (w : World)
      → IsRemoteSafe net url w
      → IsCareful net url client w (post_login json path net url client o w)
  unfolding post_login login_to
  post_login-IsCareful none w safe = answer-IsCareful net url client w _ tt safe
  post_login-IsCareful (some (raw, form)) w safe =
      elim (Normalized-cases (normalize_remote_host net url raw)) [
        | inl (f, e) ↦ rw (e, login_to) (answer-IsCareful net url client w _ tt safe)
        | inr (host, e) ↦ rw (e, login_to) (send_login-IsCareful host form _ w safe (raw, e))
      ]
