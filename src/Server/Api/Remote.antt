-- ===== src/Server/Api/Remote.antt =====
-- The handlers of /api/remote/config, /api/remote/login and /api/remote/…, of internal/app/server.go. The HTTP
-- client of the Go library is the argument `client`.
pub mod Safe
pub mod Login
pub mod Relay
use mcmon.Prelude.{
  ℕ, String, str_eq, Bool, true, false, Option, none, some, is_blank, trim_space, trim_prefix, ◌==◌,
  if◌then◌else◌,
}
use Prim.Native.String.{◌++◌}
use mcmon.Config.Store.{
  Json, World, Reply, saved, rejected, not_written, stopped, set_remote_config,
}
use mcmon.Server.Proxy.{
  NetPackage, UrlPackage, Dial, Normalized, accepted, refused, dial_context, normalize_remote_host,
}
use mcmon.Server.Api.{
  Method, method_get, method_post, method_put, method_delete, other_method, LoginRequest,
  LoginReply, Content, remote_settings, login, relayed, text, invalid_json, invalid_target,
  write_error, marshal_error, bad_host, login_error, proxy_error, invalid_login, Reaction, halted,
  panicked, error, with_status, ok, http_error, method_not_allowed, Codec,
}

-- A request to a remote host, with the headers that the handlers set.
pub record Outgoing : Type 0 where
  pub method : Method
  pub url : String
  pub content_type : Option String
  pub authorization : Option String
  pub body : String

-- Its response; `body n` is what is read of the body through a limit of n bytes.
pub record Incoming : Type 0 where
  pub status : ℕ
  pub content_type : String
  pub body : ℕ → String

-- How `client.Do` ends: with an error, with a response of whatever status the host sends, or with a panic,
-- of DialContext.
pub data Sent : Type 0 where
  send_error send_panic : Sent
  received : Incoming → Sent

-- `http.NewRequest` accepts a URL; `client.Do` with a transport that dials so; and json.Marshal and the
-- decoder for the two sides of a login.
pub record Client : Type 0 where
  pub accepts : String → Bool
  pub send : (String → Dial) → Outgoing → Sent
  pub marshal_login : LoginRequest → Option String
  pub decode_login : String → Option LoginReply

-- What a handler comes to: its reaction, the configuration, and the request that it has sent, if any.
pub record Result : Type 0 where
  pub reaction : Reaction
  pub world : World
  pub sent : Option Outgoing

abbrev pub answer : Reaction → World → Result
answer reaction w = record { reaction = reaction; world = w; sent = none }

abbrev pub answer_sent : Outgoing → Reaction → World → Result
answer_sent req reaction w = record { reaction = reaction; world = w; sent = some req }

-- What follows SetRemoteConfig.
unfoldable pub after_set : Content → Reply (Unit {0}) → Reaction
after_set content (saved a) = ok content
after_set content (rejected e) = http_error 500 (invalid_target "" e)
after_set content not_written = http_error 500 (write_error "")
after_set content stopped = halted

-- What is sent for a login, from the fields of the form.
unfoldable pub login_body : LoginRequest → LoginRequest
login_body form = record {
  username = trim_space form.username;
  password = form.password;
  totp_code = elim form.totp_code [
    | none ↦ none
    | some code ↦ if is_blank code then none else some (trim_space code)
  ];
}

unfoldable pub login_request : String → String → Outgoing
login_request host_url payload = record {
  method = method_post;
  url = host_url ++ "/api/auth/login";
  content_type = some "application/json";
  authorization = none;
  body = payload;
}

unfoldable pub proxy_request : String → String → String → String → Outgoing
proxy_request host_url session_token url_path raw_query = record {
  method = method_get;
  url =
      host_url
      ++ ("/api"
          ++ (trim_prefix "/api/remote" url_path
              ++ (if str_eq raw_query "" then "" else "?" ++ raw_query)));
  content_type = none;
  authorization = if str_eq session_token "" then none else some ("Bearer " ++ session_token);
  body = "";
}

module _ (json : Json) (path : String) where
  unfoldable pub save_remote : Option Outgoing → Content → String → String → String → World → Result
  save_remote sent content host_url username session_token w =
      let (reply, w') = set_remote_config json path host_url username session_token w in
      record { reaction = after_set content reply; world = w'; sent = sent }

  save_settings : String → String → World → Result
  save_settings host_url username w =
      save_remote none (remote_settings host_url username "") host_url username "" w

  save_normalized : Normalized → String → World → Result
  unfolding save_settings
  save_normalized (refused fault) username w = answer (http_error 400 (bad_host fault)) w
  save_normalized (accepted host_url) username w = save_settings host_url username w

  module _ (client : Client) where
    -- The reply of the host to a login, once it is decoded.
    unfoldable pub after_decode :
        Outgoing → String → LoginRequest → Option LoginReply → World → Result
    after_decode req host_url form none w = answer_sent req (http_error 502 invalid_login) w
    after_decode req host_url form (some reply) w =
        if str_eq reply.session_token ""
        then answer_sent req
            (http_error 502 (text "host login response did not include session token")) w
        else save_remote (some req) (login reply) host_url
            (if str_eq reply.username "" then trim_space form.username else reply.username)
            reply.session_token w

    unfoldable pub after_send : Outgoing → String → LoginRequest → Sent → World → Result
    after_send req host_url form send_error w = answer_sent req (http_error 502 login_error) w
    after_send req host_url form send_panic w = answer_sent req panicked w
    after_send req host_url form (received resp) w =
        let next = after_decode req host_url form (client.decode_login (resp.body 1048576)) w in
        if resp.status == 200
        then next
        else answer_sent req
            (with_status resp.status (error (text (trim_space (resp.body 1048576))))) w

  module _ (net : NetPackage) (url : UrlPackage) where
    unfoldable pub post_remote_config : Option (String × String) → World → Result
    unfolding save_settings save_normalized
    post_remote_config none w = answer (http_error 400 invalid_json) w
    post_remote_config (some (raw_url, raw_name)) w =
        let host_url = trim_space raw_url in
        let username = trim_space raw_name in
        if str_eq host_url ""
        then save_settings "" username w
        else save_normalized (normalize_remote_host net url host_url) username w

    module _ (client : Client) where
      unfoldable pub send_login : String → LoginRequest → Option String → World → Result
      send_login host_url form none w = answer (http_error 500 marshal_error) w
      send_login host_url form (some payload) w =
          let req = login_request host_url payload in
          if client.accepts req.url
          then after_send client req host_url form (client.send (dial_context net) req) w
          else answer (http_error 502 login_error) w

      unfoldable pub login_to : Normalized → LoginRequest → World → Result
      login_to (refused fault) form w = answer (http_error 400 (bad_host fault)) w
      login_to (accepted host_url) form w =
          send_login host_url form (client.marshal_login (login_body form)) w

      unfoldable pub post_login : Option (String × LoginRequest) → World → Result
      post_login none w = answer (http_error 400 invalid_json) w
      post_login (some (raw_url, form)) w = login_to (normalize_remote_host net url raw_url) form w

    module _ (codec : Codec) where
      -- /api/remote/config
      unfoldable pub handle_remote_config : Method → String → World → Result
      handle_remote_config method_get body w =
          answer
            (ok
              (remote_settings w.cfg.remote_host w.cfg.remote_username w.cfg.remote_session_token))
            w
      handle_remote_config method_post body w = post_remote_config (codec.remote body) w
      handle_remote_config _ body w = answer method_not_allowed w

      module _ (client : Client) where
        -- /api/remote/login
        unfoldable pub handle_login : Method → String → World → Result
        handle_login method_post body w = post_login client (codec.login body) w
        handle_login _ body w = answer method_not_allowed w

module _ (net : NetPackage) (url : UrlPackage) (client : Client) where
  unfoldable pub after_proxy : Outgoing → Sent → World → Result
  after_proxy req send_error w = answer_sent req (http_error 502 proxy_error) w
  after_proxy req send_panic w = answer_sent req panicked w
  after_proxy req (received resp) w =
      answer_sent req (with_status resp.status (relayed resp.content_type (resp.body 16777216))) w

  unfoldable pub proxy : Normalized → Outgoing → World → Result
  proxy (refused fault) req w = answer (http_error 400 (bad_host fault)) w
  proxy (accepted host_url) req w =
      if client.accepts req.url
      then after_proxy req (client.send (dial_context net) req) w
      else answer (http_error 502 proxy_error) w

  -- /api/remote/…
  unfoldable pub handle_remote : Method → String → String → World → Result
  handle_remote method_get url_path raw_query w =
      let host_url = w.cfg.remote_host in
      let req = proxy_request host_url w.cfg.remote_session_token url_path raw_query in
      if str_eq host_url ""
      then answer (http_error 400 (text "no remote host configured")) w
      else proxy (normalize_remote_host net url host_url) req w
  handle_remote _ url_path raw_query w = answer method_not_allowed w
