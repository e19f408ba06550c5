-- ===== src/Server/Api.antt =====
-- The handlers of newMux, of internal/app/server.go, as functions of a request: what they share.
-- encoding/json decodes a body by the argument `codec`; the text that it writes of an answer is not
-- modelled, and an answer is kept as the value.
pub mod Targets
pub mod InStep
pub mod Running
pub mod Queries
pub mod Remote
pub mod Fixtures
mod Examples
use mcmon.Prelude.{ℕ, ℤ, String, Bool, Option, List, leb, ◌&&◌, if◌then◌else◌}
use mcmon.Config.Target.{Target, Invalid}
use mcmon.Config.Store.{World}
use mcmon.Prober.Manager.{Manager}
use mcmon.Storage.{Sample, MetricSample}
use mcmon.Service.Install.{BackgroundStatus}
use mcmon.Server.Proxy.{Fault}

pub data Method : Type 0 where
  method_get method_post method_put method_delete other_method : Method

-- A ConfigStore and a Manager, as the handlers use them together.
pub record Core : Type 0 where
  pub world : World
  pub manager : Manager

-- The texts of http.Error: a text of the source or of a remote host, or the text of an error. A prefix
-- names the target of an import.
pub data Message : Type 0 where
  text : String → Message
  invalid_json : Message
  invalid_target : String → Invalid → Message
  write_error : String → Message
  query_error service_error marshal_error : Message
  bad_host : Fault → Message
  login_error proxy_error invalid_login : Message

-- What /api/remote/login sends, and what a remote host answers to it.
pub record LoginRequest : Type 0 where
  pub username : String
  pub password : String
  pub totp_code : Option String

pub record LoginReply : Type 0 where
  pub session_token : String
  pub username : String
  pub expires_at : ℤ
  pub totp_enabled : Bool

pub data Content : Type 0 where
  nothing : Content
  one_target : Target → Content
  all_targets : List Target → Content
  samples : List Sample → Content
  metric_samples : List MetricSample → Content
  background : BackgroundStatus → Content
  remote_settings : String → String → String → Content
  login : LoginReply → Content
  relayed : String → String → Content
  moved : String → Content
  error : Message → Content

pub record Response : Type 0 where
  pub status : ℕ
  pub content : Content

-- How a request ends: with a response, with the process while it writes a file, or with a panic.
pub data Reaction : Type 0 where
  responded : Response → Reaction
  halted panicked : Reaction

-- A reaction that is no panic.
abbrev pub IsCalm : Reaction → Type 0
IsCalm (responded r) = Unit
IsCalm halted = Unit
IsCalm panicked = ⊥

abbrev pub ok : Content → Reaction
ok content = responded (record { status = 200; content = content })

-- `http.Error(w, message, status)`.
abbrev pub http_error : ℕ → Message → Reaction
http_error status message = responded (record { status = status; content = error message })

-- WriteHeader panics on a status that does not have three digits.
abbrev pub is_status : ℕ → Bool
is_status status = leb 100 status && leb status 999

abbrev pub with_status : ℕ → Content → Reaction
with_status status content =
    if is_status status then responded (record { status = status; content = content }) else panicked

abbrev pub method_not_allowed : Reaction
method_not_allowed = http_error 405 (text "method not allowed")

-- json.NewDecoder(r.Body).Decode of a body; `none` is its error.
pub record Codec : Type 0 where
  pub target : String → Option Target
  pub targets : String → Option (List Target)
  pub enabled : String → Option Bool
  pub remote : String → Option (String × String)
  pub login : String → Option (String × LoginRequest)
