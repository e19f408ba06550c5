-- ===== src/Server/Mux.antt =====
-- The mux of newMux, of internal/app/server.go: which handler serves a path, and the server that the handlers
-- work on together. Requests are served one after the other. The redirects of ServeMux for a path that is
-- not clean are not modelled; the one from /api/remote to /api/remote/, which the pattern /api/remote/
-- brings with it, is.
pub mod Calm
pub mod Laws
mod Examples
use mcmon.Prelude.{
  ℕ, ℤ, String, str_eq, Bool, true, false, Option, none, some, List, [], ◌∷◌, has_prefix,
  if◌then◌else◌,
}
use mcmon.Config.Disk.{Disk}
use mcmon.Config.Store.{Json, World}
use mcmon.Storage.Query.{Sqlite}
use mcmon.Service.System.{Command, Host, System}
use mcmon.Server.Proxy.{NetPackage, UrlPackage}
use mcmon.Server.Api.{Method, Core, Response, Reaction, responded, moved, Codec}
use Prim.Native.String.{◌++◌}
use mcmon.Server.Api.Targets.{handle_targets, handle_target}
use mcmon.Server.Api.Queries.{handle_series, handle_metrics, handle_background}
use mcmon.Server.Api.Remote.{
  Outgoing, Client, Result, handle_remote_config, handle_login, handle_remote,
}

-- What the handlers take from outside the repository; `files` is the file server on the embedded pages.
pub record Outside : Type 1 where
  pub sql : Sqlite
  pub json : Json
  pub net : NetPackage
  pub url : UrlPackage
  pub codec : Codec
  pub host : Host
  pub client : Client
  pub files : String → Response

-- A request, with the time at which it is served and the ids that generateID gives meanwhile.
pub record Request : Type 0 where
  pub method : Method
  pub path : String
  pub raw_query : String
  pub query : String → String
  pub body : String
  pub now : ℤ
  pub fresh : ℕ → String

-- The server: the configuration with its disk and the Manager, the database, the commands that ran, and
-- the requests that it has sent to remote hosts, the latest first.
pub record App (Db : Type 0) : Type 0 where
  pub core : Core
  pub db : Db
  pub ran : List Command
  pub sent : List Outgoing

pub data Route : Type 0 where
  pages redirect targets target series metrics background remote_config remote_login remote : Route

-- The pattern that matches a path: the longest. Of the two patterns that end in a slash, /api/targets/ has a
-- pattern of its own without it, and /api/remote/ has none.
unfoldable pub route : String → Route
route path =
    if str_eq path "/api/targets"
    then targets
    else if str_eq path "/api/series"
    then series
    else if str_eq path "/api/metrics"
    then metrics
    else if str_eq path "/api/settings/background"
    then background
    else if str_eq path "/api/remote/config"
    then remote_config
    else if str_eq path "/api/remote/login"
    then remote_login
    else if str_eq path "/api/remote"
    then redirect
    else if has_prefix "/api/targets/" path
    then target
    else if has_prefix "/api/remote/" path
    then remote
    else pages

-- The redirect of ServeMux to the path with a slash, which keeps the query.
abbrev pub redirect_to : String → String → Response
redirect_to path raw_query = record {
  status = 301;
  content = moved (path ++ ("/" ++ (if str_eq raw_query "" then "" else "?" ++ raw_query)));
}

module _ {Db : Type 0} (app : App Db) where
  -- The server once a handler has worked on a part of it.
  abbrev pub with_core : Reaction × Core → Reaction × App Db
  with_core (reaction, core) = (reaction, record app { core = core })

  abbrev pub with_world : World → App Db
  with_world w = record app { core = record (app.core) { world = w } }

  abbrev pub with_system : Reaction × System → Reaction × App Db
  with_system (reaction, sys) = (
    reaction,
    record (with_world (record (app.core.world) { disk = sys.disk })) { ran = sys.ran },
  )

  abbrev pub and_sent : Option Outgoing → List Outgoing
  and_sent none = app.sent
  and_sent (some req) = req ∷ app.sent

  abbrev pub with_result : Result → Reaction × App Db
  with_result r = (r.reaction, record (with_world r.world) { sent = and_sent r.sent })

  abbrev pub system_of : System
  system_of = record { disk = app.core.world.disk; ran = app.ran }

module _ (out : Outside) (config_path : String) where
  unfoldable pub serve_route : Route → Request → App out.sql.Db → Reaction × App out.sql.Db
  serve_route pages r app = (responded (out.files r.path), app)
  serve_route redirect r app = (responded (redirect_to r.path r.raw_query), app)
  serve_route targets r app =
      with_core app (handle_targets out.json config_path out.codec r.fresh r.method r.body app.core)
  serve_route target r app =
      with_core app
        (handle_target out.json config_path out.codec r.fresh r.method r.path r.body app.core)
  serve_route series r app = (handle_series out.sql r.now r.query app.db, app)
  serve_route metrics r app = (handle_metrics out.sql r.now r.query app.db r.method, app)
  serve_route background r app =
      with_system app
        (handle_background out.host out.codec config_path r.method r.body (system_of app))
  serve_route remote_config r app = with_result app (
      handle_remote_config out.json config_path out.net out.url out.codec r.method r.body
        app.core.world)
  serve_route remote_login r app = with_result app (
      handle_login out.json config_path out.net out.url out.codec out.client r.method r.body
        app.core.world)
  serve_route remote r app =
      with_result app
        (handle_remote out.net out.url out.client r.method r.path r.raw_query app.core.world)

  unfoldable pub serve : Request → App out.sql.Db → Reaction × App out.sql.Db
  serve r app = serve_route (route r.path) r app
