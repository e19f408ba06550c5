-- ===== src/Server/Mux/Laws.antt =====
-- What every request leaves of the server, whatever its path.
use mcmon.Prelude.{
  ℕ, ◌≡◌, refl, sym, ap, ◌⊎◌, inl, String, false, Option, none, some, List, ◌∷◌, is_blank,
}
use mathlib.Core.Path.{subst}
use mcmon.Config.Store.{World, get}
use mcmon.Config.Store.Restart.{IsSound}
use mcmon.Config.Targets.{find_target}
use mcmon.Prober.Manager.Serving.{IsServing-same}
use mcmon.Server.Api.{Core, Reaction, responded, halted, panicked, IsCalm}
use mcmon.Server.Api.InStep.{IsInStep, IsUnwritten, Settled, handle-Settled}
use mcmon.Server.Api.Targets.Host.{host_of-handle_targets, host_of-handle_target}
use mcmon.Server.Proxy.{accepted, dial_context, normalize_remote_host}
use mcmon.Server.Api.Remote.{Outgoing, Result, handle_remote_config, handle_login, handle_remote}
use mcmon.Server.Api.Remote.Safe.{IsRemoteSafe, IsBadReply, IsExcused, IsCareful}
use mcmon.Server.Api.Remote.Relay.{remote-IsCareful}
use mcmon.Server.Mux.{
  Outside, Request, App, with_world, and_sent, with_result, Route, pages, redirect, targets, target,
  series, metrics, background, remote_config, remote_login, remote, route, serve_route, serve,
}
use mcmon.Server.Mux.Calm.{handle_series-IsCalm, handle_metrics-IsCalm, handle_background-IsCalm}

-- Only the stored targets count.
IsInStep-same :
    (c : Core) (w : World)
    → w.cfg.targets ≡ c.world.cfg.targets
    → IsInStep c
    → IsInStep (record c { world = w })
unfolding get
IsInStep-same c w same s = record {
  sound = subst IsSound (sym same) s.sound;
  serving =
      IsServing-same c.manager (λ id. get id c.world) (λ id. get id w)
        (λ id. ap (find_target id) (sym same)) s.serving;
}

calm-Settled : (reaction : Reaction) (c : Core) → IsCalm reaction → IsInStep c → Settled reaction c
calm-Settled (responded r) c calm s = inl s
calm-Settled halted c calm s = tt
calm-Settled panicked c calm s = calm

-- What a request leaves of a server that has sent the requests `before` and now those of `after`: no panic,
-- or one over what came of the request that it has just sent to a remote host; and loops in step, unless
-- the file could not be written.
abbrev pub IsServed : (out : Outside) → List Outgoing → Reaction → App out.sql.Db → Type 0
IsServed out before (responded r) after = IsInStep after.core ⊎ IsUnwritten r
IsServed out before halted after = Unit
IsServed out before panicked after =
    IsInStep after.core
    × ((req : Outgoing) × (after.sent ≡ req ∷ before)
        × IsBadReply (out.client.send (dial_context out.net) req))

Settled-IsServed :
    (out : Outside) (before : List Outgoing) (reaction : Reaction) (after : App out.sql.Db)
    → Settled reaction after.core
    → IsServed out before reaction after
Settled-IsServed out before (responded r) after s = s
Settled-IsServed out before halted after s = tt
Settled-IsServed out before panicked after s = absurd s

module _ (out : Outside) (app : App out.sql.Db) (in_step : IsInStep app.core) where
  excused-IsServed :
      (reaction : Reaction) (sent : Option Outgoing) (w : World)
      → IsInStep (record (app.core) { world = w })
      → IsExcused out.net out.url out.client reaction sent
      → IsServed out app.sent reaction (record (with_world app w) { sent = and_sent app sent })
  excused-IsServed (responded r) sent w s excuse = inl s
  excused-IsServed halted sent w s excuse = tt
  excused-IsServed panicked none w s excuse = absurd excuse
  excused-IsServed panicked (some req) w s excuse = (s, (req, refl, excuse))

  careful-IsServed :
      (r : Result)
      → IsCareful out.net out.url out.client app.core.world r
      → IsServed out app.sent (with_result app r).0 (with_result app r).1
  careful-IsServed r careful =
      excused-IsServed r.reaction r.sent r.world
        (IsInStep-same app.core r.world careful.same_targets in_step) careful.calm

module _ (out : Outside) (config_path : String) (r : Request)
    (named : (i : ℕ) → is_blank (r.fresh i) ≡ false) (app : App out.sql.Db)
    (in_step : IsInStep app.core) (safe : IsRemoteSafe out.net out.url app.core.world) where
  -- What the three handlers of /api/remote would do with the request.
  remotes :
      IsCareful out.net out.url out.client app.core.world (
        handle_remote_config out.json config_path out.net out.url out.codec r.method r.body
          app.core.world)
      × IsCareful out.net out.url out.client app.core.world (
          handle_login out.json config_path out.net out.url out.codec out.client r.method r.body
            app.core.world)
      × IsCareful out.net out.url out.client app.core.world
          (handle_remote out.net out.url out.client r.method r.path r.raw_query app.core.world)
  remotes =
      remote-IsCareful out.net out.url out.client out.json config_path out.codec app.core.world safe
        r.body r.method r.path r.raw_query

  serve_route-IsServed :
      (to : Route)
      → IsServed out app.sent
          (serve_route out config_path to r app).0
          (serve_route out config_path to r app).1
  unfolding serve_route
  serve_route-IsServed pages = inl in_step
  serve_route-IsServed redirect = inl in_step
  serve_route-IsServed targets =
      Settled-IsServed out app.sent _ _
        (handle-Settled out.json config_path out.codec r.fresh named app.core in_step r.body
          r.method r.path).0
  serve_route-IsServed target =
      Settled-IsServed out app.sent _ _
        (handle-Settled out.json config_path out.codec r.fresh named app.core in_step r.body
          r.method r.path).1
  serve_route-IsServed series =
      Settled-IsServed out app.sent _ app
        (calm-Settled _ app.core (handle_series-IsCalm out r.now r.query app.db) in_step)
  serve_route-IsServed metrics =
      Settled-IsServed out app.sent _ app
        (calm-Settled _ app.core (handle_metrics-IsCalm out r.now r.query app.db r.method) in_step)
  serve_route-IsServed background = Settled-IsServed out app.sent _ _ (
      calm-Settled _ _ (handle_background-IsCalm out.host out.codec config_path r.method r.body _)
        (IsInStep-same app.core _ refl in_step))
  serve_route-IsServed remote_config = careful-IsServed out app in_step _ remotes.0
  serve_route-IsServed remote_login = careful-IsServed out app in_step _ remotes.1
  serve_route-IsServed remote = careful-IsServed out app in_step _ remotes.2

  same_host :
      (host : String)
      → host ≡ app.core.world.cfg.remote_host
      → (host ≡ "") ⊎ ((raw : String) × (normalize_remote_host out.net out.url raw ≡ accepted host))
  same_host host same =
      subst
        (λ h.
          (h ≡ "") ⊎ ((raw : String) × (normalize_remote_host out.net out.url raw ≡ accepted h)))
        (sym same) safe

  serve_route-stored :
      (to : Route)
      → IsRemoteSafe out.net out.url (serve_route out config_path to r app).1.core.world
  unfolding serve_route
  serve_route-stored pages = safe
  serve_route-stored redirect = safe
  serve_route-stored targets =
      same_host _
        (host_of-handle_targets out.json config_path out.codec r.fresh r.body app.core r.method)
  serve_route-stored target =
      same_host _ (
        host_of-handle_target out.json config_path out.codec r.fresh r.body app.core r.method
          r.path)
  serve_route-stored series = safe
  serve_route-stored metrics = safe
  serve_route-stored background = safe
  serve_route-stored remote_config = remotes.0.stored
  serve_route-stored remote_login = remotes.1.stored
  serve_route-stored remote = remotes.2.stored

  -- Where the stored targets are sound (normal, with ids that are unique and not blank), the running loops
  -- are exactly theirs, the stored remote host is empty or one that normalizeRemoteHost gave, and
  -- generateID gives ids that are not blank, whatever is asked of the server: the targets are sound and the
  -- running loops are exactly theirs after the request, unless it is a POST or PUT whose file could not be
  -- written; the stored remote host is again such a one; and no handler panics, except over a request
  -- that it has just sent to a remote host: where that host answers with a status that does not have three
  -- digits, which WriteHeader does not take, or where sending it panicked, as DialContext can. Where the
  -- process stops in the middle nothing is claimed of its loops.
  pub serve-Settled :
      IsServed out app.sent (serve out config_path r app).0 (serve out config_path r app).1
      × IsRemoteSafe out.net out.url (serve out config_path r app).1.core.world
  unfolding serve
  serve-Settled = (serve_route-IsServed (route r.path), serve_route-stored (route r.path))
