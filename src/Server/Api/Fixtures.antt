-- ===== src/Server/Api/Fixtures.antt =====
-- A server with one target, and a remote host that lets everybody in, for the tests.
use mcmon.Prelude.{◌≡◌, refl, sym, pos, true, false, none, some, [], ◌∷◌, inl}
use mathlib.Core.Path.{subst}
use mcmon.Config.Fixtures.{
  legacy, legacy_valid, one_json, empty_world, empty_world-IsSound, legacy_world, legacy_saved,
  fresh_named,
}
use mcmon.Config.Targets.{find_target}
use mcmon.Config.Target.{Target, normalized}
use mcmon.Config.Store.{World, Reply, persist, set_targets, get}
use mcmon.Config.Store.Edits.{stored, upsert-valid}
use mcmon.Config.Store.Replies.{IsPut, UpsertLaw, upsert-UpsertLaw}
use mcmon.Prober.Manager.{Manager, new_manager}
use mcmon.Prober.Manager.Sound.{new_manager-IsOrderly}
use mcmon.Prober.Manager.Start.{restarted, start-restarted}
use mcmon.Prober.Manager.Serving.{new_manager-IsServing}
use mcmon.Server.Fixtures.{net, url}
use mcmon.Server.Api.{Core, Codec, LoginRequest}
use mcmon.Server.Api.InStep.{IsInStep, put-IsInStep}
use mcmon.Server.Api.Remote.{Client, received}
use mcmon.Server.Api.Remote.Safe.{IsRemoteSafe}

abbrev pub idle : Core
idle = record { world = empty_world; manager = new_manager }

pub idle-IsInStep : IsInStep idle
unfolding get find_target
idle-IsInStep = record { sound = empty_world-IsSound; serving = new_manager-IsServing }

-- The server once the target is there.
abbrev pub kept : Target
kept = stored "fresh" legacy

abbrev pub busy : Core
busy = record { world = legacy_world; manager = restarted (normalized kept) new_manager }

kept-IsPut : IsPut empty_world kept legacy_world
kept-IsPut =
    subst (λ r. UpsertLaw empty_world r legacy_world) legacy_saved
      (upsert-UpsertLaw one_json "config.json" empty_world empty_world-IsSound "fresh" legacy
        fresh_named)

pub busy-IsInStep : IsInStep busy
busy-IsInStep =
    let (m, e, s) =
      put-IsInStep kept empty_world legacy_world new_manager kept-IsPut idle-IsInStep.serving in
    let same : m ≡ restarted (normalized kept) new_manager =
      cc (e, start-restarted kept new_manager new_manager-IsOrderly) in
    subst (λ (x : Manager). IsInStep (record { world = legacy_world; manager = x })) same s

-- A form with a host that the parser knows, and a host that lets everybody in.
abbrev pub form : LoginRequest
form = record { username = "admin"; password = "secret"; totp_code = none }

abbrev pub codec : Codec
codec = record {
  target = λ body. some legacy;
  targets = λ body. some (legacy ∷ []);
  enabled = λ body. some true;
  remote = λ body. some ("", "");
  login = λ body. some ("https://good:443/mc/", form);
}

abbrev pub client : Client
client = record {
  accepts = λ url. true;
  send = λ dial req.
      received (record { status = 200; content_type = "application/json"; body = λ limit. "{}" });
  marshal_login = λ request. some "{}";
  decode_login = λ body. some (record {
    session_token = "token";
    username = "admin";
    expires_at = pos 0;
    totp_enabled = false;
  });
}

pub empty_world-IsRemoteSafe : IsRemoteSafe net url empty_world
empty_world-IsRemoteSafe = inl refl

pub legacy_world-IsRemoteSafe : IsRemoteSafe net url legacy_world
unfolding persist set_targets
legacy_world-IsRemoteSafe =
    subst (λ (o : Reply Target × World). IsRemoteSafe net url o.1)
      (sym (upsert-valid one_json "config.json" "fresh" legacy empty_world legacy_valid)) (inl refl)
