-- ===== src/Server/Mux/Examples.antt =====
-- A request to a server with one target, and the theorem on the mux at it.
use mcmon.Prelude.{◌≡◌, refl, pos, [], has_prefix, after_prefix}
use mcmon.Config.Fixtures.{one_json, empty_world, fresh_named}
use mcmon.Storage.OneRow.{one_row, no_rows, Tables}
use mcmon.Service.Fixtures.{linux}
use mcmon.Server.Fixtures.{net, url}
use mcmon.Server.Api.{method_delete, nothing, panicked}
use mcmon.Server.Api.Remote.{Outgoing, Client, received, after_proxy}
use mcmon.Server.Proxy.{dial_context}
use mcmon.Server.Api.Fixtures.{busy, busy-IsInStep, codec, client, legacy_world-IsRemoteSafe}
use mcmon.Server.Api.Remote.Safe.{IsRemoteSafe}
use mcmon.Server.Mux.{Outside, Request, App, redirect, target, remote, route, serve}
use mcmon.Server.Mux.Laws.{IsServed, serve-Settled}

abbrev out : Outside
out = record {
  sql = one_row;
  json = one_json;
  net = net;
  url = url;
  codec = codec;
  host = linux "";
  client = client;
  files = λ path. record { status = 200; content = nothing };
}

abbrev app : App Tables
app = record { core = busy; db = no_rows; ran = []; sent = [] }

abbrev request : Request
request = record {
  method = method_delete;
  path = "/api/targets/legacy";
  raw_query = "";
  query = λ key. "";
  body = "";
  now = pos 0;
  fresh = λ i. "fresh";
}

routed : route "/api/targets/legacy" ≡ target
unfolding route has_prefix after_prefix
routed = refl

routed_remote : route "/api/remote/series" ≡ remote
unfolding route has_prefix after_prefix
routed_remote = refl

redirected : route "/api/remote" ≡ redirect
unfolding route
redirected = refl

-- A remote host that answers with the status 000 makes the relay panic.
abbrev odd : Client
odd = record client {
  send = λ dial req. received (record { status = 0; content_type = ""; body = λ limit. "" });
}

relay_panics :
    (req : Outgoing)
    → (after_proxy net url odd req (odd.send (dial_context net) req) empty_world).reaction
      ≡ panicked
unfolding after_proxy
relay_panics req = refl

serve-Settled_example :
    IsServed out [] (serve out "config.json" request app).0 (serve out "config.json" request app).1
    × IsRemoteSafe net url (serve out "config.json" request app).1.core.world
serve-Settled_example =
    serve-Settled out "config.json" request (λ i. fresh_named) app busy-IsInStep
      legacy_world-IsRemoteSafe
