-- ===== src/Server/Api/Queries.antt =====
-- The handlers of /api/series, /api/metrics and /api/settings/background, of internal/app/server.go.

use mcmon.Prelude.{
  ℕ, ◌+◌, ℤ, pos_part, neg_part, sub_ℕ, String, str_eq, Bool, true, false, ◌||◌, Option, none, some,
  List, is_blank, if◌then◌else◌,
}
use mcmon.Config.Disk.{Done, done, failed, crashed}
use mcmon.Storage.Query.{
  Sqlite, Answer, answered, query_failed, panicked as query_panicked, series, metric_series,
}
use mcmon.Service.System.{Host, System}
use mcmon.Service.Install.{install_service, uninstall_service, background_status}
use mcmon.Server.Api.{
  Method, method_get, method_post, Content, samples, metric_samples, background, text, invalid_json,
  query_error, service_error, Reaction, halted, panicked, ok, http_error, method_not_allowed, Codec,
}

-- The table rangeToSeconds; a key that is missing counts as 3600.
unfoldable pub range_to_seconds : String → ℕ
range_to_seconds key =
    if str_eq key "1h"
    then 3600
    else if str_eq key "6h"
    then 21600
    else if str_eq key "12h"
    then 43200
    else if str_eq key "1d"
    then 86400
    else if str_eq key "7d"
    then 604800
    else if str_eq key "30d"
    then 2592000
    else 3600

-- `time.Now().Unix() - secs`.
unfoldable pub since : ℤ → String → ℤ
since now key = sub_ℕ (pos_part now) (range_to_seconds key + neg_part now)

unfoldable pub answer_of : {Row : Type 0} → (List Row → Content) → Answer Row → Reaction
answer_of content (answered rows) = ok (content rows)
answer_of content query_failed = http_error 500 query_error
answer_of content query_panicked = panicked

-- `query` is `r.URL.Query().Get`, and `now` is `time.Now().Unix()`.
module _ (sql : Sqlite) (now : ℤ) (query : String → String) (db : sql.Db) where
  unfoldable pub handle_series : Reaction
  handle_series = answer_of samples (series sql (query "target") (since now (query "range")) db)

  unfoldable pub handle_metrics : Method → Reaction
  handle_metrics method_get =
      if is_blank (query "target") || is_blank (query "metric")
      then http_error 400 (text "target and metric are required")
      else answer_of metric_samples
          (metric_series sql (query "target") (query "metric") (since now (query "range")) db)
  handle_metrics _ = method_not_allowed

module _ (host : Host) (codec : Codec) (config_path : String) where
  -- `writeJSON(w, Background())`. Background has no error, so `failed` does not occur.
  unfoldable pub report : System → Reaction × System
  report sys = elim ((background_status host sys).0) [
    | done status ↦ (ok (background status), (background_status host sys).1)
    | failed ↦ (http_error 500 service_error, (background_status host sys).1)
    | crashed ↦ (halted, (background_status host sys).1)
  ]

  unfoldable pub report_after : Done (Unit {0}) → System → Reaction × System
  report_after (done a) sys = report sys
  report_after failed sys = (http_error 500 service_error, sys)
  report_after crashed sys = (halted, sys)

  unfoldable pub set_background : Option Bool → System → Reaction × System
  set_background none sys = (http_error 400 invalid_json, sys)
  set_background (some true) sys =
      let (r, sys') = install_service host config_path sys in report_after r sys'
  set_background (some false) sys =
      let (r, sys') = uninstall_service host sys in report_after r sys'

  unfoldable pub handle_background : Method → String → System → Reaction × System
  handle_background method_get body sys = report sys
  handle_background method_post body sys = set_background (codec.enabled body) sys
  handle_background _ body sys = (method_not_allowed, sys)
