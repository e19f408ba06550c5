-- ===== src/Server/Mux/Calm.antt =====
-- The handlers of series, metrics and the background service, of internal/app/server.go, do not panic.
use mcmon.Prelude.{
  ℤ, ◌≡◌, refl, ◌⊎◌, inl, inr, String, Bool, true, false, ◌||◌, Option, none, some, List, is_blank,
  Bool-cases,
}
use mcmon.Config.Disk.{Done, done, failed, crashed}
use mcmon.Storage.Query.{Answer}
use mcmon.Storage.Query.Laws.{Follows, series-Follows}
use mcmon.Service.System.{Host, System}
use mcmon.Service.Install.{install_service, uninstall_service, background_status}
use mcmon.Server.Api.{
  Method, method_get, method_post, method_put, method_delete, other_method, Content, IsCalm, Codec,
}
use mcmon.Server.Api.Queries.{
  since, answer_of, handle_series, handle_metrics, report, report_after, set_background,
  handle_background,
}
use mcmon.Server.Mux.{Outside}

answer_of-IsCalm :
    {Row : Type 0} (content : List Row → Content) (result : _) (a : Answer Row)
    → Follows result a
    → IsCalm (answer_of content a)
unfolding answer_of
answer_of-IsCalm content result a (inl (bad, e)) = rw e tt
answer_of-IsCalm content result a (inr (out, good, e)) = rw e tt

module _ (out : Outside) (now : ℤ) (query : String → String) (db : out.sql.Db) where
  pub handle_series-IsCalm : IsCalm (handle_series out.sql now query db)
  unfolding handle_series
  handle_series-IsCalm =
      answer_of-IsCalm _ _ _
        (series-Follows out.sql (query "target") "" (since now (query "range")) db).0

  pub handle_metrics-IsCalm :
      (method : Method) → IsCalm (handle_metrics out.sql now query db method)
  unfolding handle_metrics
  handle_metrics-IsCalm method_get =
      elim (Bool-cases (is_blank (query "target") || is_blank (query "metric"))) [
        | inl missing ↦ rw missing tt
        | inr given ↦ rw given (
            answer_of-IsCalm _ _ _
              (series-Follows out.sql (query "target") (query "metric") (since now (query "range"))
                db).1)
      ]
  handle_metrics-IsCalm method_post = tt
  handle_metrics-IsCalm method_put = tt
  handle_metrics-IsCalm method_delete = tt
  handle_metrics-IsCalm other_method = tt

Done-cases : {A : Type 0} (r : Done A) → ((a : A) × (r ≡ done a)) ⊎ (r ≡ failed) ⊎ (r ≡ crashed)
Done-cases (done a) = inl (a, refl)
Done-cases failed = inr (inl refl)
Done-cases crashed = inr (inr refl)

module _ (host : Host) (codec : Codec) (config_path : String) where
  report-IsCalm : (sys : System) → IsCalm (report host codec config_path sys).0
  unfolding report
  report-IsCalm sys = elim (Done-cases (background_status host sys).0) [
    | inl (a, e) ↦ rw (e, report) tt
    | inr (inl e) ↦ rw (e, report) tt
    | inr (inr e) ↦ rw (e, report) tt
  ]

  report_after-IsCalm :
      (r : Done (Unit {0})) (sys : System) → IsCalm (report_after host codec config_path r sys).0
  unfolding report_after
  report_after-IsCalm (done a) sys = report-IsCalm sys
  report_after-IsCalm failed sys = tt
  report_after-IsCalm crashed sys = tt

  set_background-IsCalm :
      (o : Option Bool) (sys : System) → IsCalm (set_background host codec config_path o sys).0
  unfolding set_background
  set_background-IsCalm none sys = tt
  set_background-IsCalm (some true) sys =
      report_after-IsCalm (install_service host config_path sys).0 _
  set_background-IsCalm (some false) sys = report_after-IsCalm (uninstall_service host sys).0 _

  pub handle_background-IsCalm :
      (method : Method) (body : String) (sys : System)
      → IsCalm (handle_background host codec config_path method body sys).0
  unfolding handle_background
  handle_background-IsCalm method_get body sys = report-IsCalm sys
  handle_background-IsCalm method_post body sys = set_background-IsCalm (codec.enabled body) sys
  handle_background-IsCalm method_put body sys = tt
  handle_background-IsCalm method_delete body sys = tt
  handle_background-IsCalm other_method body sys = tt
