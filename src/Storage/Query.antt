-- ===== src/Storage/Query.antt =====
-- Open, Insert, InsertMetric, Series and MetricSeries of internal/store/store.go. The database and its
-- driver are the argument `sql`: one operation for each statement that the source executes.
pub mod Laws
pub mod Ordered
pub mod History
use mcmon.Prelude.{
  ℕ, ℤ, String, Bool, true, false, Option, none, some, List, [], ◌∷◌, ◌++◌, if◌then◌else◌,
}
use mcmon.Storage.{Sample, MetricSample}
use mcmon.Storage.Reverse.{reverse_samples}

-- The result of a SELECT, as `rows` gives it: for each round that `rows.Next` lets through the row that
-- `rows.Scan` stores, or `none` for its error; then whether `rows.Err` has an error.
pub record Rows (Row : Type 0) : Type 0 where
  pub scans : List (Option Row)
  pub broken : Bool

-- The statements, with their arguments in the order of their places. `none` is the error of `db.Exec`
-- or `db.Query`; a statement with an error has changed nothing.
pub record Sqlite : Type 1 where
  pub Db : Type 0
  -- CREATE TABLE IF NOT EXISTS … CREATE INDEX IF NOT EXISTS …
  pub create : Db → Option Db
  -- INSERT OR REPLACE INTO samples …
  pub replace_sample : Sample → Db → Option Db
  -- INSERT OR REPLACE INTO metric_samples …
  pub replace_metric : MetricSample → Db → Option Db
  -- SELECT … FROM samples WHERE target_id=? AND ts>=? ORDER BY ts DESC LIMIT ?
  pub select_samples : String → ℤ → ℕ → Db → Option (Rows Sample)
  -- SELECT … FROM metric_samples WHERE target_id=? AND metric=? AND ts>=? ORDER BY ts DESC LIMIT ?
  pub select_metrics : String → String → ℤ → ℕ → Db → Option (Rows MetricSample)

abbrev pub max_series_rows : ℕ
max_series_rows = 50000

-- What a query returns: a slice, an error, or a panic.
pub data Answer (Row : Type 0) : Type 0 where
  answered : List Row → Answer Row
  query_failed panicked : Answer Row

module _ {Row : Type 0} where
  -- The loop `for rows.Next()`, with the slice `out` so far; `none` is the error of a Scan.
  unfoldable pub scan_loop : List Row → List (Option Row) → Option (List Row)
  scan_loop out [] = some out
  scan_loop out (none ∷ later) = none
  scan_loop out (some row ∷ later) = scan_loop (out ++ (row ∷ [])) later

  unfoldable pub returned : Option (List Row) → Answer Row
  returned none = panicked
  returned (some out) = answered out

  -- From `defer rows.Close()` to the end, which Series and MetricSeries have in common.
  unfoldable pub collect : Rows Row → Answer Row
  collect rows = elim (scan_loop [] rows.scans) [
    | none ↦ query_failed
    | some out ↦ if rows.broken then query_failed else returned (reverse_samples out)
  ]

  unfoldable pub collect_query : Option (Rows Row) → Answer Row
  collect_query none = query_failed
  collect_query (some rows) = collect rows

module _ (sql : Sqlite) where
  -- Open, once `sql.Open` has returned its handle.
  unfoldable pub open_store : sql.Db → Option sql.Db
  open_store db = sql.create db

  unfoldable pub insert : Sample → sql.Db → Option sql.Db
  insert sm db = sql.replace_sample sm db

  unfoldable pub insert_metric : MetricSample → sql.Db → Option sql.Db
  insert_metric sm db = sql.replace_metric sm db

  unfoldable pub series : String → ℤ → sql.Db → Answer Sample
  unfolding collect_query
  series target_id since_ts db =
      collect_query (sql.select_samples target_id since_ts max_series_rows db)

  unfoldable pub metric_series : String → String → ℤ → sql.Db → Answer MetricSample
  unfolding collect_query
  metric_series target_id metric since_ts db =
      collect_query (sql.select_metrics target_id metric since_ts max_series_rows db)
