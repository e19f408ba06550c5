-- ===== src/Storage/Query/History.antt =====
-- The sample store as a table of the latest samples, over any history of openings and insertions.
use mcmon.Prelude.{
  ℕ, ℤ, String, ◌&&◌, Option, none, some, List, [], ◌∷◌, ◌≡◌, ◌∙◌, inl, inr, str_eq, eq_ℤ,
  if◌then◌else◌,
}
use mcmon.Storage.{Sample, MetricSample}
use mcmon.Storage.Query.{
  Rows, Sqlite, Answer, answered, query_failed, panicked, open_store, insert, insert_metric, series,
  metric_series, max_series_rows,
}
use mcmon.Storage.Query.Laws.{whole, Follows, series-Follows}
use mcmon.Storage.Query.Ordered.{
  IsSelection, NewestFirst, OldestFirst, IsSelection-same, reverse-OldestFirst, reverse-IsSelection,
}

-- The latest of the samples under a key, of a history with the latest sample first.
abbrev pub latest : String → List Sample → ℤ → Option Sample
latest id [] ts = none
latest id (s ∷ earlier) ts =
    if str_eq s.target_id id && eq_ℤ s.ts ts then some s else latest id earlier ts

abbrev pub latest_metric : String → String → List MetricSample → ℤ → Option MetricSample
latest_metric id metric [] ts = none
latest_metric id metric (s ∷ earlier) ts =
    if str_eq s.target_id id && str_eq s.metric metric && eq_ℤ s.ts ts
    then some s
    else latest_metric id metric earlier ts

-- What the source relies on SQLite for. `samples` and `metrics` are the rows of the two tables by their
-- primary keys: INSERT OR REPLACE sets the row of one key, CREATE … IF NOT EXISTS leaves the rows as they
-- are, and SELECT gives the newest rows in bounds, newest first, where no error cuts it short.
pub record IsSql (sql : Sqlite) : Type 0 where
  pub samples : sql.Db → String → ℤ → Option Sample
  pub metrics : sql.Db → String → String → ℤ → Option MetricSample
  pub created :
      (db db' : sql.Db)
      → sql.create db ≡ some db'
      → ((id : String) (ts : ℤ) → samples db' id ts ≡ samples db id ts)
        × ((id metric : String) (ts : ℤ) → metrics db' id metric ts ≡ metrics db id metric ts)
  pub replaced :
      (s : Sample) (db db' : sql.Db)
      → sql.replace_sample s db ≡ some db'
      → ((id : String) (ts : ℤ)
          → samples db' id ts
            ≡ (if str_eq s.target_id id && eq_ℤ s.ts ts then some s else samples db id ts))
        × ((id metric : String) (ts : ℤ) → metrics db' id metric ts ≡ metrics db id metric ts)
  pub replaced_metric :
      (s : MetricSample) (db db' : sql.Db)
      → sql.replace_metric s db ≡ some db'
      → ((id : String) (ts : ℤ) → samples db' id ts ≡ samples db id ts)
        × ((id metric : String) (ts : ℤ)
            → metrics db' id metric ts ≡ (
                if str_eq s.target_id id && str_eq s.metric metric && eq_ℤ s.ts ts
                then some s
                else metrics db id metric ts))
  pub selected :
      (id : String) (since_ts : ℤ) (limit : ℕ) (db : sql.Db) (out : List Sample)
      → sql.select_samples id since_ts limit db ≡ some (whole out)
      → NewestFirst (λ s. s.ts) out × IsSelection (λ s. s.ts) (samples db id) since_ts limit out
  pub selected_metric :
      (id metric : String) (since_ts : ℤ) (limit : ℕ) (db : sql.Db) (out : List MetricSample)
      → sql.select_metrics id metric since_ts limit db ≡ some (whole out)
      → NewestFirst (λ s. s.ts) out
        × IsSelection (λ s. s.ts) (metrics db id metric) since_ts limit out

-- The databases that the operations of a Store make of `db0`, the process starting again in between:
-- each with the samples inserted so far, the latest first. An operation with an error is no step, as it
-- changes nothing.
pub data History (sql : Sqlite) (db0 : sql.Db)
    : List Sample → List MetricSample → sql.Db → Type 0 where
  before : History sql db0 [] [] db0
  opened :
      {h : List Sample} {k : List MetricSample} {db db' : sql.Db}
      → History sql db0 h k db
      → open_store sql db ≡ some db'
      → History sql db0 h k db'
  inserted :
      {h : List Sample} {k : List MetricSample} {db db' : sql.Db} (s : Sample)
      → History sql db0 h k db
      → insert sql s db ≡ some db'
      → History sql db0 (s ∷ h) k db'
  inserted_metric :
      {h : List Sample} {k : List MetricSample} {db db' : sql.Db} (s : MetricSample)
      → History sql db0 h k db
      → insert_metric sql s db ≡ some db'
      → History sql db0 h (s ∷ k) db'

-- What a series is to hold: rows of the table in the order of their time, from `since_ts` on, all of
-- them or the 50000 newest ones.
pub record IsSeries {Row : Type 0} (time : Row → ℤ) (table : ℤ → Option Row) (since_ts : ℤ)
    (rows : List Row) : Type 0 where
  pub ordered : OldestFirst time rows
  pub selection : IsSelection time table since_ts max_series_rows rows

-- An answer that is no panic, and a list with the property where it is a list.
abbrev pub Answers : {Row : Type 0} → (List Row → Type 0) → Answer Row → Type 0
Answers P (answered rows) = P rows
Answers P query_failed = Unit
Answers P panicked = ⊥

Follows-Answers :
    {Row : Type 0} (time : Row → ℤ) (table table' : ℤ → Option Row) (since_ts : ℤ)
    (result : Option (Rows Row)) (answer : Answer Row)
    → ((ts : ℤ) → table ts ≡ table' ts)
    → ((out : List Row)
        → result ≡ some (whole out)
        → NewestFirst time out × IsSelection time table since_ts max_series_rows out)
    → Follows result answer
    → Answers (IsSeries time table' since_ts) answer
Follows-Answers time table table' since_ts result answer same law (inl (bad, e)) = rw e tt
Follows-Answers time table table' since_ts result answer same law (inr (out, found, e)) =
    let (newest, sel) = law out found in
    rw e (record {
      ordered = reverse-OldestFirst time out newest;
      selection =
          reverse-IsSelection time table' since_ts max_series_rows out
            (IsSelection-same time table table' since_ts max_series_rows out same sel);
    })

module _ (sql : Sqlite) (laws : IsSql sql) (db0 : sql.Db) where
  -- A database whose two tables have no rows, or do not exist yet.
  abbrev pub IsEmpty : Type 0
  IsEmpty =
      ((id : String) (ts : ℤ) → laws.samples db0 id ts ≡ none)
      × ((id metric : String) (ts : ℤ) → laws.metrics db0 id metric ts ≡ none)

  samples-latest :
      {h : List Sample} {k : List MetricSample} {db : sql.Db}
      → IsEmpty
      → History sql db0 h k db
      → (id : String) (ts : ℤ) → laws.samples db id ts ≡ latest id h ts
  unfolding open_store insert insert_metric
  samples-latest empty before id ts = empty.0 id ts
  samples-latest empty (opened {db = db} {db' = db'} past e) id ts =
      (laws.created db db' e).0 id ts ∙ samples-latest empty past id ts
  samples-latest empty (inserted {db = db} {db' = db'} s past e) id ts =
      (laws.replaced s db db' e).0 id ts ∙ rw (samples-latest empty past id ts)
  samples-latest empty (inserted_metric {db = db} {db' = db'} s past e) id ts =
      (laws.replaced_metric s db db' e).0 id ts ∙ samples-latest empty past id ts

  metrics-latest :
      {h : List Sample} {k : List MetricSample} {db : sql.Db}
      → IsEmpty
      → History sql db0 h k db
      → (id metric : String) (ts : ℤ) → laws.metrics db id metric ts ≡ latest_metric id metric k ts
  unfolding open_store insert insert_metric
  metrics-latest empty before id metric ts = empty.1 id metric ts
  metrics-latest empty (opened {db = db} {db' = db'} past e) id metric ts =
      (laws.created db db' e).1 id metric ts ∙ metrics-latest empty past id metric ts
  metrics-latest empty (inserted {db = db} {db' = db'} s past e) id metric ts =
      (laws.replaced s db db' e).1 id metric ts ∙ metrics-latest empty past id metric ts
  metrics-latest empty (inserted_metric {db = db} {db' = db'} s past e) id metric ts =
      (laws.replaced_metric s db db' e).1 id metric ts ∙ rw (metrics-latest empty past id metric ts)

  -- Whatever has been inserted into a database that began empty, and however often it was opened: Series
  -- and MetricSeries do not panic, and an answer without an error is in order of time and holds exactly
  -- the latest sample of each time in bounds, or the 50000 newest of them, if SQLite does what it
  -- documents for the four statements.
  pub series-IsSeries :
      {h : List Sample} {k : List MetricSample} {db : sql.Db}
      → IsEmpty
      → History sql db0 h k db
      → (id metric : String) (since_ts : ℤ)
      → Answers (IsSeries (λ s. s.ts) (latest id h) since_ts) (series sql id since_ts db)
        × Answers
            (IsSeries (λ s. s.ts) (latest_metric id metric k) since_ts)
            (metric_series sql id metric since_ts db)
  series-IsSeries {h} {k} {db} empty past id metric since_ts =
      let (follows, follows') = series-Follows sql id metric since_ts db in
      (
        Follows-Answers (λ s. s.ts) (laws.samples db id) (latest id h) since_ts
            (sql.select_samples id since_ts max_series_rows db) (series sql id since_ts db)
            (samples-latest empty past id)
            (λ out e. laws.selected id since_ts max_series_rows db out e) follows,
        Follows-Answers (λ s. s.ts) (laws.metrics db id metric) (latest_metric id metric k) since_ts
            (sql.select_metrics id metric since_ts max_series_rows db)
            (metric_series sql id metric since_ts db) (metrics-latest empty past id metric)
            (λ out e. laws.selected_metric id metric since_ts max_series_rows db out e) follows',
      )
