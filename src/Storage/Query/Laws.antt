-- ===== src/Storage/Query/Laws.antt =====
-- What a query returns for each result of the database: every row, in order of time, or an error.
use mcmon.Prelude.{
  ℤ, String, true, false, Option, none, some, List, [], ◌∷◌, ◌++◌, ◌≡◌, refl, sym, ap, ◌∙◌, ◌⊎◌,
  inl, inr, map, append_assoc, append-nil, Bool-cases,
}
use mathlib.Core.List.{reverse, Memᴰ}
use mcmon.Storage.Reverse.Laws.{reverse_samples-reverse}
use mcmon.Storage.Query.{
  Rows, Sqlite, Answer, answered, query_failed, returned, scan_loop, collect, collect_query, series,
  metric_series, max_series_rows,
}

module _ {Row : Type 0} where
  -- The result of a SELECT without any error: the rows `out`.
  abbrev pub whole : List Row → Rows Row
  whole out = record { scans = map some out; broken = false }

  -- A query with an error: it is refused, or a row cannot be scanned, or the rows break off.
  abbrev pub Faulty : Option (Rows Row) → Type 0
  Faulty none = Unit
  Faulty (some rows) = Memᴰ none rows.scans ⊎ (rows.broken ≡ true)

  -- How an answer follows from the result of the database: an error for an error, else all the rows,
  -- the last one first.
  abbrev pub Follows : Option (Rows Row) → Answer Row → Type 0
  Follows result answer =
      (Faulty result × (answer ≡ query_failed))
      ⊎ ((out : List Row) × (result ≡ some (whole out)) × (answer ≡ answered (reverse out)))

  scan_loop-cases :
      (out : List Row) (scans : List (Option Row))
      → (Memᴰ none scans × (scan_loop out scans ≡ none))
        ⊎ ((rows : List Row) × (scans ≡ map some rows) × (scan_loop out scans ≡ some (out ++ rows)))
  unfolding scan_loop
  scan_loop-cases out [] = inr ([], refl, ap some (sym (append-nil out)))
  scan_loop-cases out (none ∷ scans) = inl (Memᴰ.head refl, refl)
  scan_loop-cases out (some row ∷ scans) = elim (scan_loop-cases (out ++ (row ∷ [])) scans) [
    | inl (bad, e) ↦ inl (Memᴰ.tail bad, e)
    | inr (rows, same, e) ↦
        inr
          (row ∷ rows, ap (λ s. some row ∷ s) same, e ∙ ap some (append_assoc out (row ∷ []) rows))
  ]

  collect-cases : (rows : Rows Row) → Follows (some rows) (collect rows)
  unfolding collect returned
  collect-cases rows = elim (scan_loop-cases [] rows.scans) [
    | inl (bad, e) ↦ inl (inl bad, rw (e, collect))
    | inr (out, same, e) ↦ elim (Bool-cases rows.broken) [
      | inl broken ↦ inl (inr broken, rw (e, broken, collect))
      | inr fine ↦ inr (
        out,
        ap some (rw (sym same, sym fine) refl),
        rw (e, fine, reverse_samples-reverse out, collect),
      )
    ]
  ]

  collect_query-Follows : (result : Option (Rows Row)) → Follows result (collect_query result)
  unfolding collect_query
  collect_query-Follows none = inl (tt, refl)
  collect_query-Follows (some rows) = collect-cases rows

module _ (sql : Sqlite) (target_id metric : String) (since_ts : ℤ) (db : sql.Db) where
  -- Series and MetricSeries never panic and never return a part of what the database found: the answer
  -- is an error exactly where the query is refused, a row cannot be scanned or the rows break off, and
  -- else has all the rows of the database, the last one first.
  pub series-Follows :
      Follows
        (sql.select_samples target_id since_ts max_series_rows db)
        (series sql target_id since_ts db)
      × Follows
          (sql.select_metrics target_id metric since_ts max_series_rows db)
          (metric_series sql target_id metric since_ts db)
  unfolding series metric_series
  series-Follows = (
    collect_query-Follows (sql.select_samples target_id since_ts max_series_rows db),
    collect_query-Follows (sql.select_metrics target_id metric since_ts max_series_rows db),
  )
