-- ===== src/Storage/Examples.antt =====
-- Runs of the reversal and of a database with one row, and the theorems at concrete inputs.

use mcmon.Prelude.{pos, none, ℕ, ◌≡◌, refl, some, [], ◌∷◌}
use mcmon.Storage.Reverse.{set_elem, swap, reverse_loop, reverse_samples}
use mcmon.Storage.{Number, Sample, MetricSample}
use mcmon.Storage.Query.{
  collect, scan_loop, returned, answered, open_store, insert, insert_metric, series, metric_series,
}
use mcmon.Storage.Query.Laws.{Follows, series-Follows}
use mcmon.Storage.Query.History.{
  History, before, opened, inserted, inserted_metric, latest, latest_metric, Answers, IsSeries,
  series-IsSeries,
}
use mcmon.Storage.OneRow.{Tables, one_row, one_row-IsSql, no_rows, no_rows-IsEmpty}

reverse_four : reverse_samples {A = ℕ} (1 ∷ 2 ∷ 3 ∷ 4 ∷ []) ≡ some (4 ∷ 3 ∷ 2 ∷ 1 ∷ [])
unfolding reverse_samples reverse_loop swap set_elem
reverse_four = refl

-- One sample, written, replaced and read back.
abbrev half : Number
half = record { num = pos 1; den = 2 }

abbrev first_sample : Sample
first_sample = record {
  target_id = "lobby";
  ts = pos 60;
  min = none;
  p50 = none;
  max = none;
  loss_pct = half;
}

abbrev second_sample : Sample
second_sample = record first_sample { min = some half }

abbrev player_sample : MetricSample
player_sample = record {
  target_id = "lobby";
  metric = "players";
  ts = pos 60;
  value = some half;
  extra = "";
}

abbrev full_rows : Tables
full_rows = record { sample = some second_sample; metric = some player_sample }

full_rows-History :
    History one_row no_rows (second_sample ∷ first_sample ∷ []) (player_sample ∷ []) full_rows
unfolding open_store insert insert_metric
full_rows-History =
    opened
      (inserted_metric player_sample
        (inserted second_sample (inserted first_sample (opened {db' = no_rows} before refl) refl)
          refl)
        refl)
      refl

series_run : series one_row "lobby" (pos 0) full_rows ≡ answered (second_sample ∷ [])
unfolding series collect scan_loop returned reverse_samples reverse_loop swap set_elem
series_run = refl

series_run_later : series one_row "lobby" (pos 61) full_rows ≡ answered []
unfolding series collect scan_loop returned reverse_samples reverse_loop
series_run_later = refl

series-IsSeries_example :
    Answers
      (IsSeries (λ s. s.ts) (latest "lobby" (second_sample ∷ first_sample ∷ [])) (pos 0))
      (series one_row "lobby" (pos 0) full_rows)
    × Answers
        (IsSeries (λ s. s.ts) (latest_metric "lobby" "players" (player_sample ∷ [])) (pos 0))
        (metric_series one_row "lobby" "players" (pos 0) full_rows)
series-IsSeries_example =
    series-IsSeries one_row one_row-IsSql no_rows no_rows-IsEmpty full_rows-History "lobby"
      "players" (pos 0)

series-Follows_example :
    Follows
      (one_row.select_samples "lobby" (pos 0) 50000 full_rows)
      (series one_row "lobby" (pos 0) full_rows)
    × Follows
        (one_row.select_metrics "lobby" "players" (pos 0) 50000 full_rows)
        (metric_series one_row "lobby" "players" (pos 0) full_rows)
series-Follows_example = series-Follows one_row "lobby" "players" (pos 0) full_rows
