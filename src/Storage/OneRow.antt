-- ===== src/Storage/OneRow.antt =====
-- A database with room for one row in each table, for the tests: a row with another key is refused.
use mcmon.Prelude.{
  ℕ, ℤ, String, Bool, true, false, ◌&&◌, Option, none, some, List, [], ◌∷◌, ◌≡◌, refl, sym, ap, ◌∙◌,
  inl, inr, str_eq, eq_ℤ, leb_ℤ, ltb, eq_ℤ_iff, eq_iff, if◌then◌else◌, map, Bool-cases, arith,
}
use mathlib.Core.List.{Memᴰ}
use mcmon.Storage.{Sample, MetricSample}
use mcmon.Storage.Query.{Rows, Sqlite}
use mcmon.Storage.Query.Laws.{whole}
use mcmon.Storage.Query.Ordered.{IsSelection, NewestFirst}
use mcmon.Storage.Query.History.{IsSql, IsEmpty}

module _ {Row : Type 0} (time : Row → ℤ) where
  -- `has` is the test on the other columns of a key.
  abbrev row_at : (Row → Bool) → Option Row → ℤ → Option Row
  row_at has none ts = none
  row_at has (some r) ts = if has r && eq_ℤ (time r) ts then some r else none

  abbrev rows_from : (Row → Bool) → ℤ → ℕ → Option Row → List (Option Row)
  rows_from has since_ts limit none = []
  rows_from has since_ts limit (some r) =
      if has r && leb_ℤ since_ts (time r) && ltb 0 limit then some r ∷ [] else []

  abbrev Selected : (Row → Bool) → ℤ → ℕ → Option Row → List Row → Type 0
  Selected has since_ts limit o out =
      NewestFirst time out × IsSelection time (row_at has o) since_ts limit out

  Selected-none :
      (has : Row → Bool) (since_ts : ℤ) (limit : ℕ) (out : List Row)
      → [] ≡ map some out
      → Selected has since_ts limit none out
  Selected-none has since_ts limit [] e = (
    tt,
    record { found = tt; limited = omega arith; complete = λ ts r there late. absurd (cc there) },
  )
  Selected-none has since_ts limit (x ∷ out) e = absurd (cc e)

  at-some :
      (has : Row → Bool) (r r' : Row) (ts : ℤ)
      → row_at has (some r) ts ≡ some r'
      → (has r ≡ true) × (time r ≡ ts) × (r ≡ r')
  at-some has r r' ts e = elim (Bool-cases (has r)) [
    | inr other ↦ absurd (cc (rw other at e))
    | inl mine ↦ elim (Bool-cases (eq_ℤ (time r) ts)) [
      | inr other ↦ absurd (cc (rw (mine, other) at e))
      | inl same ↦ (mine, (eq_ℤ_iff (time r) ts).0 same, cc (rw (mine, same) at e))
    ]
  ]

  at_time : (has : Row → Bool) (r : Row) → has r ≡ true → row_at has (some r) (time r) ≡ some r
  at_time has r mine = rw (mine, (eq_ℤ_iff (time r) (time r)).1 refl) refl

  Selected-hit :
      (has : Row → Bool) (since_ts : ℤ) (limit : ℕ) (r : Row) (out : List Row)
      → (has r && leb_ℤ since_ts (time r) && ltb 0 limit) ≡ true
      → some r ∷ [] ≡ map some out
      → Selected has since_ts limit (some r) out
  Selected-hit has since_ts limit r [] h e = absurd (cc e)
  Selected-hit has since_ts limit r (x ∷ y ∷ out) h e = absurd (cc e)
  Selected-hit has since_ts limit r (x ∷ []) h e =
      let mine : has r ≡ true = ground (arith, h) in
      let late : leb_ℤ since_ts (time r) ≡ true = ground (arith, h) in
      let room : ltb 0 limit ≡ true = ground (arith, h) in
      let same : r ≡ x = cc e in
      (
        (tt, tt),
        record {
          found = (rw (sym same) (late, at_time has r mine), tt);
          limited = ground (arith, room);
          complete = λ ts r' there later.
              let (_, _, same') = at-some has r r' ts there in inl (Memᴰ.head (sym same' ∙ same));
        },
      )

  Selected-miss :
      (has : Row → Bool) (since_ts : ℤ) (limit : ℕ) (r : Row) (out : List Row)
      → (has r && leb_ℤ since_ts (time r) && ltb 0 limit) ≡ false
      → [] ≡ map some out
      → Selected has since_ts limit (some r) out
  Selected-miss has since_ts limit r (x ∷ out) h e = absurd (cc e)
  Selected-miss has since_ts limit r [] h e = (
    tt,
    record {
      found = tt;
      limited = omega arith;
      complete = λ ts r' there late.
          let (mine, same, _) = at-some has r r' ts there in
          let late' : leb_ℤ since_ts (time r) ≡ true = rw same late in
          inr (ground (arith, rw (mine, late') at h), tt);
    },
  )

  rows_from-Selected :
      (has : Row → Bool) (since_ts : ℤ) (limit : ℕ) (o : Option Row) (out : List Row)
      → rows_from has since_ts limit o ≡ map some out
      → Selected has since_ts limit o out
  rows_from-Selected has since_ts limit none out e = Selected-none has since_ts limit out e
  rows_from-Selected has since_ts limit (some r) out e =
      elim (Bool-cases (has r && leb_ℤ since_ts (time r) && ltb 0 limit)) [
        | inl hit ↦ Selected-hit has since_ts limit r out hit (rw hit at e)
        | inr miss ↦ Selected-miss has since_ts limit r out miss (rw miss at e)
      ]

  -- INSERT OR REPLACE, with the test on the key of the row that is there.
  abbrev put_row : (Row → Bool) → Row → Option Row → Option (Option Row)
  put_row same r none = some (some r)
  put_row same r (some old) = if same old then some (some r) else none

  put_row-row_at :
      (same has : Row → Bool) (r : Row) (o o' : Option Row) (ts : ℤ)
      → ((old : Row) → same old ≡ true → (has old ≡ has r) × (time old ≡ time r))
      → put_row same r o ≡ some o'
      → row_at has o' ts ≡ (if has r && eq_ℤ (time r) ts then some r else row_at has o ts)
  put_row-row_at same has r none o' ts law e = let there : o' ≡ some r = cc e in rw there refl
  put_row-row_at same has r (some old) o' ts law e = elim (Bool-cases (same old)) [
    | inr other ↦ absurd (cc (rw other at e))
    | inl mine ↦
        let there : o' ≡ some r = cc (rw mine at e) in
        let (has_too, time_too) = law old mine in
        rw (there, has_too, time_too) (covered (has r && eq_ℤ (time r) ts) r old)
  ]
    where
      covered :
          (b : Bool) (r old : Row)
          → (if b then some r else none) ≡ (if b then some r else if b then some old else none)
      covered true r old = refl
      covered false r old = refl

abbrev same_sample : Sample → Sample → Bool
same_sample s old = str_eq old.target_id s.target_id && eq_ℤ old.ts s.ts

abbrev same_metric : MetricSample → MetricSample → Bool
same_metric s old =
    str_eq old.target_id s.target_id && str_eq old.metric s.metric && eq_ℤ old.ts s.ts

pub record Tables : Type 0 where
  pub sample : Option Sample
  pub metric : Option MetricSample

abbrev with_sample : Tables → Option (Option Sample) → Option Tables
with_sample db none = none
with_sample db (some o) = some (record db { sample = o })

abbrev with_metric : Tables → Option (Option MetricSample) → Option Tables
with_metric db none = none
with_metric db (some o) = some (record db { metric = o })

abbrev has_id : String → Sample → Bool
has_id id s = str_eq s.target_id id

abbrev has_key : String → String → MetricSample → Bool
has_key id metric s = str_eq s.target_id id && str_eq s.metric metric

abbrev pub one_row : Sqlite
one_row = record {
  Db = Tables;
  create = λ db. some db;
  replace_sample = λ s db. with_sample db (put_row (λ r. r.ts) (same_sample s) s db.sample);
  replace_metric = λ s db. with_metric db (put_row (λ r. r.ts) (same_metric s) s db.metric);
  select_samples = λ id since_ts limit db. some (record {
    scans = rows_from (λ r. r.ts) (has_id id) since_ts limit db.sample;
    broken = false;
  });
  select_metrics = λ id metric since_ts limit db. some (record {
    scans = rows_from (λ r. r.ts) (has_key id metric) since_ts limit db.metric;
    broken = false;
  });
}

with_sample-some :
    (db db' : Tables) (o : Option (Option Sample))
    → with_sample db o ≡ some db'
    → ((o' : Option Sample) × (o ≡ some o') × (db'.sample ≡ o')) × (db'.metric ≡ db.metric)
with_sample-some db db' none e = absurd (cc e)
with_sample-some db db' (some o) e =
    let there : db' ≡ record db { sample = o } = cc e in
    ((o, refl, ap (λ (d : Tables). d.sample) there), ap (λ (d : Tables). d.metric) there)

with_metric-some :
    (db db' : Tables) (o : Option (Option MetricSample))
    → with_metric db o ≡ some db'
    → ((o' : Option MetricSample) × (o ≡ some o') × (db'.metric ≡ o')) × (db'.sample ≡ db.sample)
with_metric-some db db' none e = absurd (cc e)
with_metric-some db db' (some o) e =
    let there : db' ≡ record db { metric = o } = cc e in
    ((o, refl, ap (λ (d : Tables). d.metric) there), ap (λ (d : Tables). d.sample) there)

same_sample-true :
    (id : String) (s old : Sample)
    → same_sample s old ≡ true
    → (has_id id old ≡ has_id id s) × (old.ts ≡ s.ts)
same_sample-true id s old h =
    let at : old.ts ≡ s.ts = (eq_ℤ_iff old.ts s.ts).0 (ground (arith, h)) in
    let of : old.target_id ≡ s.target_id =
      (eq_iff old.target_id s.target_id).0 (ground (arith, h)) in
    (ap (λ i. str_eq i id) of, at)

same_metric-true :
    (id metric : String) (s old : MetricSample)
    → same_metric s old ≡ true
    → (has_key id metric old ≡ has_key id metric s) × (old.ts ≡ s.ts)
same_metric-true id metric s old h =
    let at : old.ts ≡ s.ts = (eq_ℤ_iff old.ts s.ts).0 (ground (arith, h)) in
    let kind : old.metric ≡ s.metric = (eq_iff old.metric s.metric).0 (ground (arith, h)) in
    let of : old.target_id ≡ s.target_id =
      (eq_iff old.target_id s.target_id).0 (ground (arith, h)) in
    (rw (of, kind) refl, at)

scans-whole :
    {Row : Type 0} (scans : List (Option Row)) (out : List Row)
    → some (record { scans = scans; broken = false }) ≡ some (whole out)
    → scans ≡ map some out
scans-whole scans out e =
    let same : record { scans = scans; broken = false } ≡ whole out = cc e in
    ap (λ (r : Rows _). r.scans) same

pub one_row-IsSql : IsSql one_row
one_row-IsSql = record {
  samples = λ db id ts. row_at (λ r. r.ts) (has_id id) db.sample ts;
  metrics = λ db id metric ts. row_at (λ r. r.ts) (has_key id metric) db.metric ts;
  created = λ db db' e.
      let same : db ≡ db' = cc e in (λ id ts. rw same refl, λ id metric ts. rw same refl);
  replaced = λ s db db' e.
      let ((o, put, there), other) =
        with_sample-some db db' (put_row (λ r. r.ts) (same_sample s) s db.sample) e in
      (
        λ id ts. rw there (
            put_row-row_at (λ r. r.ts) (same_sample s) (has_id id) s db.sample o ts
              (same_sample-true id s) put),
        λ id metric ts. rw other refl,
      );
  replaced_metric = λ s db db' e.
      let ((o, put, there), other) =
        with_metric-some db db' (put_row (λ r. r.ts) (same_metric s) s db.metric) e in
      (
        λ id ts. rw other refl,
        λ id metric ts. rw there (
            put_row-row_at (λ r. r.ts) (same_metric s) (has_key id metric) s db.metric o ts
              (same_metric-true id metric s) put),
      );
  selected = λ id since_ts limit db out e.
      rows_from-Selected (λ r. r.ts) (has_id id) since_ts limit db.sample out
        (scans-whole (rows_from (λ r. r.ts) (has_id id) since_ts limit db.sample) out e);
  selected_metric = λ id metric since_ts limit db out e.
      rows_from-Selected (λ r. r.ts) (has_key id metric) since_ts limit db.metric out
        (scans-whole (rows_from (λ r. r.ts) (has_key id metric) since_ts limit db.metric) out e);
}

abbrev pub no_rows : Tables
no_rows = record { sample = none; metric = none }

pub no_rows-IsEmpty : IsEmpty one_row one_row-IsSql no_rows
unfolding one_row-IsSql
no_rows-IsEmpty = (λ id ts. refl, λ id metric ts. refl)
