-- ===== src/Storage/Query/Ordered.antt =====
-- Lists of rows by their time, and what becomes of them when they are reversed.
use mcmon.Prelude.{
  ℕ, ◌≤◌, ℤ, true, Option, some, List, [], ◌∷◌, ◌++◌, ◌≡◌, refl, sym, ◌∙◌, ◌⊎◌, inl, inr, ltb_ℤ,
  leb_ℤ, length, length-append, All, All-append, arith,
}
use mathlib.Core.List.{reverse, reverse-cons, Memᴰ}
use mathlib.Core.List.Memᴰ

module _ {Row : Type 0} (time : Row → ℤ) where
  -- All of a list at a later time than `a`.
  abbrev pub AllAfter : ℤ → List Row → Type 0
  AllAfter a rows = All (λ r. ltb_ℤ a (time r) ≡ true) rows

  abbrev pub AllBefore : ℤ → List Row → Type 0
  AllBefore a rows = All (λ r. ltb_ℤ (time r) a ≡ true) rows

  abbrev pub NewestFirst : List Row → Type 0
  NewestFirst [] = Unit
  NewestFirst (r ∷ rows) = AllBefore (time r) rows × NewestFirst rows

  abbrev pub OldestFirst : List Row → Type 0
  OldestFirst [] = Unit
  OldestFirst (r ∷ rows) = AllAfter (time r) rows × OldestFirst rows

  -- A list of rows of a table as a query with a bound on the time and on the number of rows asks for
  -- it: rows of the table, in bounds; and each row in bounds is there, unless the list is full of newer
  -- ones.
  pub record IsSelection (table : ℤ → Option Row) (since_ts : ℤ) (limit : ℕ) (rows : List Row)
      : Type 0 where
    pub found : All (λ r. (leb_ℤ since_ts (time r) ≡ true) × (table (time r) ≡ some r)) rows
    pub limited : length rows ≤ limit
    pub complete :
        (ts : ℤ) (r : Row)
        → table ts ≡ some r
        → leb_ℤ since_ts ts ≡ true
        → Memᴰ r rows ⊎ ((length rows ≡ limit) × AllAfter ts rows)

  OldestFirst-append :
      (rows : List Row) (r : Row)
      → OldestFirst rows
      → AllBefore (time r) rows
      → OldestFirst (rows ++ (r ∷ []))
  OldestFirst-append [] r h b = (tt, tt)
  OldestFirst-append (x ∷ rows) r (after, h) (b, bs) = (
    All-append (λ y. ltb_ℤ (time x) (time y) ≡ true) rows (r ∷ []) after (b, tt),
    OldestFirst-append rows r h bs,
  )

module _ {Row : Type 0} where
  All-reverse : (P : Row → Type 0) (rows : List Row) → All P rows → All P (reverse rows)
  All-reverse P [] h = tt
  All-reverse P (r ∷ rows) (p, h) =
      rw (reverse-cons r rows) (All-append P (reverse rows) (r ∷ []) (All-reverse P rows h) (p, tt))

  length-reverse : (rows : List Row) → length (reverse rows) ≡ length rows
  length-reverse [] = refl
  length-reverse (r ∷ rows) =
      rw (reverse-cons r rows, length-append (reverse rows) (r ∷ []))
        (omega (arith, length-reverse rows))

  Mem-reverse : {r : Row} (rows : List Row) → Memᴰ r rows → Memᴰ r (reverse rows)
  Mem-reverse [] m = m
  Mem-reverse {r} (x ∷ rows) m = rw (reverse-cons x rows) (elim (Memᴰ.cases_cons m) [
    | inl e ↦ Memᴰ.append_right (reverse rows) (Memᴰ.head e)
    | inr later ↦ Memᴰ.append_left (x ∷ []) (Mem-reverse rows later)
  ])

module _ {Row : Type 0} (time : Row → ℤ) where
  pub reverse-OldestFirst :
      (rows : List Row) → NewestFirst time rows → OldestFirst time (reverse rows)
  reverse-OldestFirst [] h = tt
  reverse-OldestFirst (r ∷ rows) (before, h) = rw (reverse-cons r rows) (
      OldestFirst-append time (reverse rows) r (reverse-OldestFirst rows h)
        (All-reverse (λ y. ltb_ℤ (time y) (time r) ≡ true) rows before))

  pub reverse-IsSelection :
      (table : ℤ → Option Row) (since_ts : ℤ) (limit : ℕ) (rows : List Row)
      → IsSelection time table since_ts limit rows
      → IsSelection time table since_ts limit (reverse rows)
  reverse-IsSelection table since_ts limit rows s = record {
    found =
        All-reverse (λ r. (leb_ℤ since_ts (time r) ≡ true) × (table (time r) ≡ some r)) rows
          s.found;
    limited = rw (length-reverse rows) s.limited;
    complete = λ ts r there late. elim (s.complete ts r there late) [
      | inl m ↦ inl (Mem-reverse rows m)
      | inr (full, newer) ↦
          inr
            (rw (length-reverse rows) full, All-reverse (λ y. ltb_ℤ ts (time y) ≡ true) rows newer)
    ];
  }

module _ {Row : Type 0} (time : Row → ℤ) where
  All-found :
      (table table' : ℤ → Option Row) (since_ts : ℤ) (rows : List Row)
      → ((ts : ℤ) → table ts ≡ table' ts)
      → All (λ r. (leb_ℤ since_ts (time r) ≡ true) × (table (time r) ≡ some r)) rows
      → All (λ r. (leb_ℤ since_ts (time r) ≡ true) × (table' (time r) ≡ some r)) rows
  All-found table table' since_ts [] same h = tt
  All-found table table' since_ts (r ∷ rows) same ((late, there), h) =
      ((late, sym (same (time r)) ∙ there), All-found table table' since_ts rows same h)

  -- A selection of a table is one of any table with the same rows.
  pub IsSelection-same :
      (table table' : ℤ → Option Row) (since_ts : ℤ) (limit : ℕ) (rows : List Row)
      → ((ts : ℤ) → table ts ≡ table' ts)
      → IsSelection time table since_ts limit rows
      → IsSelection time table' since_ts limit rows
  IsSelection-same table table' since_ts limit rows same s = record {
    found = All-found table table' since_ts rows same s.found;
    limited = s.limited;
    complete = λ ts r there late. s.complete ts r (same ts ∙ there) late;
  }
