-- ===== src/Prober/Percentile.antt =====
-- percentile of internal/app/prober.go, and the sorting before it. A value is a natural number (the
-- prober's are microseconds), `p` is a fraction, and the result is multiplied by the denominator
-- of `p`, so that it is exact where the source rounds. `none` is an index out of range.
pub mod Bounds
use mcmon.Prelude.{
  ℕ, zero, suc, ◌+◌, ◌-◌, ◌*◌, ◌/◌, ◌%◌, Option, none, some, List, [], ◌∷◌, leb, ◌==◌,
  if◌then◌else◌, length,
}
use mcmon.Prelude.Sorting.{get_elem?}

-- The interpolation between two neighbours.
unfoldable pub interpolated : ℕ → ℕ → Option ℕ → Option ℕ → Option ℕ
interpolated den frac (some a) (some b) = some (a * (den - frac) + b * frac)
interpolated den frac _ _ = none

unfoldable pub scaled : ℕ → Option ℕ → Option ℕ
scaled den none = none
scaled den (some a) = some (den * a)

-- The value at the index `idx / den`.
unfoldable pub at_index : ℕ → ℕ → List ℕ → Option ℕ
at_index den idx sorted =
    let lower = idx / den in
    let upper = (idx + den - 1) / den in
    if lower == upper
    then scaled den (get_elem? sorted lower)
    else interpolated den (idx % den) (get_elem? sorted lower) (get_elem? sorted upper)

-- `p` is `num / den`.
unfoldable pub percentile : ℕ → ℕ → List ℕ → Option ℕ
percentile num den [] = some 0
percentile num den (x ∷ []) = some (den * x)
percentile num den (x ∷ y ∷ ys) =
    let sorted = x ∷ y ∷ ys in at_index den (num * (length sorted - 1)) sorted
