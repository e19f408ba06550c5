-- ===== src/Prober/Percentile/Bounds.antt =====
-- The median lies between the least and the greatest value.
use mcmon.Prelude.{
  ℕ, zero, suc, ◌+◌, ◌-◌, ◌*◌, ◌/◌, ◌%◌, ◌≤◌, ◌<◌, ◌≡◌, refl, some, List, [], ◌∷◌, arith, ◌==◌,
  length, All, Bool-cases, inl, inr,
}
use mcmon.Prelude.Sorting.{All-get_elem?}
use mcmon.Prober.Percentile.{interpolated, scaled, at_index, percentile}

abbrev pub Within : ℕ → ℕ → ℕ → Type 0
Within low high x = (low ≤ x) × (x ≤ high)

between :
    (low high a b frac : ℕ)
    → frac < 2
    → Within low high a
    → Within low high b
    → Within (2 * low) (2 * high) (a * (2 - frac) + b * frac)
between low high a b zero h ha hb = (omega arith, omega arith)
between low high a b (suc zero) h ha hb = (omega arith, omega arith)
between low high a b (suc (suc n)) h ha hb = absurd (omega arith)

at_index-Within :
    (low high idx : ℕ) (xs : List ℕ)
    → All (Within low high) xs
    → (idx + 1) / 2 < length xs
    → (p50 : ℕ) × (at_index 2 idx xs ≡ some p50) × Within (2 * low) (2 * high) p50
unfolding at_index interpolated scaled
at_index-Within low high idx xs h in_range =
    let (a, at_lower, ha) = All-get_elem? (Within low high) xs (idx / 2) h (omega arith) in
    let (b, at_upper, hb) =
      All-get_elem? (Within low high) xs ((idx + 2 - 1) / 2) h (omega arith) in
    elim (Bool-cases (idx / 2 == (idx + 2 - 1) / 2)) [
      | inl same ↦ (2 * a, rw (same, at_lower), (omega arith, omega arith))
      | inr other ↦ (
        a * (2 - idx % 2) + b * (idx % 2),
        rw (other, at_lower, at_upper),
        between low high a b (idx % 2) (omega arith) ha hb,
      )
    ]

-- Of a list with an element, percentile(sorted, 0.5) finds the elements that it looks for, and is
-- between any two bounds of the list. (Both sides are doubled.)
pub percentile-Within :
    (low high : ℕ) (xs : List ℕ)
    → All (Within low high) xs
    → 1 ≤ length xs
    → (p50 : ℕ) × (percentile 1 2 xs ≡ some p50) × Within (2 * low) (2 * high) p50
unfolding percentile
percentile-Within low high [] h some_value = absurd (omega arith)
percentile-Within low high (x ∷ []) (hx, h) some_value = (2 * x, refl, (omega arith, omega arith))
percentile-Within low high (x ∷ y ∷ ys) h some_value =
    at_index-Within low high (1 * (length (x ∷ y ∷ ys) - 1)) (x ∷ y ∷ ys) h (omega arith)
