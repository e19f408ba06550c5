-- ===== src/Storage/Reverse.antt =====
-- reverseSamples and reverseMetricSamples of internal/store/store.go, which are the same loop on slices of
-- two types. `none` is a panic: an index out of range.
pub mod Laws
use mcmon.Prelude.{
  ℕ, zero, suc, ◌+◌, ◌-◌, Option, none, some, List, [], ◌∷◌, ltb, if◌then◌else◌, length,
}
use mcmon.Prelude.Sorting.{get_elem?}

module _ {ℓ} {A : Type ℓ} where
  -- `s[i] = x`.
  unfoldable pub set_elem : ℕ → A → List A → Option (List A)
  set_elem i x [] = none
  set_elem zero x (y ∷ ys) = some (x ∷ ys)
  set_elem (suc i) x (y ∷ ys) = elim (set_elem i x ys) [ none ↦ none | some zs ↦ some (y ∷ zs) ]

  assigned : ℕ → ℕ → Option A → Option A → List A → Option (List A)
  assigned i j (some x) (some y) s = elim (set_elem i y s) [
    | none ↦ none
    | some s' ↦ set_elem j x s'
  ]
  assigned i j _ _ s = none

  -- `s[i], s[j] = s[j], s[i]`.
  unfoldable pub swap : ℕ → ℕ → List A → Option (List A)
  unfolding assigned
  swap i j s = assigned i j (get_elem? s i) (get_elem? s j) s

  -- `for i < j { … ; i, j = i+1, j-1 }`. Each round makes `j` smaller, so `j` rounds are enough.
  unfoldable pub reverse_loop : ℕ → ℕ → ℕ → List A → Option (List A)
  reverse_loop zero i j s = some s
  reverse_loop (suc fuel) i j s = elim (swap i j s) as (λ _. Option (List A)) [
    | none ↦ if ltb i j then none else some s
    | some s' ↦
        let later = reverse_loop fuel (i + 1) (j - 1) s' in if ltb i j then later else some s
  ]

  -- Of an empty slice `len(s) - 1` is -1 in the source and 0 here, which makes no difference to
  -- `i < j` at 0.
  unfoldable pub reverse_samples : List A → Option (List A)
  reverse_samples s = reverse_loop (length s) 0 (length s - 1) s
