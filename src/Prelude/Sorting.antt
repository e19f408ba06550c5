-- ===== src/Prelude/Sorting.antt =====
-- Lists of numbers: access by index, and sorting (as `sort.Float64s` does it).
use Prim.Native.Nat.{ℕ, zero, suc, ◌≤◌, ◌<◌, ◌-◌}
use mathlib.Core.Path.{◌≡◌, refl}
use mathlib.Core.Bool.{Bool, true, ◌||◌}
use mathlib.Core.Option.{Option, none, some}
use mathlib.Core.List.{List, [], ◌∷◌}
use native.Mathlib.Omega.{arith}
use mcmon.Prelude.Tests.{leb, leb→le, ◌==◌, if◌then◌else◌, Bool-cases}
use mcmon.Prelude.Lists.{length, All, any}
use mathlib.Core.Logic.{inl, inr}

abbrev pub get_elem? {ℓ} : {A : Type ℓ} → List A → ℕ → Option A
get_elem? [] i = none
get_elem? (x ∷ xs) zero = some x
get_elem? (x ∷ xs) (suc i) = get_elem? xs i

abbrev pub insert_sorted : ℕ → List ℕ → List ℕ
insert_sorted x [] = x ∷ []
insert_sorted x (y ∷ ys) = if leb x y then x ∷ y ∷ ys else y ∷ insert_sorted x ys

abbrev pub sort : List ℕ → List ℕ
sort [] = []
sort (x ∷ xs) = insert_sorted x (sort xs)

abbrev pub IsSorted : List ℕ → Type 0
IsSorted [] = Unit {0}
IsSorted (x ∷ xs) = All (λ y. x ≤ y) xs × IsSorted xs

-- An index in range finds an element, and what holds of all elements holds of it.
pub All-get_elem? {ℓ} :
    (P : ℕ → Type ℓ) (xs : List ℕ) (i : ℕ)
    → All P xs
    → i < length xs
    → (x : ℕ) × (get_elem? xs i ≡ some x) × P x
All-get_elem? P [] i h lt = absurd (omega arith)
All-get_elem? P (x ∷ xs) zero (px, pxs) lt = (x, refl, px)
All-get_elem? P (x ∷ xs) (suc i) (px, pxs) lt = All-get_elem? P xs i pxs (omega arith)

All-insert_sorted {ℓ} :
    (P : ℕ → Type ℓ) (x : ℕ) (xs : List ℕ) → P x → All P xs → All P (insert_sorted x xs)
All-insert_sorted P x [] px pxs = (px, pxs)
All-insert_sorted P x (y ∷ ys) px (py, pys) = ground (arith, All-insert_sorted P x ys px pys)

pub All-sort {ℓ} : (P : ℕ → Type ℓ) (xs : List ℕ) → All P xs → All P (sort xs)
All-sort P [] h = h
All-sort P (x ∷ xs) (px, pxs) = All-insert_sorted P x (sort xs) px (All-sort P xs pxs)

All-inserted {ℓ} :
    (P : ℕ → Type ℓ) (x : ℕ) (xs : List ℕ) → All P (insert_sorted x xs) → P x × All P xs
All-inserted P x [] h = h
All-inserted P x (y ∷ ys) h = elim (Bool-cases (leb x y)) [
  | inl le ↦ rw le at h
  | inr gt ↦
      let (py, rest) = rw gt at h in let (px, pys) = All-inserted P x ys rest in (px, (py, pys))
]

pub All-sorted {ℓ} : (P : ℕ → Type ℓ) (xs : List ℕ) → All P (sort xs) → All P xs
All-sorted P [] h = h
All-sorted P (x ∷ xs) h = let (px, pxs) = All-inserted P x (sort xs) h in (px, All-sorted P xs pxs)

All-le_trans : (x y : ℕ) (xs : List ℕ) → x ≤ y → All (λ z. y ≤ z) xs → All (λ z. x ≤ z) xs
All-le_trans x y [] h all = tt
All-le_trans x y (z ∷ zs) h (le, all) = (omega arith, All-le_trans x y zs h all)

insert_sorted-IsSorted : (x : ℕ) (xs : List ℕ) → IsSorted xs → IsSorted (insert_sorted x xs)
insert_sorted-IsSorted x [] h = (tt, tt)
insert_sorted-IsSorted x (y ∷ ys) (below, sorted) = elim (Bool-cases (leb x y)) [
  | inl le ↦ rw le ((leb→le x y le, All-le_trans x y ys (leb→le x y le) below), (below, sorted))
  | inr gt ↦
      rw gt (
        All-insert_sorted (λ z. y ≤ z) x ys (ground arith) below,
        insert_sorted-IsSorted x ys sorted,
      )
]

pub sort-IsSorted : (xs : List ℕ) → IsSorted (sort xs)
sort-IsSorted [] = tt
sort-IsSorted (x ∷ xs) = insert_sorted-IsSorted x (sort xs) (sort-IsSorted xs)

pub length-insert_sorted : (x : ℕ) (xs : List ℕ) → length (insert_sorted x xs) ≡ suc (length xs)
length-insert_sorted x [] = refl
length-insert_sorted x (y ∷ ys) = ground (arith, length-insert_sorted x ys)

pub length-sort : (xs : List ℕ) → length (sort xs) ≡ length xs
length-sort [] = refl
length-sort (x ∷ xs) = omega (arith, length-insert_sorted x (sort xs), length-sort xs)

-- Sorting keeps the elements.
any-insert_sorted :
    (p : ℕ → Bool) (x : ℕ) (xs : List ℕ) → any p (insert_sorted x xs) ≡ (p x || any p xs)
any-insert_sorted p x [] = refl
any-insert_sorted p x (y ∷ ys) = ground (arith, any-insert_sorted p x ys)

pub any-sort : (p : ℕ → Bool) (xs : List ℕ) → any p (sort xs) ≡ any p xs
any-sort p [] = refl
any-sort p (x ∷ xs) = rw (any-insert_sorted p x (sort xs), any-sort p xs)

pub any-get_elem? : (xs : List ℕ) (i x : ℕ) → get_elem? xs i ≡ some x → any (λ y. y == x) xs ≡ true
any-get_elem? [] i x h = cc
any-get_elem? (y ∷ ys) zero x h = ground arith
any-get_elem? (y ∷ ys) (suc i) x h = ground (arith, any-get_elem? ys i x h)

-- The last element of a sorted list is the greatest.
pub All-last :
    (xs : List ℕ)
    → IsSorted xs
    → 1 ≤ length xs
    → (high : ℕ) × (get_elem? xs (length xs - 1) ≡ some high) × All (λ x. x ≤ high) xs
All-last xs h some_value = greatest (length xs - 1) xs h (omega arith)
  where
    greatest :
        (last : ℕ) (xs : List ℕ)
        → IsSorted xs
        → length xs ≡ suc last
        → (high : ℕ) × (get_elem? xs last ≡ some high) × All (λ x. x ≤ high) xs
    greatest last [] h e = absurd (omega arith)
    greatest zero (x ∷ []) h e = (x, refl, (omega arith, tt))
    greatest (suc last) (x ∷ []) h e = absurd (omega arith)
    greatest zero (x ∷ y ∷ ys) h e = absurd (omega arith)
    greatest (suc last) (x ∷ y ∷ ys) ((le, below), sorted) e =
        let (high, found, (y_le, all)) = greatest last (y ∷ ys) sorted (omega arith) in
        (high, found, (omega arith, (y_le, all)))
