-- ===== src/Storage/Reverse/Laws.antt =====
-- The loop that swaps from both ends reverses the slice.
use mcmon.Prelude.{
  ℕ, zero, suc, ◌+◌, ◌-◌, ◌≤◌, ◌≡◌, Option-cases, true, false, refl, sym, ap, ◌∙◌, ◌⊎◌, inl, inr,
  some, List, [], ◌∷◌, ◌++◌, append_assoc, append-nil, arith, ltb, lt→ltb, le→ltb, length,
  length-append,
}
use mcmon.Prelude.Sorting.{get_elem?}
use mcmon.Storage.Reverse.{set_elem, assigned, swap, reverse_loop, reverse_samples}
use mathlib.Core.List.{reverse, reverse-cons, reverse-append}

module _ {ℓ} {A : Type ℓ} where
  get_elem?_seam :
      (i : ℕ) (pre : List A) (x : A) (post : List A)
      → i ≡ length pre
      → get_elem? (pre ++ (x ∷ post)) i ≡ some x
  get_elem?_seam zero [] x post e = refl
  get_elem?_seam zero (y ∷ pre) x post e = absurd (omega arith)
  get_elem?_seam (suc i) [] x post e = absurd (omega arith)
  get_elem?_seam (suc i) (y ∷ pre) x post e = get_elem?_seam i pre x post (omega arith)

  set_elem_seam :
      (i : ℕ) (pre : List A) (x z : A) (post : List A)
      → i ≡ length pre
      → set_elem i z (pre ++ (x ∷ post)) ≡ some (pre ++ (z ∷ post))
  unfolding set_elem
  set_elem_seam zero [] x z post e = refl
  set_elem_seam zero (y ∷ pre) x z post e = absurd (omega arith)
  set_elem_seam (suc i) [] x z post e = absurd (omega arith)
  set_elem_seam (suc i) (y ∷ pre) x z post e = rw (set_elem_seam i pre x z post (omega arith))

  regroup :
      (pre : List A) (x : A) (mid : List A) (y : A) (post : List A)
      → pre ++ (x ∷ (mid ++ (y ∷ post))) ≡ (pre ++ (x ∷ mid)) ++ (y ∷ post)
  regroup pre x mid y post = sym (append_assoc pre (x ∷ mid) (y ∷ post))

  assigned-some :
      (i j : ℕ) (x y : A) (s s1 s2 : List A)
      → set_elem i y s ≡ some s1
      → set_elem j x s1 ≡ some s2
      → assigned i j (some x) (some y) s ≡ some s2
  unfolding assigned
  assigned-some i j x y s s1 s2 e1 e2 = rw (e1, assigned) e2

  -- A swap of the two ends of the middle part.
  swap_ends :
      (i j : ℕ) (pre : List A) (x : A) (mid : List A) (y : A) (post : List A)
      → i ≡ length pre
      → j ≡ i + 1 + length mid
      → swap i j (pre ++ (x ∷ (mid ++ (y ∷ post)))) ≡ some (pre ++ (y ∷ (mid ++ (x ∷ post))))
  unfolding swap
  swap_ends i j pre x mid y post ei ej =
      let at_j : get_elem? (pre ++ (x ∷ (mid ++ (y ∷ post)))) j ≡ some y =
        rw (regroup pre x mid y post) (
          get_elem?_seam j (pre ++ (x ∷ mid)) y post
            (omega (arith, length-append pre (x ∷ mid)))) in
      let set_j : set_elem j x (pre ++ (y ∷ (mid ++ (y ∷ post))))
          ≡ some (pre ++ (y ∷ (mid ++ (x ∷ post)))) =
        rw (regroup pre y mid y post, regroup pre y mid x post)
          (set_elem_seam j (pre ++ (y ∷ mid)) y x post
            (omega (arith, length-append pre (y ∷ mid)))) in
      rw (get_elem?_seam i pre x (mid ++ (y ∷ post)) ei, at_j)
        (assigned-some i j x y _ _ _ (set_elem_seam i pre x y (mid ++ (y ∷ post)) ei) set_j)

  reverse_loop-stop : (n i j : ℕ) (s : List A) → ltb i j ≡ false → reverse_loop n i j s ≡ some s
  unfolding reverse_loop
  reverse_loop-stop zero i j s h = refl
  reverse_loop-stop (suc n) i j s h = elim (Option-cases (swap i j s)) [
    | inl bad ↦ rw (bad, reverse_loop, h)
    | inr (s', e) ↦ rw (e, reverse_loop, h)
  ]

  reverse_loop-go :
      (n i j : ℕ) (s s' : List A)
      → ltb i j ≡ true
      → swap i j s ≡ some s'
      → reverse_loop (suc n) i j s ≡ reverse_loop n (i + 1) (j - 1) s'
  unfolding reverse_loop
  reverse_loop-go n i j s s' h e = rw (e, reverse_loop, h)

  -- A list is empty, or has a last element.
  last-cases : (xs : List A) → (xs ≡ []) ⊎ ((front : List A) × (y : A) × (xs ≡ front ++ (y ∷ [])))
  last-cases [] = inl refl
  last-cases (x ∷ xs) = elim (last-cases xs) [
    | inl e ↦ inr ([], x, ap (λ t. x ∷ t) e)
    | inr (front, y, e) ↦ inr (x ∷ front, y, ap (λ t. x ∷ t) e)
  ]

  reverse_ends :
      (x : A) (mid : List A) (y : A)
      → reverse (x ∷ (mid ++ (y ∷ []))) ≡ y ∷ (reverse mid ++ (x ∷ []))
  reverse_ends x mid y =
      reverse-cons x (mid ++ (y ∷ [])) ∙ ap (λ t. t ++ (x ∷ [])) (reverse-append mid (y ∷ []))

  -- One round, and what the other rounds do with the part between.
  reverse_loop-round :
      (n i j : ℕ) (pre : List A) (x : A) (front : List A) (y : A) (post : List A)
      → i ≡ length pre
      → j ≡ i + 1 + length front
      → reverse_loop n (i + 1) (j - 1) ((pre ++ (y ∷ [])) ++ (front ++ (x ∷ post)))
        ≡ some ((pre ++ (y ∷ [])) ++ (reverse front ++ (x ∷ post)))
      → reverse_loop (suc n) i j (pre ++ (x ∷ (front ++ (y ∷ post))))
        ≡ some (pre ++ (y ∷ (reverse front ++ (x ∷ post))))
  reverse_loop-round n i j pre x front y post ei ej later =
      reverse_loop-go n i j _ _ (lt→ltb i j (omega arith)) (swap_ends i j pre x front y post ei ej)
      ∙ ap (λ s. reverse_loop n (i + 1) (j - 1) s)
          (sym (append_assoc pre (y ∷ []) (front ++ (x ∷ post))))
      ∙ later
      ∙ ap some (append_assoc pre (y ∷ []) (reverse front ++ (x ∷ post)))

  reverse_loop-reverse :
      (n i j : ℕ) (pre mid post : List A)
      → length mid ≤ n
      → i ≡ length pre
      → j ≡ i + length mid - 1
      → reverse_loop n i j (pre ++ (mid ++ post)) ≡ some (pre ++ (reverse mid ++ post))
  reverse_loop-reverse n i j pre [] post h ei ej =
      reverse_loop-stop n i j (pre ++ post) (le→ltb i j (omega arith))
  reverse_loop-reverse zero i j pre (x ∷ mid) post h ei ej = absurd (omega arith)
  reverse_loop-reverse (suc n) i j pre (x ∷ mid) post h ei ej = elim (last-cases mid) [
    | inl e ↦ rw e (
        reverse_loop-stop (suc n) i j (pre ++ (x ∷ post))
          (le→ltb i j (omega (arith, ap (λ t. length t) e))))
    | inr (front, y, e) ↦
        let long = ap (λ t. length t) e in
        let long_front = length-append front (y ∷ []) in
        let later =
          reverse_loop-reverse n (i + 1) (j - 1) (pre ++ (y ∷ [])) front (x ∷ post) (omega arith)
            (omega (arith, length-append pre (y ∷ []))) (omega arith) in
        let around = reverse_loop-round n i j pre x front y post ei (omega arith) later in
        rw
          (
            e,
            append_assoc front (y ∷ []) post,
            reverse_ends x front y,
            append_assoc (reverse front) (x ∷ []) post,
          )
          around
  ]

  -- reverseSamples and reverseMetricSamples never index out of range, and reverse the slice.
  pub reverse_samples-reverse : (s : List A) → reverse_samples s ≡ some (reverse s)
  unfolding reverse_samples
  reverse_samples-reverse s =
      ap (λ t. reverse_loop (length s) 0 (length s - 1) t) (sym (append-nil s))
      ∙ reverse_loop-reverse (length s) 0 (length s - 1) [] s [] (omega arith) refl (omega arith)
      ∙ ap some (append-nil (reverse s))
