-- ===== src/Config/Targets/Laws.antt =====
-- Targets in the list behave as a dictionary by id that keeps its order.
use mcmon.Prelude.{
  ◌≡◌, refl, inl, inr, String, true, false, Option, none, some, List, [], ◌∷◌, arith, str_eq,
  eq_iff, if◌then◌else◌, All, Bool-cases,
}
use mcmon.Config.Target.{Target}
use mathlib.Core.Option
use mcmon.Config.Targets.{find_target, put_target, cut_target}

-- Get after the replacement finds the new target under its id, and what it found before elsewhere.
pub find_target-put_target :
    (t : Target) (ts : List Target) (j : String)
    → find_target j (put_target t ts) ≡ (if str_eq t.id j then some t else find_target j ts)
unfolding find_target put_target
find_target-put_target t [] j = refl
find_target-put_target t (x ∷ ts) j =
    ground (arith, eq_iff x.id t.id, eq_iff x.id j, eq_iff t.id j, find_target-put_target t ts j)

-- No two targets have one id.
abbrev pub Fresh : String → List Target → Type 0
Fresh id ts = All (λ (t : Target). str_eq t.id id ≡ false) ts

abbrev pub IsUnique : List Target → Type 0
IsUnique [] = Unit
IsUnique (t ∷ ts) = Fresh t.id ts × IsUnique ts

pub find_target-none : (id : String) (ts : List Target) → Fresh id ts → find_target id ts ≡ none
unfolding find_target
find_target-none id [] h = refl
find_target-none id (t ∷ ts) (h, hs) = rw h (find_target-none id ts hs)

Fresh-put_target :
    (id : String) (t : Target) (ts : List Target)
    → str_eq t.id id ≡ false
    → Fresh id ts
    → Fresh id (put_target t ts)
unfolding put_target
Fresh-put_target id t [] h hs = (h, tt)
Fresh-put_target id t (x ∷ ts) h hs = ground (arith, Fresh-put_target id t ts h)

str_eq-false : (a b c : String) → str_eq a b ≡ true → str_eq b c ≡ false → str_eq a c ≡ false
str_eq-false a b c h k = ground (arith, eq_iff a b, eq_iff b c, eq_iff a c)

str_eq_flip : (a b : String) → str_eq a b ≡ false → str_eq b a ≡ false
str_eq_flip a b h = ground (arith, eq_iff a b, eq_iff b a)

Fresh-transfer : (a b : String) (ts : List Target) → str_eq a b ≡ true → Fresh a ts → Fresh b ts
Fresh-transfer a b [] e h = tt
Fresh-transfer a b (t ∷ ts) e (h, hs) =
    (ground (arith, eq_iff a b, eq_iff t.id b, eq_iff t.id a), Fresh-transfer a b ts e hs)

-- Upsert's replacement keeps ids unique.
pub put_target-IsUnique : (t : Target) (ts : List Target) → IsUnique ts → IsUnique (put_target t ts)
unfolding put_target
put_target-IsUnique t [] u = (tt, tt)
put_target-IsUnique t (x ∷ ts) (fresh, u) = elim (Bool-cases (str_eq x.id t.id)) [
  | inl same ↦ rw same (Fresh-transfer x.id t.id ts same fresh, u)
  | inr other ↦
      rw other
        (Fresh-put_target x.id t ts (str_eq_flip x.id t.id other) fresh, put_target-IsUnique t ts u)
]

-- What the removal does, in one statement for both of its outcomes: without the id nothing is found
-- and nothing is cut; with it exactly that id is gone.
abbrev pub CutLaw : String → List Target → Option (List Target) → Type 0
CutLaw id ts none = find_target id ts ≡ none
CutLaw id ts (some rest) =
    ((t : Target) × (find_target id ts ≡ some t))
    × ((j : String) → find_target j rest ≡ (if str_eq id j then none else find_target j ts))

CutLaw-cons :
    (id : String) (t : Target) (ts : List Target) (o : Option (List Target))
    → str_eq t.id id ≡ false
    → CutLaw id ts o
    → CutLaw id (t ∷ ts) (Option.map (λ rest. t ∷ rest) o)
unfolding find_target
CutLaw-cons id t ts none h law = rw h law
CutLaw-cons id t ts (some rest) h ((found, at), law) =
    ((found, rw h at), λ j. ground (arith, law j, eq_iff t.id j, eq_iff id j, eq_iff t.id id))

CutLaw-head :
    (id : String) (t : Target) (ts : List Target)
    → str_eq t.id id ≡ true
    → Fresh t.id ts
    → CutLaw id (t ∷ ts) (some ts)
unfolding find_target
CutLaw-head id t ts h fresh = (
  (t, rw h),
  λ j. ground (
    arith,
    eq_iff t.id j,
    eq_iff id j,
    eq_iff t.id id,
    find_target-none id ts (Fresh-transfer t.id id ts h fresh),
  ),
)

pub cut_target-CutLaw :
    (id : String) (ts : List Target) → IsUnique ts → CutLaw id ts (cut_target id ts)
unfolding cut_target
cut_target-CutLaw id [] u = unfold find_target in refl
cut_target-CutLaw id (t ∷ ts) (fresh, u) = elim (Bool-cases (str_eq t.id id)) [
  | inl same ↦ rw same (CutLaw-head id t ts same fresh)
  | inr other ↦ rw other (CutLaw-cons id t ts (cut_target id ts) other (cut_target-CutLaw id ts u))
]

-- A property of every target survives both loops.
module _ (P : Target → Type 0) where
  pub All-put_target : (t : Target) (ts : List Target) → P t → All P ts → All P (put_target t ts)
  unfolding put_target
  All-put_target t [] p h = (p, tt)
  All-put_target t (x ∷ ts) p (h, hs) = elim (Bool-cases (str_eq x.id t.id)) [
    | inl same ↦ rw same (p, hs)
    | inr other ↦ rw other (h, All-put_target t ts p hs)
  ]

  -- The property of what is cut to.
  abbrev pub AllCut : Option (List Target) → Type 0
  AllCut none = Unit
  AllCut (some rest) = All P rest

  AllCut-cons :
      (t : Target) (o : Option (List Target)) → P t → AllCut o → AllCut (Option.map (λ r. t ∷ r) o)
  AllCut-cons t none p h = tt
  AllCut-cons t (some rest) p h = (p, h)

  pub All-cut_target : (id : String) (ts : List Target) → All P ts → AllCut (cut_target id ts)
  unfolding cut_target
  All-cut_target id [] h = tt
  All-cut_target id (t ∷ ts) (h, hs) = elim (Bool-cases (str_eq t.id id)) [
    | inl same ↦ rw same hs
    | inr other ↦ rw other (AllCut-cons t (cut_target id ts) h (All-cut_target id ts hs))
  ]

abbrev pub UniqueCut : Option (List Target) → Type 0
UniqueCut none = Unit
UniqueCut (some rest) = IsUnique rest

UniqueCut-cons :
    (t : Target) (o : Option (List Target))
    → AllCut (λ (x : Target). str_eq x.id t.id ≡ false) o
    → UniqueCut o
    → UniqueCut (Option.map (λ r. t ∷ r) o)
UniqueCut-cons t none fresh u = tt
UniqueCut-cons t (some rest) fresh u = (fresh, u)

pub cut_target-UniqueCut :
    (id : String) (ts : List Target) → IsUnique ts → UniqueCut (cut_target id ts)
unfolding cut_target
cut_target-UniqueCut id [] u = tt
cut_target-UniqueCut id (t ∷ ts) (fresh, u) = elim (Bool-cases (str_eq t.id id)) [
  | inl same ↦ rw same u
  | inr other ↦ rw other (
      UniqueCut-cons t (cut_target id ts)
        (All-cut_target (λ (x : Target). str_eq x.id t.id ≡ false) id ts fresh)
        (cut_target-UniqueCut id ts u))
]
