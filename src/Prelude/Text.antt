-- ===== src/Prelude/Text.antt =====
-- What the program uses of Go's strings. A Go string is a `String`; `utf8` gives its bytes.
use Prim.Native.Nat.{ℕ, ◌+◌, ◌/◌, ◌%◌}
use Prim.Native.Char.{code}
use Prim.Native.String.{String, ◌++◌ as str_append}
use text.Mathlib.TextLemmas.{nil-append, cons-append}
use mathlib.Core.Bool.{Bool, true, false, ◌&&◌, ◌||◌}
use mathlib.Core.Option.{Option, none, some}
use mathlib.Core.List.{List, [], ◌∷◌, ◌++◌}
use mathlib.Core.Path.{◌≡◌, refl, sym}
use native.Mathlib.Omega.{arith}
use text.Mathlib.TextEquality.{Char-path}
use mathlib.Core.Logic.{inl, inr}
use mcmon.Prelude.Tests.{leb, ltb, ◌==◌, ==_iff, if◌then◌else◌, Bool-cases}

-- The runes of a text.
abbrev pub codes : String → List ℕ
codes String.[] = []
codes (String.◌∷◌ c s) = code c ∷ codes s

-- The bytes of a text, as `[]byte(s)` gives them: UTF-8.
abbrev rune_bytes : ℕ → List ℕ
rune_bytes c =
    if ltb c 0x80
    then c ∷ []
    else if ltb c 0x800
    then (0xc0 + c / 0x40) ∷ (0x80 + c % 0x40) ∷ []
    else if ltb c 0x10000
    then (0xe0 + c / 0x1000) ∷ (0x80 + c / 0x40 % 0x40) ∷ (0x80 + c % 0x40) ∷ []
    else (0xf0 + c / 0x40000)
      ∷ (0x80 + c / 0x1000 % 0x40)
      ∷ (0x80 + c / 0x40 % 0x40)
      ∷ (0x80 + c % 0x40)
      ∷ []

abbrev code_bytes : List ℕ → List ℕ
code_bytes [] = []
code_bytes (c ∷ cs) = rune_bytes c ++ code_bytes cs

unfoldable pub utf8 : String → List ℕ
utf8 s = code_bytes (codes s)

-- `unicode.IsSpace`.
abbrev pub is_space : ℕ → Bool
is_space c =
    leb 9 c && leb c 13
    || c == 32
    || c == 0x85
    || c == 0xa0
    || c == 0x1680
    || leb 0x2000 c && leb c 0x200a
    || c == 0x2028
    || c == 0x2029
    || c == 0x202f
    || c == 0x205f
    || c == 0x3000

-- `strings.TrimSpace(s) == ""`: every rune is a space.
abbrev pub is_blank_codes : List ℕ → Bool
is_blank_codes [] = true
is_blank_codes (c ∷ cs) = is_space c && is_blank_codes cs

unfoldable pub is_blank : String → Bool
is_blank s = is_blank_codes (codes s)

-- A text without the trailing runes for which a test holds of all of them.
abbrev all_codes : (ℕ → Bool) → String → Bool
all_codes test String.[] = true
all_codes test (String.◌∷◌ c s) = test (code c) && all_codes test s

trim_end : (ℕ → Bool) → String → String
trim_end test String.[] = String.[]
trim_end test (String.◌∷◌ c s) =
    let rest = trim_end test s in
    if all_codes test (String.◌∷◌ c s) then String.[] else String.◌∷◌ c rest

trim_start : (ℕ → Bool) → String → String
trim_start test String.[] = String.[]
trim_start test (String.◌∷◌ c s) =
    let rest = trim_start test s in if test (code c) then rest else String.◌∷◌ c s

-- `strings.TrimSpace(s)` and `strings.TrimRight(s, "/")`.
unfoldable pub trim_space : String → String
unfolding trim_start trim_end
trim_space s = trim_end is_space (trim_start is_space s)

unfoldable pub trim_slashes : String → String
unfolding trim_end
trim_slashes s = trim_end (λ c. c == 47) s

all_codes-trim_end :
    (test : ℕ → Bool) (s : String)
    → all_codes test s ≡ false
    → all_codes test (trim_end test s) ≡ false
unfolding trim_end
all_codes-trim_end test String.[] h = cc
all_codes-trim_end test (String.◌∷◌ c s) h = elim (Bool-cases (test (code c))) [
  | inl t ↦
      let later : all_codes test s ≡ false = rw t at h in
      rw h (rw t (all_codes-trim_end test s later))
  | inr f ↦ rw h (rw f)
]

trim_end_idem : (test : ℕ → Bool) (s : String) → trim_end test (trim_end test s) ≡ trim_end test s
unfolding trim_end
trim_end_idem test String.[] = refl
trim_end_idem test (String.◌∷◌ c s) = elim (Bool-cases (all_codes test (String.◌∷◌ c s))) [
  | inl all ↦ rw all
  | inr some_other ↦
      let kept : all_codes test (String.◌∷◌ c (trim_end test s)) ≡ false =
        rw some_other at (all_codes-trim_end test (String.◌∷◌ c s) some_other) in
      rw some_other (rw (kept, trim_end_idem test s))
]

pub trim_slashes_idem : (s : String) → trim_slashes (trim_slashes s) ≡ trim_slashes s
unfolding trim_slashes
trim_slashes_idem s = trim_end_idem (λ c. c == 47) s

-- What follows a prefix of a text; `none` where the text has another beginning.
unfoldable pub after_prefix : String → String → Option String
after_prefix String.[] s = some s
after_prefix (String.◌∷◌ c p) String.[] = none
after_prefix (String.◌∷◌ c p) (String.◌∷◌ d s) =
    let rest = after_prefix p s in if code c == code d then rest else none

-- `a <= b`, on the runes of two texts, which is the order of their bytes in UTF-8.
abbrev pub leb_str : String → String → Bool
leb_str String.[] b = true
leb_str (String.◌∷◌ c a) String.[] = false
leb_str (String.◌∷◌ c a) (String.◌∷◌ d b) =
    let rest = leb_str a b in if code c == code d then rest else ltb (code c) (code d)

pub leb_str_antisym : (a b : String) → leb_str a b ≡ true → leb_str b a ≡ true → a ≡ b
leb_str_antisym String.[] String.[] h k = refl
leb_str_antisym String.[] (String.◌∷◌ d b) h k = absurd (cc k)
leb_str_antisym (String.◌∷◌ c a) String.[] h k = absurd (cc h)
leb_str_antisym (String.◌∷◌ c a) (String.◌∷◌ d b) h k = elim (Bool-cases (code c == code d)) [
  | inl same ↦
      let e : code c ≡ code d = (==_iff (code c) (code d)).0 same in
      let back : (code d == code c) ≡ true = (==_iff (code d) (code c)).1 (sym e) in
      let head : c ≡ d = Char-path c d e in
      let tail = leb_str_antisym a b (rw same at h) (rw back at k) in
      λ i. String.◌∷◌ (head i) (tail i)
  | inr apart ↦ absurd (ground (arith, apart, h, k))
]

-- `strings.HasPrefix(s, prefix)` and `strings.TrimPrefix(s, prefix)`.
unfoldable pub has_prefix : String → String → Bool
has_prefix prefix s = elim (after_prefix prefix s) [ none ↦ false | some rest ↦ true ]

unfoldable pub trim_prefix : String → String → String
trim_prefix prefix s = elim (after_prefix prefix s) [ none ↦ s | some rest ↦ rest ]

pub after_prefix-append : (p s : String) → after_prefix p (str_append p s) ≡ some s
unfolding after_prefix
after_prefix-append String.[] s = rw (nil-append s) refl
after_prefix-append (String.◌∷◌ c p) s =
    let same : (code c == code c) ≡ true = (==_iff (code c) (code c)).1 refl in
    rw (cons-append c p s, same) (after_prefix-append p s)
