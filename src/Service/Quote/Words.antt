-- ===== src/Service/Quote/Words.antt =====
-- What systemd reads of a quoted word: the word.
use mcmon.Prelude.{
  ◌≡◌, refl, ap, ◌∙◌, ◌==◌, ==_iff, ◌||◌, ◌&&◌, not, inl, inr, String, Bool, true, false, Option,
  none, some, after_prefix, after_prefix-append, if◌then◌else◌, Bool-cases,
}
use Prim.Native.Char.{Char, code}
use Prim.Native.String.{◌++◌}
use text.Mathlib.TextEquality.{Char-path}
use text.Mathlib.TextLemmas.{nil-append, cons-append, append_assoc}
use mcmon.Service.Quote.{replace_all, systemd_quote, exec_start}

abbrev push : Char → Option (String × String) → Option (String × String)
push c none = none
push c (some (word, rest)) = some (String.◌∷◌ c word, rest)

-- The runes that systemd does not take as they stand between quotation marks, apart from the backslash: it
-- expands what follows `%` and `$`, and a line ends at a line feed, a carriage return and a NUL.
abbrev pub is_special : Char → Bool
is_special c = code c == 37 || code c == 36 || code c == 10 || code c == 13 || code c == 0

-- A text without them.
abbrev pub is_plain : String → Bool
is_plain String.[] = true
is_plain (String.◌∷◌ c s) = not (is_special c) && is_plain s

-- The rest of a quoted word, as systemd.syntax has it, as far as the escapes `\\` and `\"` go and where
-- no rune is special: the word without its quotation marks and escapes, and what follows it. The flag
-- says whether a backslash came last.
abbrev pub read_rest : Bool → String → Option (String × String)
read_rest escaped String.[] = none
read_rest true (String.◌∷◌ c s) =
    let later = push c (read_rest false s) in if code c == 92 || code c == 34 then later else none
read_rest false (String.◌∷◌ c s) =
    let in_escape = read_rest true s in
    let later = push c (read_rest false s) in
    if code c == 34
    then some ("", s)
    else if code c == 92
    then in_escape
    else if is_special c
    then none
    else later

abbrev pub read_quoted : String → Option (String × String)
read_quoted String.[] = none
read_quoted (String.◌∷◌ c s) = let word = read_rest false s in if code c == 34 then word else none

abbrev backslash : Char
backslash = Char.char 92 tt

abbrev mark : Char
mark = Char.char 34 tt

two-append :
    (c d : Char) (s : String)
    → (String.◌∷◌ c (String.◌∷◌ d "")) ++ s ≡ String.◌∷◌ c (String.◌∷◌ d s)
two-append c d s =
    cons-append c (String.◌∷◌ d "") s
    ∙ ap (String.◌∷◌ c) (cons-append d "" s ∙ ap (String.◌∷◌ d) (nil-append s))

mark-append : (s : String) → "\"" ++ s ≡ String.◌∷◌ mark s
mark-append s = cons-append mark "" s ∙ ap (String.◌∷◌ mark) (nil-append s)

-- The two passes of systemdQuote at once, rune by rune.
abbrev escaped : String → String
escaped s = replace_all 34 "\\\"" (replace_all 92 "\\\\" s)

escaped-backslash :
    (s : String)
    → escaped (String.◌∷◌ backslash s) ≡ String.◌∷◌ backslash (String.◌∷◌ backslash (escaped s))
unfolding replace_all
escaped-backslash s =
    rw (two-append backslash backslash (replace_all 92 "\\\\" s), replace_all) refl

escaped-mark :
    (s : String) → escaped (String.◌∷◌ mark s) ≡ String.◌∷◌ backslash (String.◌∷◌ mark (escaped s))
unfolding replace_all
escaped-mark s = two-append backslash mark (escaped s)

escaped-plain :
    (c : Char) (s : String)
    → (code c == 92) ≡ false
    → (code c == 34) ≡ false
    → escaped (String.◌∷◌ c s) ≡ String.◌∷◌ c (escaped s)
unfolding replace_all
escaped-plain c s h k = rw (h, replace_all, k) refl

plain-cons :
    (c : Char) (s : String)
    → is_plain (String.◌∷◌ c s) ≡ true
    → (is_special c ≡ false) × (is_plain s ≡ true)
plain-cons c s h = elim (Bool-cases (is_special c)) [
  | inl special ↦ absurd (cc (rw special at h))
  | inr plain ↦ (plain, rw plain at h)
]

read-escaped :
    (s rest : String)
    → is_plain s ≡ true
    → read_rest false (escaped s ++ ("\"" ++ rest)) ≡ some (s, rest)
read-escaped String.[] rest fine =
    unfold replace_all in rw (nil-append ("\"" ++ rest), mark-append rest) refl
read-escaped (String.◌∷◌ c s) rest fine = elim (Bool-cases (code c == 92)) [
  | inl same ↦
      let e : c ≡ backslash = Char-path c backslash ((==_iff (code c) 92).0 same) in
      rw
        (
          e,
          escaped-backslash s,
          cons-append backslash (String.◌∷◌ backslash (escaped s)) ("\"" ++ rest),
          cons-append backslash (escaped s) ("\"" ++ rest),
          read-escaped s rest (plain-cons c s fine).1,
        )
        refl
  | inr other ↦ elim (Bool-cases (code c == 34)) [
    | inl same ↦
        let e : c ≡ mark = Char-path c mark ((==_iff (code c) 34).0 same) in
        rw
          (
            e,
            escaped-mark s,
            cons-append backslash (String.◌∷◌ mark (escaped s)) ("\"" ++ rest),
            cons-append mark (escaped s) ("\"" ++ rest),
            read-escaped s rest (plain-cons c s fine).1,
          )
          refl
    | inr plain ↦
        rw
          (
            escaped-plain c s other plain,
            cons-append c (escaped s) ("\"" ++ rest),
            plain,
            other,
            (plain-cons c s fine).0,
            read-escaped s rest (plain-cons c s fine).1,
          )
          refl
  ]
]

-- A quoted word is read back as the text that was quoted, if that has no special rune.
pub read_quoted-systemd_quote :
    (s rest : String) → is_plain s ≡ true → read_quoted (systemd_quote s ++ rest) ≡ some (s, rest)
unfolding systemd_quote
read_quoted-systemd_quote s rest fine =
    rw
      (
        append_assoc "\"" (escaped s ++ "\"") rest,
        append_assoc (escaped s) "\"" rest,
        mark-append (escaped s ++ ("\"" ++ rest)),
      )
      (read-escaped s rest fine)

-- The two paths of a command `"…" serve -config "…"`, and what follows it.
abbrev pub read_command : String → Option (String × String × String)
read_command line = elim (read_quoted line) [
  | none ↦ none
  | some (exe, later) ↦ elim (after_prefix " serve -config " later) [
    | none ↦ none
    | some config ↦ elim (read_quoted config) [
      | none ↦ none
      | some (config_path, rest) ↦ some (exe, config_path, rest)
    ]
  ]
]

-- The command of the systemd unit is read as the program with the arguments serve, -config and the path
-- of the configuration, if the two paths have no special rune.
pub read_command-exec_start :
    (exe config_path rest : String)
    → is_plain exe ≡ true
    → is_plain config_path ≡ true
    → read_command (exec_start exe config_path ++ rest) ≡ some (exe, config_path, rest)
unfolding exec_start
read_command-exec_start exe config_path rest fine well =
    let config = systemd_quote config_path ++ rest in
    rw
      (
        append_assoc (systemd_quote exe) (" serve -config " ++ systemd_quote config_path) rest,
        append_assoc " serve -config " (systemd_quote config_path) rest,
        read_command,
        read_quoted-systemd_quote exe (" serve -config " ++ config) fine,
        after_prefix-append " serve -config " config,
        read_quoted-systemd_quote config_path rest well,
      )
      refl
