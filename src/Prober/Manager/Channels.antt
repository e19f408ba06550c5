-- ===== src/Prober/Manager/Channels.antt =====
-- Lists of channels: closing all of them, and making new ones.
use mcmon.Prelude.{
  ℕ, suc, ◌+◌, ◌≤◌, ◌<◌, ◌≡◌, refl, ap, ◌∙◌, ◌==◌, Bool, true, false, ◌||◌, some, List, [], ◌∷◌,
  ◌++◌, append_assoc, append-nil, length, any, arith, Bool-cases, inl, inr, ==_iff,
}
use mcmon.Config.Target.{Target}
use mcmon.Prober.Schedule.{Task}
use mcmon.Prober.Manager.{Loop, Manager, mark_closed, close_chan, close_all, add, add_all}

abbrev pub has : ℕ → List ℕ → Bool
has c chans = any (λ d. d == c) chans

abbrev pub IsDistinct : List ℕ → Type 0
IsDistinct [] = Unit {0}
IsDistinct (c ∷ chans) = (has c chans ≡ false) × IsDistinct chans

-- What is closed once `chans` are.
abbrev pub closes : List ℕ → (ℕ → Bool) → ℕ → Bool
closes [] f = f
closes (c ∷ chans) f = closes chans (mark_closed c f)

pub closes-has : (chans : List ℕ) (f : ℕ → Bool) (c : ℕ) → closes chans f c ≡ (has c chans || f c)
unfolding mark_closed
closes-has [] f c = refl
closes-has (d ∷ chans) f c = rw (closes-has chans (mark_closed d f) c) (ground arith)

==_refl : (c : ℕ) → (c == c) ≡ true
==_refl c = ground arith

-- A channel of a list is not one that the list lacks.
pub has-apart :
    (c d : ℕ) (chans : List ℕ) → has c chans ≡ false → has d chans ≡ true → (c == d) ≡ false
has-apart c d chans out in_list = elim (Bool-cases (c == d)) [
  | inr apart ↦ apart
  | inl same ↦ cc (ap (λ x. has x chans) ((==_iff c d).0 same), out, in_list)
]

pub close_all-closes :
    (chans : List ℕ) (m : Manager)
    → IsDistinct chans
    → ((c : ℕ) → has c chans ≡ true → m.is_closed c ≡ false)
    → close_all chans m ≡ some (record m { is_closed = closes chans m.is_closed })
unfolding close_all close_chan mark_closed
close_all-closes [] m d h = refl
close_all-closes (c ∷ chans) m (new, d) h =
    rw (h c (ground (arith, ==_refl c)), close_all)
      (close_all-closes chans (record m { is_closed = mark_closed c m.is_closed }) d
        (λ d' held. rw (has-apart c d' chans new held) (h d' (ground (arith, held)))))

-- The channels and the loops that `add` makes from number `n` on.
abbrev pub chans_from : ℕ → List Task → List ℕ
chans_from n [] = []
chans_from n (task ∷ tasks) = n ∷ chans_from (n + 1) tasks

abbrev pub loops_from : Target → ℕ → List Task → List Loop
loops_from t n [] = []
loops_from t n (task ∷ tasks) =
    record { chan = n; target = t; task = task } ∷ loops_from t (n + 1) tasks

pub has-chans_from :
    (c n : ℕ) (tasks : List Task)
    → has c (chans_from n tasks) ≡ true
    → (n ≤ c) × (c < n + length tasks)
has-chans_from c n [] h = cc
has-chans_from c n (task ∷ tasks) h = elim (Bool-cases (n == c)) [
  | inl same ↦ let e = (==_iff n c).0 same in (omega arith, omega arith)
  | inr other ↦
      let (low, high) = has-chans_from c (n + 1) tasks (ground arith) in (omega arith, omega arith)
]

later : (n : ℕ) (tasks : List Task) → has n (chans_from (n + 1) tasks) ≡ false
later n tasks = elim (Bool-cases (has n (chans_from (n + 1) tasks))) [
  | inr h ↦ h
  | inl h ↦ absurd (omega (arith, (has-chans_from n (n + 1) tasks h).0))
]

pub chans_from-IsDistinct : (n : ℕ) (tasks : List Task) → IsDistinct (chans_from n tasks)
chans_from-IsDistinct n [] = tt
chans_from-IsDistinct n (task ∷ tasks) = (later n tasks, chans_from-IsDistinct (n + 1) tasks)

pub add_all-chans_from :
    (t : Target) (tasks : List Task) (chans : List ℕ) (m : Manager)
    → add_all t tasks (chans, m) ≡ (
      chans ++ chans_from m.next_chan tasks,
      record m {
        next_chan = m.next_chan + length tasks;
        loops = m.loops ++ loops_from t m.next_chan tasks;
      },
    )
unfolding add_all add
add_all-chans_from t [] chans m =
    let zero_more : m.next_chan + 0 ≡ m.next_chan = omega arith in
    rw (append-nil chans, append-nil m.loops, zero_more)
add_all-chans_from t (task ∷ tasks) chans m =
    let n = m.next_chan in
    let first : Loop = record { chan = n; target = t; task = task } in
    let one_more : n + 1 + length tasks ≡ n + suc (length tasks) = omega arith in
    add_all-chans_from t tasks (chans ++ (n ∷ []))
      (record m { next_chan = n + 1; loops = m.loops ++ (first ∷ []) })
    ∙ rw (
      append_assoc chans (n ∷ []) (chans_from (n + 1) tasks),
      append_assoc m.loops (first ∷ []) (loops_from t (n + 1) tasks),
      one_more,
    )
