-- ===== src/Service/System.antt =====
-- The system that internal/app/service.go works on: files, and commands that it runs. An operation ends with
-- a value, with an error, or with the process.
use mcmon.Prelude.{
  String, Bool, true, false, Option, none, some, List, ◌∷◌, ◌≡◌, refl, if◌then◌else◌,
}
use mcmon.Config.Disk.{
  Bytes, Disk, Done, done, failed, crashed, Io, fate_of, passed, succeeds, refused, fails, crashes,
}

abbrev pub Command : Type 0
Command = List String

-- What the packages runtime, os and path/filepath say, where `none` is an error; and whether a command
-- succeeds, after the commands that ran before it, the latest first. What a command does to the files is
-- not modelled.
pub record Host : Type 0 where
  pub goos : String
  pub executable : Option String
  pub user_home : Option String
  pub abs : String → Option String
  pub dir : String → String
  pub join : List String → String
  pub works : List Command → Command → Bool

-- `ran` holds the commands that ran, the latest first.
pub record System : Type 0 where
  pub disk : Disk
  pub ran : List Command

abbrev pub Op {ℓ} : Type ℓ → Type ℓ
Op A = System → Done A × System

module _ {ℓ} {A : Type ℓ} where
  abbrev pub return : A → Op A
  return a sys = (done a, sys)

  -- A value, or the error that there is none.
  abbrev pub found : Option A → Op A
  found none sys = (failed, sys)
  found (some a) sys = (done a, sys)

  abbrev pub on_disk : Io A → Op A
  on_disk io sys = let (r, d) = io sys.disk in (r, record sys { disk = d })

  -- `_ = f()`: an error is dropped.
  abbrev drop_error : Done A → System → Done (Unit {0}) × System
  drop_error (done a) sys = (done tt, sys)
  drop_error failed sys = (done tt, sys)
  drop_error crashed sys = (crashed, sys)

  abbrev pub ignored : Op A → Op (Unit {0})
  ignored op sys = let (r, sys') = op sys in drop_error r sys'

module _ {ℓ κ} {A : Type ℓ} {B : Type κ} where
  abbrev pub continue : Done A → (A → Op B) → Op B
  continue (done a) next sys = next a sys
  continue failed next sys = (failed, sys)
  continue crashed next sys = (crashed, sys)

  infixl 10 ◌>>=◌ ◌>>◌
  abbrev pub ◌>>=◌ : Op A → (A → Op B) → Op B
  ◌>>=◌ op next sys = let (r, sys') = op sys in continue r next sys'

  abbrev pub ◌>>◌ : Op A → Op B → Op B
  op >> next = op >>= λ _. next

  -- A block that returns nil has come to its end, step by step.
  bound :
      (r : Done A) (next : A → Op B) (sys s' : System) (b : B)
      → continue r next sys ≡ (done b, s')
      → (a : A) × (r ≡ done a) × (next a sys ≡ (done b, s'))
  bound (done a) next sys s' b e = (a, refl, e)
  bound failed next sys s' b e = absurd (cc e)
  bound crashed next sys s' b e = absurd (cc e)

  pub bind-done :
      (op : Op A) (next : A → Op B) (sys s' : System) (b : B)
      → (op >>= next) sys ≡ (done b, s')
      → (a : A) × ((op sys).0 ≡ done a) × (next a (op sys).1 ≡ (done b, s'))
  bind-done op next sys s' b e = bound (op sys).0 next (op sys).1 s' b e

-- `os.MkdirAll(path, mode)`, of which only whether it succeeds counts.
unfoldable pub make_dirs : Io (Unit {0})
make_dirs d = elim (fate_of d.fates) [
  | succeeds ↦ (done tt, passed d)
  | refused ↦ (failed, passed d)
  | fails n ↦ (failed, passed d)
  | crashes n ↦ (crashed, passed d)
]

abbrev pub is_there : Option Bytes → Bool
is_there none = false
is_there (some bytes) = true

-- fileExists: whether `os.Stat(path)` has no error.
unfoldable pub file_exists : String → Io Bool
file_exists path d = elim (fate_of d.fates) [
  | succeeds ↦ (done (is_there (d.content path)), passed d)
  | refused ↦ (done false, passed d)
  | fails n ↦ (done false, passed d)
  | crashes n ↦ (crashed, passed d)
]

-- run: `cmd.Run()` of a command with its arguments.
unfoldable pub run : Host → Command → Op (Unit {0})
run host command sys =
    (if host.works sys.ran command then done tt else failed, record sys { ran = command ∷ sys.ran })

module _ {ℓ κ μ} {A : Type ℓ} {B : Type κ} {C : Type μ} where
  continue_assoc :
      (r : Done A) (f : A → Op B) (g : B → Op C) (sys : System)
      → continue (continue r f sys).0 g (continue r f sys).1 ≡ continue r (λ a. f a >>= g) sys
  continue_assoc (done a) f g sys = refl
  continue_assoc failed f g sys = refl
  continue_assoc crashed f g sys = refl

  pub bind_assoc :
      (op : Op A) (f : A → Op B) (g : B → Op C) (sys : System)
      → ((op >>= f) >>= g) sys ≡ (op >>= λ a. f a >>= g) sys
  bind_assoc op f g sys = continue_assoc (op sys).0 f g (op sys).1
