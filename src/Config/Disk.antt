-- ===== src/Config/Disk.antt =====
-- atomicWriteFile of internal/app/config.go, over a disk on which every operation may fail, and on
-- which the process may stop at any moment.
pub mod Atomic
use mcmon.Prelude.{◌==◌, ℕ, String, Option, none, some, List, [], ◌∷◌, str_eq, take, if◌then◌else◌}
use Prim.Native.String.{◌++◌}

abbrev pub Bytes : Type 0
Bytes = List ℕ

-- What happens to the next operation. `refused` has no effect, `fails n` and `crashes n` write `n`
-- bytes first (a rename is done where `n` is not 0), and with `crashes` the process stops.
pub data Fate : Type 0 where
  succeeds refused : Fate
  fails crashes : ℕ → Fate

pub record Disk : Type 0 where
  pub content : String → Option Bytes
  pub fates : List Fate

-- How a sequence of operations ends.
pub data Done {ℓ} (A : Type ℓ) : Type ℓ where
  done : A → Done A
  failed : Done A
  crashed : Done A

abbrev pub Io {ℓ} : Type ℓ → Type ℓ
Io A = Disk → Done A × Disk

-- The contents with one file replaced.
unfoldable pub update : (String → Option Bytes) → String → Option Bytes → String → Option Bytes
update content path new other = if str_eq path other then new else content other

-- The fate of the next operation; beyond the list operations succeed.
abbrev pub fate_of : List Fate → Fate
fate_of [] = succeeds
fate_of (f ∷ fs) = f

abbrev pub later_fates : List Fate → List Fate
later_fates [] = []
later_fates (f ∷ fs) = fs

-- The disk after an operation, without and with a change of one file.
abbrev pub passed : Disk → Disk
passed d = record d { fates = later_fates d.fates }

unfoldable pub put_file : String → Option Bytes → Disk → Disk
unfolding update
put_file path new d = record { content = update d.content path new; fates = later_fates d.fates }

-- `os.WriteFile(path, data, mode)`.
unfoldable pub write_file : String → Bytes → Io (Unit {0})
write_file path bytes d = elim (fate_of d.fates) [
  | succeeds ↦ (done tt, put_file path (some bytes) d)
  | refused ↦ (failed, passed d)
  | fails n ↦ (failed, put_file path (some (take n bytes)) d)
  | crashes n ↦ (crashed, put_file path (some (take n bytes)) d)
]

move : String → String → Option Bytes → Disk → Disk
move old new bytes d = record {
  content = update (update d.content old none) new bytes;
  fates = later_fates d.fates;
}

-- `os.Rename(old, new)`: one step, which is done or not done.
unfoldable pub rename : String → String → Io (Unit {0})
unfolding move update
rename old new d = elim (d.content old) [
  | none ↦ (failed, passed d)
  | some bytes ↦ elim (fate_of d.fates) [
    | succeeds ↦ (done tt, move old new (some bytes) d)
    | refused ↦ (failed, passed d)
    | fails n ↦ (failed, passed d)
    | crashes n ↦ (crashed, if n == 0 then passed d else move old new (some bytes) d)
  ]
]

-- `os.Remove(path)`.
unfoldable pub remove : String → Io (Unit {0})
remove path d = elim (fate_of d.fates) [
  | succeeds ↦ (done tt, put_file path none d)
  | refused ↦ (failed, passed d)
  | fails n ↦ (failed, passed d)
  | crashes n ↦ (crashed, if n == 0 then passed d else put_file path none d)
]

-- What follows an operation: one way where its error is nil, another where it is not, and nothing
-- where the process has stopped.
abbrev pub handle {ℓ κ} :
    {A : Type ℓ} {B : Type κ} → Done A × Disk → (A → Io B) → Io B → Done B × Disk
handle (done a, d) next on_error = next a d
handle (failed, d) next on_error = on_error d
handle (crashed, d) next on_error = (crashed, d)

abbrev pub return_nil : Io (Unit {0})
return_nil d = (done tt, d)

abbrev pub return_error {ℓ} : {A : Type ℓ} → Io A
return_error d = (failed, d)

abbrev pub temporary : String → String
temporary path = path ++ ".tmp"

unfoldable pub atomic_write_file : String → Bytes → Io (Unit {0})
unfolding write_file rename remove
atomic_write_file path bytes d =
    let tmp = temporary path in
    handle (write_file tmp bytes d)
      (λ _ d1.
        handle (rename tmp path d1) (λ _. return_nil)
          (λ d2. handle (remove tmp d2) (λ _. return_error) return_error))
      return_error
