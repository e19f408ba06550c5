-- ===== src/Config/Disk/Atomic.antt =====
-- atomicWriteFile leaves the old content or the new.
use mcmon.Prelude.{
  ◌≡◌, ◌⊎◌, inl, inr, ap, String, Option, some, false, arith, str_eq, eq_iff, eq_refl, Bool-cases,
}
use Prim.Native.String.{len}
use text.Mathlib.TextPositions.{len-append}
use mcmon.Config.Disk.{
  Bytes, Disk, Done, done, failed, crashed, update, put_file, move, temporary, atomic_write_file,
}

tmp-ne-path : (path : String) → str_eq (temporary path) path ≡ false
tmp-ne-path path = elim (Bool-cases (str_eq (temporary path) path)) [
  | inr other ↦ other
  | inl same ↦
      absurd (omega (arith, ap len ((eq_iff (temporary path) path).0 same), len-append path ".tmp"))
]

-- What may stand in the file once the operation has ended so.
abbrev pub Survives {ℓ} : {A : Type ℓ} → Done A → Option Bytes → Bytes → Option Bytes → Type 0
Survives (done a) old bytes now = now ≡ some bytes
Survives failed old bytes now = now ≡ old
Survives crashed old bytes now = (now ≡ old) ⊎ (now ≡ some bytes)

-- However the disk behaves and whenever the process stops, the file holds its old content or the
-- whole new one: the new one if atomicWriteFile returned nil, the old one if it returned an error.
pub atomic_write_file-Survives :
    (path : String) (bytes : Bytes) (d : Disk)
    → Survives
        (atomic_write_file path bytes d).0
        (d.content path)
        bytes
        ((atomic_write_file path bytes d).1.content path)
unfolding atomic_write_file put_file move update
atomic_write_file-Survives path bytes d =
    ground (arith, tmp-ne-path path, eq_refl path, eq_refl (temporary path))

-- No file but this one and its temporary is touched.
pub content-atomic_write_file :
    (path : String) (bytes : Bytes) (d : Disk) (other : String)
    → str_eq path other ≡ false
    → str_eq (temporary path) other ≡ false
    → (atomic_write_file path bytes d).1.content other ≡ d.content other
unfolding atomic_write_file put_file move update
content-atomic_write_file path bytes d other h k = ground arith
