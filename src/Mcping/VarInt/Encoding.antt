-- ===== src/Mcping/VarInt/Encoding.antt =====
-- What writeVarInt writes, in plain arithmetic, and the shape of it.
use mcmon.Prelude.{
  ℕ, zero, suc, ◌+◌, ◌/◌, ◌%◌, ◌^◌, ◌≤◌, ◌<◌, ◌≡◌, bit_or, ℤ, pos, negsuc, List, [], ◌∷◌, ◌++◌,
  append_assoc, arith, ltb, if◌then◌else◌, length, All,
}
use mcmon.Prelude.Bits.{bit_or_mark}
use mcmon.Prelude.Order.{lt_wf}
use mcmon.Mcping.VarInt.{u32_mod, to_u32, write_loop, write_var_int}
use mathlib.Core.WellFounded.{Acc}

-- The groups of seven bits of a number below 128 ^ (k + 1), the lowest first, all but the last with
-- the top bit set.
unfoldable pub groups : ℕ → ℕ → List ℕ
groups zero uv = uv ∷ []
groups (suc k) uv =
    let rest = groups k (uv / 128) in if ltb uv 128 then uv ∷ [] else (uv % 128 + 128) ∷ rest

marked : (uv : ℕ) → bit_or (uv % 128 % 256) 0x80 ≡ uv % 128 + 128
marked uv = rw (bit_or_mark (uv % 128 % 256) (omega arith)) (omega arith)

write_loop-groups :
    (k : ℕ) (buf : List ℕ) (uv : ℕ) (w : Acc ◌<◌ uv)
    → uv < 128 ^ suc k
    → write_loop buf uv w ≡ buf ++ groups k uv
unfolding write_loop groups
write_loop-groups zero buf uv (Acc.intro _ smaller) h = ground arith
write_loop-groups (suc k) buf uv (Acc.intro _ smaller) h =
    let byte : List ℕ = (uv % 128 + 128) ∷ [] in
    grind (
      arith,
      marked uv,
      λ (w : Acc ◌<◌ (uv / 128)). write_loop-groups k (buf ++ byte) (uv / 128) w (omega arith),
      append_assoc buf byte (groups k (uv / 128)),
    )

pub to_u32-lt : (v : ℤ) → to_u32 v < u32_mod
unfolding to_u32
to_u32-lt (pos n) = omega arith
to_u32-lt (negsuc n) = omega arith

pub write_var_int-groups : (buf : List ℕ) (v : ℤ) → write_var_int buf v ≡ buf ++ groups 4 (to_u32 v)
unfolding write_var_int
write_var_int-groups buf v =
    write_loop-groups 4 buf (to_u32 v) (lt_wf.apply (to_u32 v)) (omega (arith, to_u32-lt v))

groups-All : (k uv : ℕ) → uv < 128 ^ suc k → All (λ b. b < 256) (groups k uv)
unfolding groups
groups-All zero uv h = omega arith
groups-All (suc k) uv h = ground (arith, groups-All k (uv / 128) (omega arith))

length-groups : (k uv : ℕ) → (1 ≤ length (groups k uv)) × (length (groups k uv) ≤ k + 1)
unfolding groups
length-groups zero uv = omega arith
length-groups (suc k) uv = ground (arith, length-groups k (uv / 128))

-- For every int, negative ones included, writeVarInt keeps what the buffer holds and appends 1 to 5
-- bytes.
pub write_var_int_shape :
    (buf : List ℕ) (v : ℤ)
    → (bytes : List ℕ) × (write_var_int buf v ≡ buf ++ bytes)
      × All (λ b. b < 256) bytes
      × (1 ≤ length bytes)
      × (length bytes ≤ 5)
write_var_int_shape buf v =
    let (low, high) = length-groups 4 (to_u32 v) in
    (
      groups 4 (to_u32 v),
      write_var_int-groups buf v,
      groups-All 4 (to_u32 v) (omega (arith, to_u32-lt v)),
      low,
      high,
    )
