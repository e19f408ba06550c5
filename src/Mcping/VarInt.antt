-- ===== src/Mcping/VarInt.antt =====
-- writeVarInt, readVarInt and writeString of internal/mcping/mcping.go.
pub mod Stream
pub mod Encoding
pub mod RoundTrip
use mcmon.Prelude.{
  ℕ, zero, suc, ◌+◌, ◌-◌, ◌*◌, ◌/◌, ◌%◌, ◌^◌, ◌<◌, ◌≡◌, ◌≢◌, bit_and, bit_or, ℤ, pos, negsuc, List,
  ◌∷◌, [], ◌++◌, arith, ltb, ◌==◌, if◌then◌else◌, length,
}
use mcmon.Prelude.Order.{lt_wf}
use mcmon.Mcping.Result.{Result, err, Error, stuck, varint_too_long, Exec, pure, fail, ◌>>=◌}
use mcmon.Mcping.Reader.{ByteReader}
use mathlib.Core.Logic.{dite}
use mathlib.Core.WellFounded.{Acc}
use native.Mathlib.Decide.{ℕ_discrete}

abbrev pub u32_mod : ℕ
u32_mod = 2 ^ 32

-- `uint32(v)` of an `int`: the value modulo 2^32.
unfoldable pub to_u32 : ℤ → ℕ
to_u32 (pos n) = n % u32_mod
to_u32 (negsuc n) = u32_mod - 1 - n % u32_mod

shift_shrinks : (uv : ℕ) → uv / 128 * 128 ≢ 0 → uv / 128 < uv
shift_shrinks uv h = omega arith

-- `uv &^ 0x7F` is `uv / 128 * 128`, `uv & 0x7F` is `uv % 128`, and `byte(…)` is `% 256`.
write_loop : List ℕ → (uv : ℕ) → Acc ◌<◌ uv → List ℕ
write_loop buf uv (Acc.intro _ smaller) =
    dite (ℕ_discrete (uv / 128 * 128) 0) (λ _. buf ++ (uv % 256 ∷ []))
      (λ more.
        write_loop (buf ++ (bit_or (uv % 128 % 256) 0x80 ∷ [])) (uv / 128)
          (smaller _ (shift_shrinks uv more)))

unfoldable pub write_var_int : List ℕ → ℤ → List ℕ
unfolding write_loop lt_wf ℕ_discrete to_u32 shift_shrinks
write_var_int buf v = write_loop buf (to_u32 v) (lt_wf.apply (to_u32 v))

-- `x << n` of a uint32.
abbrev pub shl32 : ℕ → ℕ → ℕ
shl32 x n = x * 2 ^ n % u32_mod

module _ {R : Type 0} ⦃reader : ByteReader R⦄ where
  -- One round of the loop reads a byte; the sixth round returns, so six are enough.
  read_loop : ℕ → ℕ → ℕ → Exec R ℕ
  read_loop zero result num_read = fail stuck
  read_loop (suc fuel) result num_read = do
    b ← reader.read_byte
    let result' = bit_or result (shl32 (bit_and b 0x7f) (7 * num_read))
    let num_read' = num_read + 1
    let more = read_loop fuel result' num_read'
    if ltb 5 num_read'
        then fail varint_too_long
        else if bit_and b 0x80 == 0
        then pure result'
        else more

  unfoldable pub read_var_int : Exec R ℕ
  unfolding read_loop
  read_var_int = read_loop 6 0 0

-- A Go string is the list of its bytes here.
unfoldable pub write_string : List ℕ → List ℕ → List ℕ
write_string buf s = write_var_int buf (pos (length s)) ++ s
