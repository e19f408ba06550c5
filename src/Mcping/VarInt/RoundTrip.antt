-- ===== src/Mcping/VarInt/RoundTrip.antt =====
-- readVarInt after writeVarInt, and readVarInt on any input.
use mcmon.Prelude.{
  ℕ, zero, suc, ◌+◌, ◌*◌, ◌/◌, ◌%◌, ◌^◌, ◌≤◌, ◌<◌, ◌≡◌, bit_and, bit_or, ℤ, List, [], ◌∷◌, ◌++◌, ap,
  arith, ltb, ◌==◌, length, ◌⊎◌, inl, inr, refl, ◌∙◌, Bool-cases,
}
use mcmon.Prelude.Bits.{bit_and_low, bit_and_top, bit_or-shifted, bit_or-lt}
use mcmon.Mcping.Result.{Result, ok, err, Error, varint_too_long}
use mcmon.Mcping.Reader.{ByteReader}
use mcmon.Mcping.VarInt.{u32_mod, to_u32, shl32, read_loop, read_var_int, write_var_int}
use mcmon.Mcping.VarInt.Stream.{
  Stream, stream_byte_reader, stream_of, SameOutcome, read_var_int-SameOutcome,
}
use mcmon.Mcping.VarInt.Encoding.{groups, to_u32-lt, write_var_int-groups}
use native.Mathlib.Nat.{div-add-mod}
use native.Mathlib.Numerals.{towards_suc}

seven_more : (n : ℕ) → 2 ^ (7 * (n + 1)) ≡ 128 * 2 ^ (7 * n)
seven_more n =
    let more : 7 * (n + 1) ≡ 7 * n + 7 = omega arith in rw more (simp towards_suc (omega arith))

-- A byte's group joins what was read, where it fits 32 bits.
join :
    (a b n : ℕ)
    → b < 256
    → a < 2 ^ (7 * n)
    → a + b % 128 * 2 ^ (7 * n) < u32_mod
    → bit_or a (shl32 (bit_and b 0x7f) (7 * n)) ≡ a + b % 128 * 2 ^ (7 * n)
join a b n hb ha fits = rw (bit_and_low b hb, unwrapped) (bit_or-shifted (7 * n) a (b % 128) ha)
  where
    unwrapped : b % 128 * 2 ^ (7 * n) % u32_mod ≡ b % 128 * 2 ^ (7 * n)
    unwrapped = omega arith

abbrev on_stream : List ℕ → Error → Stream
on_stream bytes ending = record { bytes = bytes; ending = ending }

module _ (fuel a n : ℕ) (rest : List ℕ) (ending : Error) (early : n ≤ 4)
    (low : a < 2 ^ (7 * n)) where
  last_byte :
      (w : ℕ)
      → w < 128
      → a + w * 2 ^ (7 * n) < u32_mod
      → read_loop (suc fuel) a n (on_stream (w ∷ rest) ending)
        ≡ (ok (a + w * 2 ^ (7 * n)), on_stream rest ending)
  unfolding read_loop
  last_byte w hw fits = ground (arith, bit_and_top w, join a w n)

  inner_byte :
      (g : ℕ)
      → g < 128
      → a + g * 2 ^ (7 * n) < u32_mod
      → read_loop (suc fuel) a n (on_stream ((g + 128) ∷ rest) ending)
        ≡ read_loop fuel (a + g * 2 ^ (7 * n)) (n + 1) (on_stream rest ending)
  unfolding read_loop
  inner_byte g hg fits = ground (arith, bit_and_top (g + 128), join a (g + 128) n)

split_group : (w n : ℕ) → w * 2 ^ (7 * n) ≡ w % 128 * 2 ^ (7 * n) + w / 128 * 2 ^ (7 * (n + 1))
split_group w n = omega (
  arith,
  ap (λ (t : ℕ). t * 2 ^ (7 * n)) (div-add-mod w 128),
  ap (λ (t : ℕ). w / 128 * t) (seven_more n),
)

group-lt : (w n a : ℕ) → a < 2 ^ (7 * n) → a + w % 128 * 2 ^ (7 * n) < 2 ^ (7 * (n + 1))
group-lt w n a h = grind (arith, seven_more n)

-- `w` is what is still to be read, and it counts from bit `7 * n` on.
read_loop-groups :
    (k w fuel a n : ℕ) (rest : List ℕ) (ending : Error)
    → k < fuel
    → n + k ≤ 4
    → w < 128 ^ suc k
    → a < 2 ^ (7 * n)
    → a + w * 2 ^ (7 * n) < u32_mod
    → read_loop fuel a n (on_stream (groups k w ++ rest) ending)
      ≡ (ok (a + w * 2 ^ (7 * n)), on_stream rest ending)
unfolding groups
read_loop-groups k w zero a n rest ending hf hn hw ha fits = elim hf [ ]
read_loop-groups zero w (suc fuel) a n rest ending hf hn hw ha fits =
    last_byte fuel a n rest ending (omega arith) ha w hw fits
read_loop-groups (suc k) w (suc fuel) a n rest ending hf hn hw ha fits = ground (
  arith,
  last_byte fuel a n rest ending (omega arith) ha w,
  split_group w n,
  group-lt w n a,
  inner_byte fuel a n (groups k (w / 128) ++ rest) ending (omega arith) ha (w % 128),
  read_loop-groups k (w / 128) fuel (a + w % 128 * 2 ^ (7 * n)) (n + 1) rest ending (omega arith),
)

read_stream-groups :
    (uv : ℕ) (rest : List ℕ) (ending : Error)
    → uv < u32_mod
    → read_var_int (on_stream (groups 4 uv ++ rest) ending) ≡ (ok uv, on_stream rest ending)
unfolding read_var_int
read_stream-groups uv rest ending h = ground (arith, read_loop-groups 4 uv 6 0 0 rest ending)

-- How reading a varint may end when `n` bytes of it are read: with a uint32 after 1 to 5 bytes in
-- all, at the end of the stream before the sixth byte, or refused at the sixth byte.
abbrev pub Verdict : ℕ → List ℕ → Error → Result ℕ → List ℕ → Type 0
Verdict n bytes ending (ok v) rest =
    (v < u32_mod) × (length rest < length bytes) × (length bytes + n ≤ length rest + 5)
Verdict n bytes ending (err e) rest =
    ((e ≡ ending) × (rest ≡ []) × (length bytes + n ≤ 5))
    ⊎ ((e ≡ varint_too_long) × (length bytes + n ≡ length rest + 6))

Verdict-cons :
    (n b : ℕ) (bytes : List ℕ) (ending : Error) (x : Result ℕ) (rest : List ℕ)
    → Verdict (n + 1) bytes ending x rest
    → Verdict n (b ∷ bytes) ending x rest
Verdict-cons n b bytes ending (ok v) rest h = omega arith
Verdict-cons n b bytes ending (err e) rest (inl (same, none_left, few)) =
    inl (same, none_left, omega arith)
Verdict-cons n b bytes ending (err e) rest (inr (long, six)) = inr (long, omega arith)

join-lt : (a b n : ℕ) → a < u32_mod → bit_or a (shl32 (bit_and b 0x7f) (7 * n)) < u32_mod
join-lt a b n h = bit_or-lt 32 a _ h (omega arith)

read_loop-Verdict :
    (fuel a n : ℕ) (bytes : List ℕ) (ending : Error)
    → 0 < fuel
    → n + fuel ≡ 6
    → a < u32_mod
    → Verdict n bytes ending
        (read_loop fuel a n (on_stream bytes ending)).0
        (read_loop fuel a n (on_stream bytes ending)).1.bytes
unfolding read_loop
read_loop-Verdict zero a n bytes ending pos_fuel hn ha = elim pos_fuel [ ]
read_loop-Verdict (suc fuel) a n [] ending pos_fuel hn ha = inl (refl, refl, omega arith)
read_loop-Verdict (suc fuel) a n (b ∷ bytes) ending pos_fuel hn ha =
    elim (Bool-cases (ltb 5 (n + 1))) [
      | inl sixth ↦ rw sixth (inr (refl, ground arith))
      | inr early ↦ rw early (elim (Bool-cases (bit_and b 0x80 == 0)) [
        | inl last ↦ rw last (join-lt a b n ha, omega arith, ground arith)
        | inr more ↦ rw more (
            Verdict-cons n b bytes ending _ _ (
              read_loop-Verdict fuel (bit_or a (shl32 (bit_and b 0x7f) (7 * n))) (n + 1) bytes
                ending (ground arith) (omega arith) (join-lt a b n ha)))
      ])
    ]

read_stream-Verdict :
    (bytes : List ℕ) (ending : Error)
    → Verdict 0 bytes ending
        (read_var_int (on_stream bytes ending)).0
        (read_var_int (on_stream bytes ending)).1.bytes
unfolding read_var_int
read_stream-Verdict bytes ending =
    read_loop-Verdict 6 0 0 bytes ending (omega arith) (omega arith) (omega arith)

read_stream-write_var_int :
    (v : ℤ) (bytes rest : List ℕ) (ending : Error)
    → bytes ≡ write_var_int [] v ++ rest
    → read_var_int (on_stream bytes ending) ≡ (ok (to_u32 v), on_stream rest ending)
read_stream-write_var_int v bytes rest ending e =
    rw (e, write_var_int-groups) (read_stream-groups (to_u32 v) rest ending (to_u32-lt v))

module _ {R : Type 0} ⦃reader : ByteReader R⦄ (r : R) where
  -- Whatever the reader holds, readVarInt returns: a number below 2^32 after 1 to 5 bytes, or the
  -- reader's own error once fewer than six bytes are used up, or `varint too long` after exactly
  -- six bytes. The loop never needs a seventh round.
  pub read_var_int-Verdict :
      Verdict 0
        (reader.left r)
        (reader.closing r)
        (read_var_int r).0
        (reader.left (read_var_int r).1)
  read_var_int-Verdict =
      rw (same.result, ap (λ s. s.bytes) same.stream)
        (read_stream-Verdict (reader.left r) (reader.closing r))
    where
      same : SameOutcome (read_var_int r) (read_var_int (stream_of r))
      same = read_var_int-SameOutcome r

  -- On a reader that starts with what writeVarInt wrote of an int, readVarInt gives the int modulo
  -- 2^32 (the int itself, where it is in the range of a uint32) and leaves exactly what follows.
  pub read_var_int-write_var_int :
      (v : ℤ) (rest : List ℕ)
      → reader.left r ≡ write_var_int [] v ++ rest
      → ((read_var_int r).0 ≡ ok (to_u32 v))
        × (reader.left (read_var_int r).1 ≡ rest)
        × (reader.closing (read_var_int r).1 ≡ reader.closing r)
  read_var_int-write_var_int v rest e = (
    same.result ∙ ap (λ p. p.0) there,
    ap (λ s. s.bytes) (same.stream ∙ ap (λ p. p.1) there),
    ap (λ s. s.ending) (same.stream ∙ ap (λ p. p.1) there),
  )
    where
      same : SameOutcome (read_var_int r) (read_var_int (stream_of r))
      same = read_var_int-SameOutcome r

      there : read_var_int (stream_of r) ≡ (ok (to_u32 v), on_stream rest (reader.closing r))
      there = read_stream-write_var_int v (reader.left r) rest (reader.closing r) e
