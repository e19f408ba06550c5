-- ===== src/Prelude/Bits.antt =====
-- Bit operations at variables: masks of one byte as tables, and `|` of disjoint parts as a sum.
use Prim.Native.Nat.{
  ℕ, zero, suc, ◌+◌, ◌*◌, ◌/◌, ◌%◌, ◌^◌, ◌≤◌, ◌<◌, max, bit_and, bit_or, digits, bit_or-bitwise,
}
use mathlib.Core.Path.{◌≡◌, refl}
use mathlib.Core.Bool.{Bool, true, ◌&&◌}
use native.Mathlib.Omega.{arith}
use mcmon.Prelude.Tests.{◌==◌, ==_iff}

-- A test that holds at every number below `n`.
every_below : ℕ → (ℕ → Bool) → Bool
every_below zero p = true
every_below (suc n) p = p n && every_below n p

every_below→ : (n : ℕ) (p : ℕ → Bool) → every_below n p ≡ true → (x : ℕ) → x < n → p x ≡ true
unfolding every_below
every_below→ zero p h x lt = absurd (omega arith)
every_below→ (suc n) p h x lt = ground (arith, every_below→ n p (ground arith) x)

low_table : every_below 256 (λ b. bit_and b 0x7f == b % 128) ≡ true
unfolding every_below
low_table = refl

top_table : every_below 256 (λ b. bit_and b 0x80 == b / 128 * 128) ≡ true
unfolding every_below
top_table = refl

high_table : every_below 256 (λ b. bit_and b 0xf0 == b / 16 * 16) ≡ true
unfolding every_below
high_table = refl

mark_table : every_below 128 (λ b. bit_or b 0x80 == b + 128) ≡ true
unfolding every_below
mark_table = refl

-- `b & 0x7F`, `b & 0x80` and `b | 0x80` of a byte.
pub bit_and_low : (b : ℕ) → b < 256 → bit_and b 0x7f ≡ b % 128
bit_and_low b h = (==_iff _ _).0 (every_below→ 256 _ low_table b h)

pub bit_and_top : (b : ℕ) → b < 256 → bit_and b 0x80 ≡ b / 128 * 128
bit_and_top b h = (==_iff _ _).0 (every_below→ 256 _ top_table b h)

-- `b & 0xF0` of a byte.
pub bit_and_high : (b : ℕ) → b < 256 → bit_and b 0xf0 ≡ b / 16 * 16
bit_and_high b h = (==_iff _ _).0 (every_below→ 256 _ high_table b h)

pub bit_or_mark : (b : ℕ) → b < 128 → bit_or b 0x80 ≡ b + 128
bit_or_mark b h = (==_iff _ _).0 (every_below→ 128 _ mark_table b h)

abbrev or_digits : ℕ → ℕ → ℕ → ℕ
or_digits n a b = digits (λ b. b) max n a b

-- Fuel beyond the left number changes nothing.
or_digits-fuel : (n m a b : ℕ) → a ≤ n → a ≤ m → or_digits n a b ≡ or_digits m a b
or_digits-fuel zero zero a b p q = refl
or_digits-fuel zero (suc m) zero b p q = refl
or_digits-fuel (suc n) zero zero b p q = refl
or_digits-fuel (suc n) (suc m) zero b p q = refl
or_digits-fuel zero m (suc a) b p q = absurd (omega arith)
or_digits-fuel (suc n) zero (suc a) b p q = absurd (omega arith)
or_digits-fuel (suc n) (suc m) (suc a) b p q =
    omega (arith, or_digits-fuel n m (suc a / 2) (b / 2) (omega arith) (omega arith))

zero-bit_or : (b : ℕ) → bit_or 0 b ≡ b
zero-bit_or b = bit_or-bitwise 0 b

bit_or-halves : (a b : ℕ) → bit_or a b ≡ bit_or (a / 2) (b / 2) * 2 + max (a % 2) (b % 2)
bit_or-halves zero b = omega (arith, zero-bit_or b, zero-bit_or (b / 2))
bit_or-halves (suc a) b = omega (
  arith,
  bit_or-bitwise (suc a) b,
  bit_or-bitwise (suc a / 2) (b / 2),
  or_digits-fuel a (suc a / 2) (suc a / 2) (b / 2) (omega arith) (omega arith),
)

pow_two-suc : (s : ℕ) → 2 ^ suc s ≡ 2 * 2 ^ s
pow_two-suc s = omega arith

-- `a | (g << s)` is a sum where `a` has no bit at `s` or above.
pub bit_or-shifted : (s a g : ℕ) → a < 2 ^ s → bit_or a (g * 2 ^ s) ≡ a + g * 2 ^ s
bit_or-shifted zero a g h =
    let none_below : a ≡ 0 = omega arith in rw (none_below, zero-bit_or) (omega arith)
bit_or-shifted (suc s) a g h =
    rw (doubled, bit_or-halves, halved)
      (omega (arith, bit_or-shifted s (a / 2) g (omega (arith, pow_two-suc s)), doubled))
  where
    doubled : g * 2 ^ suc s ≡ 2 * (g * 2 ^ s)
    doubled = rw pow_two-suc (omega arith)

    halved : 2 * (g * 2 ^ s) / 2 ≡ g * 2 ^ s
    halved = omega arith

-- `|` sets no bit that neither number has.
pub bit_or-lt : (s a b : ℕ) → a < 2 ^ s → b < 2 ^ s → bit_or a b < 2 ^ s
bit_or-lt zero a b ha hb = let none_below : a ≡ 0 = omega arith in rw (none_below, zero-bit_or) hb
bit_or-lt (suc s) a b ha hb = omega (
  arith,
  pow_two-suc s,
  bit_or-halves a b,
  bit_or-lt s (a / 2) (b / 2) (omega (arith, pow_two-suc s)) (omega (arith, pow_two-suc s)),
)
