-- ===== src/Base/Bits.antt =====
-- Bit operations on bytes, by a table, and the disjunction of numbers that share no bit.
use Prim.Native.Nat.{
  ℕ, zero, suc, ◌+◌, ◌*◌, ◌/◌, ◌%◌, ◌≤◌, ◌<◌, max, min, bit_and, bit_or, digits, bit_or-bitwise,
  bit_and-bitwise,
}
use mathlib.Core.Path.{◌≡◌, refl, sym, ◌∙◌}
use native.Mathlib.Omega.{arith}

-- The digit recursion that the native disjunction stands for, with its fuel.
abbrev or_digits : ℕ → ℕ → ℕ → ℕ
or_digits fuel a b = digits (λ y. y) max fuel a b

or_digits-zero : (fuel b : ℕ) → or_digits fuel 0 b ≡ b
or_digits-zero zero b = refl
or_digits-zero (suc fuel) b = refl

-- Any fuel that is not below the first number gives the same digits.
or_digits_enough : (m n a b : ℕ) → a ≤ m → a ≤ n → or_digits m a b ≡ or_digits n a b
or_digits_enough m n zero b p q = or_digits-zero m b ∙ sym (or_digits-zero n b)
or_digits_enough zero n (suc a) b p q = absurd (omega arith)
or_digits_enough (suc m) zero (suc a) b p q = absurd (omega arith)
or_digits_enough (suc m) (suc n) (suc a) b p q =
    omega (arith, or_digits_enough m n (suc a / 2) (b / 2) (omega arith) (omega arith))

bit_or-zero_left : (b : ℕ) → bit_or 0 b ≡ b
bit_or-zero_left b = bit_or-bitwise 0 b ∙ or_digits-zero 0 b

bit_or-suc :
    (m b : ℕ) → bit_or (suc m) b ≡ or_digits m (suc m / 2) (b / 2) * 2 + max (suc m % 2) (b % 2)
bit_or-suc m b = omega (arith, bit_or-bitwise (suc m) b)

-- An even number on the left: its half meets the half of the other.
bit_or-double : (n a b : ℕ) → n ≡ a * 2 → bit_or n b ≡ bit_or a (b / 2) * 2 + b % 2
bit_or-double zero a b h =
    let e : a ≡ 0 = omega arith in
    rw e (omega (arith, bit_or-zero_left b, bit_or-zero_left (b / 2)))
bit_or-double (suc m) a b h =
    let e : suc m / 2 ≡ a = omega arith in
    omega (
      arith,
      rw e at (bit_or-suc m b),
      or_digits_enough m a a (b / 2) (omega arith) (omega arith),
      bit_or-bitwise a (b / 2),
    )

-- 2 ^ k * q, one doubling at a time.
abbrev doubled : ℕ → ℕ → ℕ
doubled zero q = q
doubled (suc k) q = doubled k q * 2

bit_or-zero : (fuel a : ℕ) → a ≤ fuel → bit_or a 0 ≡ a
bit_or-zero fuel zero h = bit_or-zero_left 0
bit_or-zero zero (suc a) h = absurd (omega arith)
bit_or-zero (suc fuel) (suc a) h = omega (
  arith,
  bit_or-suc a 0,
  or_digits_enough a (suc a / 2) (suc a / 2) 0 (omega arith) (omega arith),
  bit_or-bitwise (suc a / 2) 0,
  bit_or-zero fuel (suc a / 2) (omega arith),
)

bit_or-doubled : (k q r : ℕ) → r < doubled k 1 → bit_or (doubled k q) r ≡ doubled k q + r
bit_or-doubled zero q r h =
    let e : r ≡ 0 = omega arith in rw e (omega (arith, bit_or-zero q q (omega arith)))
bit_or-doubled (suc k) q r h = omega (
  arith,
  bit_or-double (doubled k q * 2) (doubled k q) r refl,
  bit_or-doubled k q (r / 2) (omega arith),
)

-- Six low bits beside a number that is shifted past them.
pub bit_or_six : (q r : ℕ) → r < 64 → bit_or (q * 64) r ≡ q * 64 + r
bit_or_six q r h = let e : doubled 6 q ≡ q * 64 = omega arith in rw e at (bit_or-doubled 6 q r h)

-- The digit recursion of the conjunction.
abbrev and_digits : ℕ → ℕ → ℕ → ℕ
and_digits fuel a b = digits (λ y. 0) min fuel a b

and_digits-zero : (fuel b : ℕ) → and_digits fuel 0 b ≡ 0
and_digits-zero zero b = refl
and_digits-zero (suc fuel) b = refl

and_digits_enough : (m n a b : ℕ) → a ≤ m → a ≤ n → and_digits m a b ≡ and_digits n a b
and_digits_enough m n zero b p q = and_digits-zero m b ∙ sym (and_digits-zero n b)
and_digits_enough zero n (suc a) b p q = absurd (omega arith)
and_digits_enough (suc m) zero (suc a) b p q = absurd (omega arith)
and_digits_enough (suc m) (suc n) (suc a) b p q =
    omega (arith, and_digits_enough m n (suc a / 2) (b / 2) (omega arith) (omega arith))

bit_and-zero_left : (b : ℕ) → bit_and 0 b ≡ 0
bit_and-zero_left b = bit_and-bitwise 0 b ∙ and_digits-zero 0 b

-- One digit of a conjunction.
bit_and-halves : (a b : ℕ) → bit_and a b ≡ bit_and (a / 2) (b / 2) * 2 + min (a % 2) (b % 2)
bit_and-halves zero b = omega (arith, bit_and-zero_left b, bit_and-zero_left (b / 2))
bit_and-halves (suc a) b = omega (
  arith,
  bit_and-bitwise (suc a) b,
  bit_and-bitwise (suc a / 2) (b / 2),
  and_digits_enough a (suc a / 2) (suc a / 2) (b / 2) (omega arith) (omega arith),
)

bit_and-zero : (fuel a : ℕ) → a ≤ fuel → bit_and a 0 ≡ 0
bit_and-zero fuel zero h = bit_and-zero_left 0
bit_and-zero zero (suc a) h = absurd (omega arith)
bit_and-zero (suc fuel) (suc a) h =
    omega (arith, bit_and-halves (suc a) 0, bit_and-zero fuel (suc a / 2) (omega arith))

-- The mask of six ones keeps the six low bits.
pub bit_and_six : (a : ℕ) → bit_and a 0x3F ≡ a % 64
bit_and_six a = omega (
  arith,
  bit_and-halves a 63,
  bit_and-halves (a / 2) 31,
  bit_and-halves (a / 2 / 2) 15,
  bit_and-halves (a / 2 / 2 / 2) 7,
  bit_and-halves (a / 2 / 2 / 2 / 2) 3,
  bit_and-halves (a / 2 / 2 / 2 / 2 / 2) 1,
  bit_and-zero (a / 2 / 2 / 2 / 2 / 2 / 2) (a / 2 / 2 / 2 / 2 / 2 / 2) (omega arith),
)
