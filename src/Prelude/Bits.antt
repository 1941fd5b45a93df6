-- ===== src/Prelude/Bits.antt =====
-- The three lowest bits of a number, set by `|`; what `|` makes is no less than an operand.
use Prim.Native.Nat.{ℕ, zero, suc, ◌+◌, ◌*◌, ◌/◌, ◌≤◌, max, bit_or, digits, bit_or-bitwise}
use mathlib.Core.Path.{◌≡◌, refl}
use native.Mathlib.Omega.{arith}

-- The native operation's recursion, with any bound `n` on the digits.
abbrev or_upto : ℕ → ℕ → ℕ → ℕ
or_upto n a b = digits (λ b. b) max n a b

or_upto-zero : (n a : ℕ) → a ≤ n → or_upto n a 0 ≡ a
or_upto-zero zero zero h = refl
or_upto-zero zero (suc a) h = absurd (omega arith)
or_upto-zero (suc n) zero h = refl
or_upto-zero (suc n) (suc a) h = omega (arith, or_upto-zero n (suc a / 2) (omega arith))

or_upto-one : (n a : ℕ) → a ≤ n → or_upto n a 1 ≡ a / 2 * 2 + 1
or_upto-one zero zero h = refl
or_upto-one zero (suc a) h = absurd (omega arith)
or_upto-one (suc n) zero h = refl
or_upto-one (suc n) (suc a) h = omega (arith, or_upto-zero n (suc a / 2) (omega arith))

or_upto-three : (n a : ℕ) → a ≤ n → or_upto n a 3 ≡ a / 4 * 4 + 3
or_upto-three zero zero h = refl
or_upto-three zero (suc a) h = absurd (omega arith)
or_upto-three (suc n) zero h = refl
or_upto-three (suc n) (suc a) h = omega (arith, or_upto-one n (suc a / 2) (omega arith))

or_upto-seven : (n a : ℕ) → a ≤ n → or_upto n a 7 ≡ a / 8 * 8 + 7
or_upto-seven zero zero h = refl
or_upto-seven zero (suc a) h = absurd (omega arith)
or_upto-seven (suc n) zero h = refl
or_upto-seven (suc n) (suc a) h = omega (arith, or_upto-three n (suc a / 2) (omega arith))

pub bit_or_seven : (a : ℕ) → bit_or a 7 ≡ a / 8 * 8 + 7
bit_or_seven a = omega (arith, bit_or-bitwise a 7, or_upto-seven a a (omega arith))

or_upto-above : (n a b : ℕ) → b ≤ or_upto n a b
or_upto-above zero a b = omega arith
or_upto-above (suc n) zero b = omega arith
or_upto-above (suc n) (suc a) b = omega (arith, or_upto-above n (suc a / 2) (b / 2))

pub bit_or_above : (a b : ℕ) → b ≤ bit_or a b
bit_or_above a b = omega (arith, bit_or-bitwise a b, or_upto-above a a b)
