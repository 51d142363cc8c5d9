-- ===== src/Base/Bits.antt =====
-- Clearing the low bits of a machine word by a mask, as division: the digit laws of `&` that it
-- rests on are taken from the definition of the native operation.
use Prim.Native.Nat.{
  ℕ, zero, suc, ◌+◌, ◌-◌, ◌*◌, ◌/◌, ◌%◌, ◌^◌, ◌≤◌, ◌<◌, min, bit_and, digits, bit_and-bitwise,
}
use mathlib.Core.Path.{◌≡◌, refl, ap}
use native.Mathlib.Nat.{pow-suc, one-le-pow}
use native.Mathlib.Omega.{arith}

-- The recursion of the operation, with its fuel.
abbrev common_bits : ℕ → ℕ → ℕ → ℕ
common_bits fuel x y = digits (λ _. zero) min fuel x y

-- Any fuel that reaches the number gives the same digits.
common_bits_fuel : (f g x y : ℕ) → x ≤ f → x ≤ g → common_bits f x y ≡ common_bits g x y
common_bits_fuel zero zero x y p q = refl
common_bits_fuel zero (suc g) zero y p q = refl
common_bits_fuel zero (suc g) (suc x) y p q = absurd (omega arith)
common_bits_fuel (suc f) zero zero y p q = refl
common_bits_fuel (suc f) zero (suc x) y p q = absurd (omega arith)
common_bits_fuel (suc f) (suc g) zero y p q = refl
common_bits_fuel (suc f) (suc g) (suc x) y p q =
    omega (arith, common_bits_fuel f g (suc x / 2) (y / 2) (omega arith) (omega arith))

and_none : (y : ℕ) → bit_and 0 y ≡ 0
and_none y = bit_and-bitwise 0 y

-- The lowest digit and the rest.
and_digit : (x y : ℕ) → bit_and x y ≡ bit_and (x / 2) (y / 2) * 2 + min (x % 2) (y % 2)
and_digit zero y = omega (arith, and_none y, and_none (y / 2))
and_digit (suc x) y = omega (
  arith,
  bit_and-bitwise (suc x) y,
  bit_and-bitwise (suc x / 2) (y / 2),
  common_bits_fuel x (suc x / 2) (suc x / 2) (y / 2) (omega arith) (omega arith),
)

-- A mask of `w` ones keeps a `w`-bit number.
and_ones : (w x : ℕ) → x < 2 ^ w → bit_and x (2 ^ w - 1) ≡ x
and_ones zero x h = let e : x ≡ 0 = omega arith in rw e (and_none 0)
and_ones (suc w) x h = ground (
  arith,
  and_digit x (2 ^ suc w - 1),
  pow-suc 2 w,
  one-le-pow w 2,
  and_ones w (x / 2) (omega (arith, pow-suc 2 w)),
)

-- A mask with `k` zeros under ones up to bit `w + k` keeps the upper part of a number.
pub and_high :
    (k w q r : ℕ)
    → r < 2 ^ k
    → q < 2 ^ w
    → bit_and (q * 2 ^ k + r) ((2 ^ w - 1) * 2 ^ k) ≡ q * 2 ^ k
and_high zero w q r h e = ground (arith, and_ones w q e)
and_high (suc k) w q r h e = ground (
  arith,
  and_digit (q * 2 ^ suc k + r) ((2 ^ w - 1) * 2 ^ suc k),
  pow-suc 2 k,
  ap (λ (t : ℕ). q * t) (pow-suc 2 k),
  ap (λ (t : ℕ). (2 ^ w - 1) * t) (pow-suc 2 k),
  and_high k w q (r / 2) (omega (arith, pow-suc 2 k)),
)
