-- ===== src/Base/Bits/Step.antt =====
-- The native operations are defined by a recursion on binary digits with fuel; here is the equation
-- for the lowest digit, without the fuel.
use Prim.Native.Nat.{ℕ, zero, suc, ◌+◌, ◌*◌, ◌/◌, ◌%◌, ◌≤◌, min, max, bit_and, bit_or}
use Prim.Native.Nat.{digits, bitwise, bit_and-bitwise, bit_or-bitwise}
use mathlib.Core.Path.{◌≡◌, refl}
use native.Mathlib.Omega.{arith}

module _ (z : ℕ → ℕ) (f : ℕ → ℕ → ℕ) where
  enough : (a b n m : ℕ) → a ≤ n → a ≤ m → digits z f n a b ≡ digits z f m a b
  enough zero y zero zero p q = refl
  enough zero y zero (suc m) p q = refl
  enough zero y (suc n) zero p q = refl
  enough zero y (suc n) (suc m) p q = refl
  enough (suc x) y zero m p q = absurd (omega arith)
  enough (suc x) y (suc n) zero p q = absurd (omega arith)
  enough (suc x) y (suc n) (suc m) p q =
      rw (enough (suc x / 2) (y / 2) n m (omega arith) (omega arith))

  -- An operation that means `bitwise` and whose case of zero fits.
  module _ (op : ℕ → ℕ → ℕ) (meaning : (a b : ℕ) → op a b ≡ bitwise z f a b)
      (on_zero : (b : ℕ) → z b ≡ z (b / 2) * 2 + f 0 (b % 2)) where
    lowest_digit : (x y : ℕ) → op x y ≡ op (x / 2) (y / 2) * 2 + f (x % 2) (y % 2)
    lowest_digit zero y = rw (meaning zero y, meaning zero (y / 2)) (on_zero y)
    lowest_digit (suc x) y = omega (
      arith,
      meaning (suc x) y,
      meaning (suc x / 2) (y / 2),
      enough (suc x / 2) (y / 2) x (suc x / 2) (omega arith) (omega arith),
    )

pub bit_and_step : (x y : ℕ) → bit_and x y ≡ bit_and (x / 2) (y / 2) * 2 + min (x % 2) (y % 2)
bit_and_step = lowest_digit (λ _. 0) min bit_and bit_and-bitwise (λ b. omega arith)

pub bit_or_step : (x y : ℕ) → bit_or x y ≡ bit_or (x / 2) (y / 2) * 2 + max (x % 2) (y % 2)
bit_or_step = lowest_digit (λ b. b) max bit_or bit_or-bitwise (λ b. omega arith)
