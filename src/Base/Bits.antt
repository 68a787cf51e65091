-- ===== src/Base/Bits.antt =====
-- `|` and `&` split at any bit, hence on disjoint fields and single-bit masks.
mod Step
pub use Step.{bit_or_step, bit_and_step}
use Prim.Native.Nat.{
  ℕ, zero, suc, ◌+◌, ◌-◌, ◌*◌, ◌/◌, ◌%◌, ◌^◌, ◌≤◌, ◌<◌, bit_and, bit_or, max, min,
}
use mathlib.Core.Path.{◌≡◌, refl, ap, ◌∙◌}
use native.Mathlib.Nat.{pow-suc, one-le-pow, mod-eq_of_lt}
use native.Mathlib.Omega.{arith}

shifted_suc : (k q : ℕ) → q * 2 ^ suc k ≡ q * 2 ^ k * 2
shifted_suc k q = omega (arith, ap (λ (w : ℕ). q * w) (pow-suc 2 k))

-- An operation given by its lowest digit splits at bit `k`.
module _ (op f : ℕ → ℕ → ℕ) (step : (a b : ℕ) → op a b ≡ op (a / 2) (b / 2) * 2 + f (a % 2) (b % 2))
    (zeros : op 0 0 ≡ 0) where
  split :
      (k h l h' l' : ℕ)
      → l < 2 ^ k
      → l' < 2 ^ k
      → op (h * 2 ^ k + l) (h' * 2 ^ k + l') ≡ op h h' * 2 ^ k + op l l'
  split zero h zero h' zero p q = ground (arith, zeros)
  split zero h zero h' (suc l') p q = absurd (omega arith)
  split zero h (suc l) h' l' p q = absurd (omega arith)
  split (suc k) h l h' l' p q = ground (
    arith,
    step (h * 2 ^ suc k + l) (h' * 2 ^ suc k + l'),
    step l l',
    shifted_suc k h,
    shifted_suc k h',
    shifted_suc k (op h h'),
    pow-suc 2 k,
    split k h (l / 2) h' (l' / 2) (omega (arith, pow-suc 2 k)) (omega (arith, pow-suc 2 k)),
  )

pub bit_or_split :
    (k h l h' l' : ℕ)
    → l < 2 ^ k
    → l' < 2 ^ k
    → bit_or (h * 2 ^ k + l) (h' * 2 ^ k + l') ≡ bit_or h h' * 2 ^ k + bit_or l l'
bit_or_split = split bit_or max bit_or_step refl

pub bit_and_split :
    (k h l h' l' : ℕ)
    → l < 2 ^ k
    → l' < 2 ^ k
    → bit_and (h * 2 ^ k + l) (h' * 2 ^ k + l') ≡ bit_and h h' * 2 ^ k + bit_and l l'
bit_and_split = split bit_and min bit_and_step refl

-- The neutral and the absorbing zero: induction on a bound of the number.
or_zero_below : (n a : ℕ) → a ≤ n → (bit_or a 0 ≡ a) × (bit_or 0 a ≡ a)
or_zero_below n zero h = (refl, refl)
or_zero_below zero (suc a) h = absurd (omega arith)
or_zero_below (suc n) (suc a) h =
    omega (
      arith,
      bit_or_step (suc a) 0,
      bit_or_step 0 (suc a),
      or_zero_below n (suc a / 2) (omega arith),
    )

and_zero_below : (n a : ℕ) → a ≤ n → (bit_and a 0 ≡ 0) × (bit_and 0 a ≡ 0)
and_zero_below n zero h = (refl, refl)
and_zero_below zero (suc a) h = absurd (omega arith)
and_zero_below (suc n) (suc a) h = omega (
  arith,
  bit_and_step (suc a) 0,
  bit_and_step 0 (suc a),
  and_zero_below n (suc a / 2) (omega arith),
)

pub bit_or-zero : (a : ℕ) → bit_or a 0 ≡ a
bit_or-zero a = (or_zero_below a a (omega arith)).0

pub zero-bit_or : (a : ℕ) → bit_or 0 a ≡ a
zero-bit_or a = (or_zero_below a a (omega arith)).1

pub bit_and-zero : (a : ℕ) → bit_and a 0 ≡ 0
bit_and-zero a = (and_zero_below a a (omega arith)).0

pub zero-bit_and : (a : ℕ) → bit_and 0 a ≡ 0
zero-bit_and a = (and_zero_below a a (omega arith)).1

-- Disjoint fields add up, in either order.
pub bit_or_high : (k q r : ℕ) → r < 2 ^ k → bit_or (q * 2 ^ k) r ≡ q * 2 ^ k + r
bit_or_high k q r h =
    ground (arith, bit_or_split k q 0 0 r, bit_or-zero q, zero-bit_or r, one-le-pow k 2)

pub bit_or_low : (k q r : ℕ) → r < 2 ^ k → bit_or r (q * 2 ^ k) ≡ q * 2 ^ k + r
bit_or_low k q r h =
    ground (arith, bit_or_split k 0 r q 0, zero-bit_or q, bit_or-zero r, one-le-pow k 2)

-- `x & (2^k - 1)` is the remainder.
mask_fields : (k q r : ℕ) → r < 2 ^ k → bit_and (q * 2 ^ k + r) (2 ^ k - 1) ≡ r
mask_fields zero q zero h = ground (arith, bit_and-zero (q * 1 + 0))
mask_fields zero q (suc r) h = absurd (omega arith)
mask_fields (suc k) q r h = ground (
  arith,
  bit_and_step (q * 2 ^ suc k + r) (2 ^ suc k - 1),
  shifted_suc k q,
  pow-suc 2 k,
  one-le-pow k 2,
  mask_fields k q (r / 2) (omega (arith, pow-suc 2 k)),
)

pub bit_and_mask : (k a : ℕ) → bit_and a (2 ^ k - 1) ≡ a % 2 ^ k
bit_and_mask k a = ground (arith, one-le-pow k 2, mask_fields k (a / 2 ^ k) (a % 2 ^ k))

-- A number cut at bit `k`.
pub cut : (k a : ℕ) → (a ≡ a / 2 ^ k * 2 ^ k + a % 2 ^ k) × (a % 2 ^ k < 2 ^ k)
cut k a = ground (arith, one-le-pow k 2)

-- `x & (1 << k)`: the bit alone.
pub bit_and_bit : (k a : ℕ) → bit_and a (2 ^ k) ≡ a / 2 ^ k % 2 * 2 ^ k
bit_and_bit k a = ground (
  arith,
  cut k a,
  one-le-pow k 2,
  bit_and_split k (a / 2 ^ k) (a % 2 ^ k) 1 0,
  bit_and-zero (a % 2 ^ k),
  bit_and_mask 1 (a / 2 ^ k),
)

bit_or-one : (q : ℕ) → bit_or q 1 ≡ q + (1 - q % 2)
bit_or-one q = omega (arith, bit_or_step q 1, bit_or-zero (q / 2))

-- `x | (1 << k)`: the bit set, the others kept.
pub bit_or_bit : (k a : ℕ) → bit_or a (2 ^ k) ≡ a + (1 - a / 2 ^ k % 2) * 2 ^ k
bit_or_bit k a = ground (
  arith,
  cut k a,
  one-le-pow k 2,
  bit_or_split k (a / 2 ^ k) (a % 2 ^ k) 1 0,
  bit_or-zero (a % 2 ^ k),
  ap (λ (t : ℕ). t * 2 ^ k) (bit_or-one (a / 2 ^ k)),
)

and_full : (j q : ℕ) → q < 2 ^ j → bit_and q (2 ^ j - 1) ≡ q
and_full j q h = bit_and_mask j q ∙ mod-eq_of_lt h

and_even : (j q : ℕ) → q / 2 < 2 ^ j → bit_and q ((2 ^ j - 1) * 2) + q % 2 ≡ q
and_even j q h =
    omega
      (arith, bit_and_step q ((2 ^ j - 1) * 2), ap (bit_and (q / 2)) halved, and_full j (q / 2) h)
  where
    halved : (2 ^ j - 1) * 2 / 2 ≡ 2 ^ j - 1
    halved = omega arith

-- `x & !(1 << k)` in a word of `k + 1 + j` bits: the bit cleared, the others kept.
pub bit_and_not_bit :
    (j k a : ℕ)
    → a / 2 ^ k / 2 < 2 ^ j
    → bit_and a ((2 ^ j - 1) * 2 * 2 ^ k + (2 ^ k - 1)) ≡ a - a / 2 ^ k % 2 * 2 ^ k
bit_and_not_bit j k a h = ground (
  arith,
  cut k a,
  one-le-pow k 2,
  bit_and_split k (a / 2 ^ k) (a % 2 ^ k) ((2 ^ j - 1) * 2) (2 ^ k - 1),
  bit_and_mask k (a % 2 ^ k),
  mod-eq_of_lt {n = a % 2 ^ k} {m = 2 ^ k} (cut k a).1,
  ap (λ (t : ℕ). t * 2 ^ k) (and_even j (a / 2 ^ k) h),
)

-- `x & !(2^k - 1)` in a word of `k + j` bits: rounding down to a multiple of `2^k`.
pub bit_and_not_mask :
    (j k a : ℕ) → a / 2 ^ k < 2 ^ j → bit_and a ((2 ^ j - 1) * 2 ^ k) ≡ a - a % 2 ^ k
bit_and_not_mask j k a h = ground (
  arith,
  cut k a,
  one-le-pow k 2,
  bit_and_split k (a / 2 ^ k) (a % 2 ^ k) (2 ^ j - 1) 0,
  bit_and-zero (a % 2 ^ k),
  ap (λ (t : ℕ). t * 2 ^ k) (and_full j (a / 2 ^ k) h),
)
