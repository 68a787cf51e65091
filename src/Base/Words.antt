-- ===== src/Base/Words.antt =====
-- Machine words of Rust. An atomic `fetch_add` or `fetch_sub` always wraps; the operators `+`,
-- `-` and `*` panic on overflow where the build has overflow checks, and wrap where it has not.
use Prim.Native.Nat.{ℕ, ◌+◌, ◌-◌, ◌*◌, ◌%◌, ◌^◌, ◌<◌}
use mathlib.Core.Path.{◌≡◌}
use mathlib.Core.Option.{Option, none, some}
use native.Mathlib.Omega.{arith}
use smp_nostd.Base.Tests.{ltb, leb, lt→ltb, if◌then◌else◌}

abbrev pub u8_max : ℕ
u8_max = 2 ^ 8 - 1

abbrev pub u32_max : ℕ
u32_max = 2 ^ 32 - 1

abbrev pub u64_max : ℕ
u64_max = 2 ^ 64 - 1

-- `x as u8`, `x as u32`, `x as u64`
abbrev pub u8 : ℕ → ℕ
u8 n = n % 2 ^ 8

abbrev pub u32 : ℕ → ℕ
u32 n = n % 2 ^ 32

abbrev pub u64 : ℕ → ℕ
u64 n = n % 2 ^ 64

-- `AtomicU64::fetch_add` and `fetch_sub`: the stored value.
abbrev pub fetch_add : ℕ → ℕ → ℕ
fetch_add a b = u64 (a + b)

abbrev pub fetch_sub : ℕ → ℕ → ℕ
fetch_sub a b = u64 (a + (2 ^ 64 - u64 b))

-- Whether the build checks for overflow (`debug`) or not (`release`).
pub data Profile : Type 0 where
  debug release : Profile

-- What an overflowing operator does: `none` is the panic.
abbrev pub overflowed : Profile → ℕ → Option ℕ
overflowed debug v = none
overflowed release v = some v

-- `a + b`, `a - b` and `a * b` in words of `w` bits.
abbrev pub add_word : Profile → ℕ → ℕ → ℕ → Option ℕ
add_word p w a b = if ltb (a + b) (2 ^ w) then some (a + b) else overflowed p ((a + b) % 2 ^ w)

abbrev pub sub_word : Profile → ℕ → ℕ → ℕ → Option ℕ
sub_word p w a b = if leb b a then some (a - b) else overflowed p ((a + 2 ^ w - b) % 2 ^ w)

abbrev pub mul_word : Profile → ℕ → ℕ → ℕ → Option ℕ
mul_word p w a b = if ltb (a * b) (2 ^ w) then some (a * b) else overflowed p ((a * b) % 2 ^ w)

pub add_word_fits : (p : Profile) (w a b : ℕ) → a + b < 2 ^ w → add_word p w a b ≡ some (a + b)
add_word_fits p w a b h = let e = lt→ltb (a + b) (2 ^ w) h in ground arith

-- A result of a call that may panic, used by the next.
infixl 5 ◌>>=◌
abbrev pub ◌>>=◌ {ℓ κ} : {A : Type ℓ} {B : Type κ} → Option A → (A → Option B) → Option B
none >>= next = none
some a >>= next = next a
