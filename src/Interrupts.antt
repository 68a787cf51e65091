-- ===== src/Interrupts.antt =====
-- src/spinlock.rs, the interrupt helpers, on the flags register of one CPU: `cli` clears the
-- interrupt flag, bit 9, and `sti` sets it.
use smp_nostd.Base.{
  ℕ, ◌+◌, ◌-◌, ◌*◌, ◌/◌, ◌%◌, ◌^◌, ◌<◌, ◌≡◌, Bool, true, false, not, bit_and, bit_or, ◌==◌,
  if◌then◌else◌, u64_max, arith,
}
use smp_nostd.Base.Bits.{bit_and_bit, bit_or_bit, bit_and_not_bit}

unfoldable pub interrupts_enabled : ℕ → Bool
interrupts_enabled rflags = not (bit_and rflags (2 ^ 9) == 0)

unfoldable pub cli : ℕ → ℕ
cli rflags = bit_and rflags (u64_max - 2 ^ 9)

unfoldable pub sti : ℕ → ℕ
sti rflags = bit_or rflags (2 ^ 9)

-- `disable_interrupts`: whether they were enabled, and the new flags.
unfoldable pub disable_interrupts : ℕ → Bool × ℕ
unfolding interrupts_enabled cli
disable_interrupts rflags = (interrupts_enabled rflags, cli rflags)

unfoldable pub enable_interrupts : ℕ → ℕ
unfolding sti
enable_interrupts rflags = sti rflags

unfoldable pub restore_interrupts : Bool → ℕ → ℕ
unfolding enable_interrupts
restore_interrupts was_enabled rflags = if was_enabled then enable_interrupts rflags else rflags

enabled_lem : (r : ℕ) → interrupts_enabled r ≡ (r / 2 ^ 9 % 2 == 1)
unfolding interrupts_enabled
enabled_lem r = ground (arith, bit_and_bit 9 r)

cli_lem : (r : ℕ) → r < 2 ^ 64 → cli r ≡ r - r / 2 ^ 9 % 2 * 2 ^ 9
unfolding cli
cli_lem r h = bit_and_not_bit 54 9 r (omega arith)

sti_lem : (r : ℕ) → sti r ≡ r + (1 - r / 2 ^ 9 % 2) * 2 ^ 9
unfolding sti
sti_lem r = bit_or_bit 9 r

-- Disabling turns interrupts off and reports how they were; restoring that gives the whole register
-- back, whatever it was; disabling twice is disabling once.
pub restore_interrupts-disable :
    (r : ℕ)
    → r < 2 ^ 64
    → let (was_enabled, r') = disable_interrupts r in
      (was_enabled ≡ interrupts_enabled r)
      × (interrupts_enabled r' ≡ false)
      × (restore_interrupts was_enabled r' ≡ r)
      × (r' < 2 ^ 64)
      × (cli r' ≡ r')
unfolding disable_interrupts restore_interrupts
restore_interrupts-disable r h =
    ground
      (arith, enabled_lem r, enabled_lem (cli r), cli_lem r h, cli_lem (cli r), sti_lem (cli r))

pub enabled-sti : (r : ℕ) → interrupts_enabled (sti r) ≡ true
enabled-sti r = ground (arith, enabled_lem (sti r), sti_lem r)

-- Restoring interrupts that were on turns them on, whatever the flags.
pub enabled-restore : (r : ℕ) → interrupts_enabled (restore_interrupts true r) ≡ true
unfolding restore_interrupts
enabled-restore r = enabled-sti r

pub enabled-cli : (r : ℕ) → r < 2 ^ 64 → interrupts_enabled (cli r) ≡ false
enabled-cli r h = ground (arith, enabled_lem (cli r), cli_lem r h)

pub cli-lt : (r : ℕ) → r < 2 ^ 64 → cli r < 2 ^ 64
cli-lt r h = omega (arith, cli_lem r h)

pub sti-lt : (r : ℕ) → r < 2 ^ 64 → sti r < 2 ^ 64
sti-lt r h = omega (arith, sti_lem r)
