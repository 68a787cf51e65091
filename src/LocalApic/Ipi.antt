-- ===== src/LocalApic/Ipi.antt =====
-- src/apic.rs, inter-processor interrupts through the interrupt command register. The polling loop
-- is followed for `rounds` reads.
use smp_nostd.Base.{ℕ, zero, suc, ◌*◌, ◌^◌, bit_and, bit_or, ◌==◌, if◌then◌else◌, u32, Profile}
use smp_nostd.Base.Command.{Cmd, ⊤, pure, spinning, ◌>>=◌, ◌>>◌}
use smp_nostd.Hardware.{Hardware}
use smp_nostd.LocalApic.{LocalApic, read_reg, write_reg, wrmsr, msr_of}
use smp_nostd.LocalApic.Registers.{
  reg_icr_low, reg_icr_high, icr_init, icr_startup, icr_dest_physical, icr_level_assert,
  icr_level_deassert, icr_trigger_level, icr_no_shorthand,
}

module _ {Dev : Type 0} (hw : Hardware Dev) (p : Profile) where
  -- The loop of `wait_icr_idle`.
  unfoldable pub poll_icr : LocalApic → (rounds : ℕ) → Cmd Dev ⊤
  poll_icr a zero d = spinning
  poll_icr a (suc rounds) d =
      let rest = poll_icr a rounds in
      (read_reg hw p a reg_icr_low >>= λ icr_low.
      if bit_and icr_low (2 ^ 12) == 0 then pure tt else rest)
        d

  unfoldable pub wait_icr_idle : (rounds : ℕ) → LocalApic → Cmd Dev ⊤
  unfolding poll_icr
  wait_icr_idle rounds a = if a.x2apic then pure tt else poll_icr a rounds

  unfoldable pub send_ipi : (rounds : ℕ) → LocalApic → (dest_apic_id icr_low_flags : ℕ) → Cmd Dev ⊤
  unfolding wait_icr_idle
  send_ipi rounds a dest_apic_id icr_low_flags = do
    wait_icr_idle rounds a
    (if a.x2apic
        then wrmsr hw p (msr_of reg_icr_low) (bit_or (dest_apic_id * 2 ^ 32) icr_low_flags)
        else (write_reg hw p a reg_icr_high (u32 (dest_apic_id * 2 ^ 24))
            >> write_reg hw p a reg_icr_low icr_low_flags))

  -- `ICR_INIT | ICR_LEVEL_ASSERT | ICR_TRIGGER_LEVEL | ICR_DEST_PHYSICAL | ICR_NO_SHORTHAND`
  abbrev pub init_flags : ℕ
  init_flags =
      bit_or
        (bit_or (bit_or (bit_or icr_init icr_level_assert) icr_trigger_level) icr_dest_physical)
        icr_no_shorthand

  abbrev pub deassert_flags : ℕ
  deassert_flags =
      bit_or
        (bit_or (bit_or (bit_or icr_init icr_level_deassert) icr_trigger_level) icr_dest_physical)
        icr_no_shorthand

  unfoldable pub send_init_ipi : (rounds : ℕ) → LocalApic → (dest_apic_id : ℕ) → Cmd Dev ⊤
  unfolding send_ipi
  send_init_ipi rounds a dest_apic_id = send_ipi rounds a dest_apic_id init_flags

  unfoldable pub send_init_deassert : (rounds : ℕ) → LocalApic → (dest_apic_id : ℕ) → Cmd Dev ⊤
  unfolding send_ipi
  send_init_deassert rounds a dest_apic_id = send_ipi rounds a dest_apic_id deassert_flags

  unfoldable pub send_startup_ipi :
      (rounds : ℕ) → LocalApic → (dest_apic_id trampoline_page : ℕ) → Cmd Dev ⊤
  unfolding send_ipi
  send_startup_ipi rounds a dest_apic_id trampoline_page =
      send_ipi rounds a dest_apic_id
        (bit_or (bit_or (bit_or icr_startup icr_dest_physical) icr_no_shorthand) trampoline_page)
