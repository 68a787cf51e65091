-- ===== src/LocalApic/Timer.antt =====
-- src/apic.rs, the timer and its calibration. The caller's delay is a command.
use smp_nostd.Base.{ℕ, ◌+◌, ◌-◌, ◌/◌, ◌^◌, bit_or, ◌==◌, if◌then◌else◌, u32, u32_max, Profile}
use smp_nostd.Base.Command.{Cmd, ⊤, pure, panic, ◌>>=◌, ◌>>◌}
use smp_nostd.Hardware.{Hardware}
use smp_nostd.LocalApic.{LocalApic, read_reg, write_reg}
use smp_nostd.LocalApic.Registers.{
  reg_timer_divide, reg_lvt_timer, reg_timer_initial, reg_timer_current, lvt_masked, timer_div_16,
}

module _ {Dev : Type 0} (hw : Hardware Dev) (p : Profile) where
  unfoldable pub setup_timer : LocalApic → (vector mode divide initial_count : ℕ) → Cmd Dev ⊤
  setup_timer a vector mode divide initial_count = do
    write_reg hw p a reg_timer_divide divide
    write_reg hw p a reg_lvt_timer (bit_or mode vector)
    write_reg hw p a reg_timer_initial initial_count

  unfoldable pub stop_timer : LocalApic → Cmd Dev ⊤
  stop_timer a = do write_reg hw p a reg_lvt_timer lvt_masked; write_reg hw p a reg_timer_initial 0

  unfoldable pub timer_current_count : LocalApic → Cmd Dev ℕ
  timer_current_count a = read_reg hw p a reg_timer_current

  -- `elapsed / delay_ms`
  unfoldable pub ticks : (remaining delay_ms : ℕ) → Cmd Dev ℕ
  ticks remaining delay_ms =
      if delay_ms == 0 then panic else pure (u32 (u32_max + 2 ^ 32 - remaining) / delay_ms)

  unfoldable pub calibrate_timer :
      LocalApic → (delay_ms : ℕ) → (delay_fn : ℕ → Cmd Dev ⊤) → Cmd Dev ℕ
  unfolding timer_current_count ticks
  calibrate_timer a delay_ms delay_fn = do
    write_reg hw p a reg_timer_divide timer_div_16
    write_reg hw p a reg_lvt_timer lvt_masked
    write_reg hw p a reg_timer_initial 0xFFFFFFFF
    delay_fn delay_ms
    remaining ← timer_current_count a
    write_reg hw p a reg_timer_initial 0
    ticks remaining delay_ms
