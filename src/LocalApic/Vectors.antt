-- ===== src/LocalApic/Vectors.antt =====
-- src/apic.rs, the accessors of the local vector table.
use smp_nostd.Base.{ℕ, Profile}
use smp_nostd.Base.Command.{Cmd, ⊤}
use smp_nostd.Hardware.{Hardware}
use smp_nostd.LocalApic.{LocalApic, read_reg, write_reg}
use smp_nostd.LocalApic.Registers.{
  reg_lvt_cmci, reg_lvt_timer, reg_lvt_thermal, reg_lvt_perf, reg_lvt_lint0, reg_lvt_lint1,
  reg_lvt_error,
}

module _ {Dev : Type 0} (hw : Hardware Dev) (p : Profile) where
  unfoldable pub read_lvt_cmci : LocalApic → Cmd Dev ℕ
  read_lvt_cmci a = read_reg hw p a reg_lvt_cmci

  unfoldable pub write_lvt_cmci : LocalApic → (value : ℕ) → Cmd Dev ⊤
  write_lvt_cmci a value = write_reg hw p a reg_lvt_cmci value

  unfoldable pub read_lvt_timer : LocalApic → Cmd Dev ℕ
  read_lvt_timer a = read_reg hw p a reg_lvt_timer

  unfoldable pub write_lvt_timer : LocalApic → (value : ℕ) → Cmd Dev ⊤
  write_lvt_timer a value = write_reg hw p a reg_lvt_timer value

  unfoldable pub read_lvt_thermal : LocalApic → Cmd Dev ℕ
  read_lvt_thermal a = read_reg hw p a reg_lvt_thermal

  unfoldable pub write_lvt_thermal : LocalApic → (value : ℕ) → Cmd Dev ⊤
  write_lvt_thermal a value = write_reg hw p a reg_lvt_thermal value

  unfoldable pub read_lvt_perf : LocalApic → Cmd Dev ℕ
  read_lvt_perf a = read_reg hw p a reg_lvt_perf

  unfoldable pub write_lvt_perf : LocalApic → (value : ℕ) → Cmd Dev ⊤
  write_lvt_perf a value = write_reg hw p a reg_lvt_perf value

  unfoldable pub read_lvt_lint0 : LocalApic → Cmd Dev ℕ
  read_lvt_lint0 a = read_reg hw p a reg_lvt_lint0

  unfoldable pub write_lvt_lint0 : LocalApic → (value : ℕ) → Cmd Dev ⊤
  write_lvt_lint0 a value = write_reg hw p a reg_lvt_lint0 value

  unfoldable pub read_lvt_lint1 : LocalApic → Cmd Dev ℕ
  read_lvt_lint1 a = read_reg hw p a reg_lvt_lint1

  unfoldable pub write_lvt_lint1 : LocalApic → (value : ℕ) → Cmd Dev ⊤
  write_lvt_lint1 a value = write_reg hw p a reg_lvt_lint1 value

  unfoldable pub read_lvt_error : LocalApic → Cmd Dev ℕ
  read_lvt_error a = read_reg hw p a reg_lvt_error

  unfoldable pub write_lvt_error : LocalApic → (value : ℕ) → Cmd Dev ⊤
  write_lvt_error a value = write_reg hw p a reg_lvt_error value
