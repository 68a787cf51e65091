-- ===== src/LocalApic.antt =====
-- src/apic.rs, `LocalApic`: register access in xAPIC and x2APIC mode, and the plain registers. A
-- panic is an address that overflows or a failed assertion. The logging is left out.
pub mod Registers
pub mod Vectors
pub mod Ipi
pub mod Timer
pub mod Device
pub mod Control
pub mod Sending
pub mod Ticks
pub mod Small
mod Tests
use smp_nostd.Base.{
  ℕ, ◌+◌, ◌-◌, ◌*◌, ◌/◌, ◌^◌, Bool, true, false, not, bit_and, bit_or, Option, none, some, ltb,
  ◌==◌, if◌then◌else◌, u32, u32_max, Profile, add_word,
}
use smp_nostd.Base.Command.{Cmd, ⊤, pure, panic, gets, or_panic, and_then, ◌>>=◌, ◌>>◌, done}
use smp_nostd.Hardware.{Hardware}
use smp_nostd.LocalApic.Registers.{
  ia32_apic_base_msr, apic_base_bsp, apic_base_x2apic_enable, apic_base_enable, apic_base_addr_mask,
  reg_id, reg_version, reg_tpr, reg_apr, reg_ppr, reg_eoi, reg_rrd, reg_ldr, reg_dfr, reg_svr,
  reg_isr_base, reg_tmr_base, reg_irr_base, reg_error_status, x2apic_msr_base,
}

pub record LocalApic : Type 0 where
  pub base_addr : ℕ
  pub x2apic : Bool

-- `LocalApic::new`
unfoldable pub new : (base_vaddr : ℕ) → LocalApic
new base_vaddr = record { base_addr = base_vaddr; x2apic = false }

-- The MSR of a register in x2APIC mode.
abbrev pub msr_of : (offset : ℕ) → ℕ
msr_of offset = x2apic_msr_base + offset / 2 ^ 4

module _ {Dev : Type 0} (hw : Hardware Dev) (p : Profile) where
  abbrev pub rdmsr : (msr : ℕ) → Cmd Dev ℕ
  rdmsr msr d = let (value, d') = hw.rdmsr d msr in done value d'

  abbrev pub wrmsr : (msr value : ℕ) → Cmd Dev ⊤
  wrmsr msr value d = done tt (hw.wrmsr d msr value)

  unfoldable pub read_apic_base_msr : Cmd Dev ℕ
  read_apic_base_msr = rdmsr ia32_apic_base_msr

  unfoldable pub write_apic_base_msr : (value : ℕ) → Cmd Dev ⊤
  write_apic_base_msr value = wrmsr ia32_apic_base_msr value

  unfoldable pub physical_base : Cmd Dev ℕ
  unfolding read_apic_base_msr
  physical_base = do base ← read_apic_base_msr; pure (bit_and base apic_base_addr_mask)

  unfoldable pub is_bsp : Cmd Dev Bool
  unfolding read_apic_base_msr
  is_bsp = do base ← read_apic_base_msr; pure (not (bit_and base apic_base_bsp == 0))

  -- A 32-bit access at an address.
  abbrev pub read_at : (address : ℕ) → Cmd Dev ℕ
  read_at address d = let (value, d') = hw.bus.read_volatile d address in done value d'

  abbrev pub write_at : (value address : ℕ) → Cmd Dev ⊤
  write_at value address d = done tt (hw.bus.write_volatile d address value)

  unfoldable pub read_reg : LocalApic → (offset : ℕ) → Cmd Dev ℕ
  read_reg a offset =
      if a.x2apic
      then (rdmsr (msr_of offset) >>= λ value. pure (u32 value))
      else (or_panic (add_word p 64 a.base_addr offset) >>= read_at)

  unfoldable pub write_reg : LocalApic → (offset value : ℕ) → Cmd Dev ⊤
  write_reg a offset value =
      if a.x2apic
      then wrmsr (msr_of offset) value
      else (or_panic (add_word p 64 a.base_addr offset) >>= write_at value)

  unfoldable pub supports_x2apic : Cmd Dev Bool
  supports_x2apic = gets (λ d. not (bit_and (hw.cpuid_ecx d 1) (2 ^ 21) == 0))

  -- `enable_x2apic`: the driver in its new mode, and what X2APIC_ACTIVE is set to.
  unfoldable pub enable_x2apic : LocalApic → Cmd Dev (LocalApic × Bool)
  enable_x2apic a = do
    base ← rdmsr ia32_apic_base_msr
    wrmsr ia32_apic_base_msr (bit_or base (bit_or apic_base_enable apic_base_x2apic_enable))
    pure (record a { x2apic = true }, true)

  unfoldable pub enable : LocalApic → Cmd Dev ⊤
  enable a = do
    svr ← read_reg a reg_svr
    write_reg a reg_svr (bit_or (bit_or (bit_and svr (u32_max - 0xFF)) 0xFF) (2 ^ 8))

  unfoldable pub disable : LocalApic → Cmd Dev ⊤
  disable a = do svr ← read_reg a reg_svr; write_reg a reg_svr (bit_and svr (u32_max - 2 ^ 8))

  unfoldable pub id : LocalApic → Cmd Dev ℕ
  id a = do raw ← read_reg a reg_id; pure (if a.x2apic then raw else raw / 2 ^ 24)

  unfoldable pub version : LocalApic → Cmd Dev ℕ
  version a = read_reg a reg_version

  unfoldable pub eoi : LocalApic → Cmd Dev ⊤
  eoi a = write_reg a reg_eoi 0

  unfoldable pub read_tpr : LocalApic → Cmd Dev ℕ
  read_tpr a = read_reg a reg_tpr

  unfoldable pub write_tpr : LocalApic → (value : ℕ) → Cmd Dev ⊤
  write_tpr a value = write_reg a reg_tpr value

  unfoldable pub read_apr : LocalApic → Cmd Dev ℕ
  read_apr a = read_reg a reg_apr

  unfoldable pub read_ppr : LocalApic → Cmd Dev ℕ
  read_ppr a = read_reg a reg_ppr

  unfoldable pub read_rrd : LocalApic → Cmd Dev ℕ
  read_rrd a = read_reg a reg_rrd

  unfoldable pub read_ldr : LocalApic → Cmd Dev ℕ
  read_ldr a = read_reg a reg_ldr

  unfoldable pub write_ldr : LocalApic → (value : ℕ) → Cmd Dev ⊤
  write_ldr a value = write_reg a reg_ldr value

  unfoldable pub read_dfr : LocalApic → Cmd Dev ℕ
  read_dfr a = read_reg a reg_dfr

  unfoldable pub write_dfr : LocalApic → (value : ℕ) → Cmd Dev ⊤
  write_dfr a value = write_reg a reg_dfr value

  unfoldable pub read_svr : LocalApic → Cmd Dev ℕ
  read_svr a = read_reg a reg_svr

  -- A word of a 256-bit register, for the indices below 8.
  read_word : (base : ℕ) → LocalApic → (index : ℕ) → Cmd Dev ℕ
  read_word base a index = if ltb index 8 then read_reg a (base + index * 0x10) else panic

  unfoldable pub read_isr : LocalApic → (index : ℕ) → Cmd Dev ℕ
  unfolding read_word
  read_isr a index = read_word reg_isr_base a index

  unfoldable pub read_tmr : LocalApic → (index : ℕ) → Cmd Dev ℕ
  unfolding read_word
  read_tmr a index = read_word reg_tmr_base a index

  unfoldable pub read_irr : LocalApic → (index : ℕ) → Cmd Dev ℕ
  unfolding read_word
  read_irr a index = read_word reg_irr_base a index

  unfoldable pub read_error_status : LocalApic → Cmd Dev ℕ
  read_error_status a = do write_reg a reg_error_status 0; read_reg a reg_error_status
