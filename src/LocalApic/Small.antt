-- ===== src/LocalApic/Small.antt =====
-- A small APIC: its registers in an array, an interrupt that stays pending for one read, and a timer.
use smp_nostd.Base.{
  ℕ, ℕ_discrete, ◌+◌, ◌-◌, ◌*◌, ◌/◌, ◌%◌, ◌^◌, ◌≤◌, ◌<◌, ◌≡◌, refl, Bool, true, false, ◌==◌,
  if◌then◌else◌, List, [], ◌∷◌, ◌++◌, Bool-cases, inl, inr, arith,
}
use smp_nostd.Base.Command.{⊤, Cmd, done}
use smp_nostd.Hardware.{Hardware}
use smp_nostd.LocalApic.{LocalApic}
use smp_nostd.LocalApic.Device.{IsApic, stored, written}

pub record Apic : Type 0 where
  pub registers : ℕ → ℕ
  pub log : List (ℕ × ℕ)
  pub pending : Bool
  pub clock : ℕ

abbrev apic_base : ℕ
apic_base = 0xFEE00000

unfoldable pub store : Apic → (offset value : ℕ) → Apic
store d o v =
    if o == 0x300
    then record d { log = d.log ++ (d.registers 0x310 / 2 ^ 24, v) ∷ []; pending = true }
    else record d { registers = written d.registers o v }

unfoldable pub load : Apic → (offset : ℕ) → ℕ × Apic
load d o =
    if o == 0x300
    then (if d.pending then 2 ^ 12 else 0, record d { pending = false })
    else ((if o == 0x390 then d.registers 0x380 - d.clock else d.registers o) % 2 ^ 32, d)

abbrev pub apic_hw : Hardware Apic
apic_hw = record {
  bus = record {
    write_volatile = λ d address value. store d (address - apic_base) value;
    read_volatile = λ d address. load d (address - apic_base);
  };
  rdmsr = λ d msr. (apic_base, d);
  wrmsr = λ d msr value. d;
  cpuid_ecx = λ d eax. 0;
}

abbrev pub driver : LocalApic
driver = record { base_addr = apic_base; x2apic = false }

pub driver-fits : driver.base_addr + 0x1000 ≤ 2 ^ 64
driver-fits = omega arith

pub offset_lem : (o : ℕ) → apic_base + o - apic_base ≡ o
offset_lem o = omega arith

pub not_command : (o : ℕ) → stored false o ≡ true → (o == 0x300) ≡ false
not_command o h = elim (ℕ_discrete o 0x300) [
  | yes e ↦ absurd (ground (arith, rw e at h))
  | no ne ↦ ground arith
]

pub loaded :
    (o : ℕ) (d : Apic)
    → ((load d o).0 < 2 ^ 32) × ((load d o).1.registers ≡ d.registers) × ((load d o).1.log ≡ d.log)
unfolding load
loaded o d = elim (Bool-cases (o == 0x300)) [
  | inl at ↦ rw at (ground arith, refl, refl)
  | inr off ↦ rw off (omega arith, refl, refl)
]

unfoldable pub apic_dev : IsApic apic_hw driver
unfolding store load
apic_dev = record {
  config = λ d. d.registers;
  sent = λ d. d.log;
  busy = λ d. if d.pending then 1 else 0;
  patience = 1;
  patient = λ d. ground arith;
  on_write = λ o v d known small. rw (offset_lem o, not_command o known) (refl, refl, refl);
  on_read = λ o d. rw (offset_lem o) (loaded o d);
  on_read_svr = λ d. omega arith;
  on_poll = λ d off. ground arith;
  on_send = λ v d off idle small. (refl, refl);
  on_send_x2apic = λ v d on small. absurd ground arith;
}

-- All registers hold 0xFF, and the last interrupt is still pending.
abbrev pub apic : Apic
apic = record { registers = λ _. 0xFF; log = []; pending = true; clock = 0 }

-- A millisecond is 1000 counts.
abbrev pub delay : ℕ → Cmd Apic ⊤
delay ms d = done tt (record d { clock = d.clock + 1000 * ms })
