-- ===== src/IoApic/Tests.antt =====
-- A chip of 24 pins at 0xFEC00000 that gives back what was written, and a list with a second one.
use smp_nostd.Base.{
  ℕ, zero, suc, ◌+◌, ◌/◌, ◌^◌, ◌≡◌, ◌≤◌, ◌<◌, ◌⊎◌, refl, true, false, none, some, List, [], ◌∷◌,
  ◌==◌, if◌then◌else◌, u32, debug, release, arith,
}
use smp_nostd.RedirectionEntry.{RedirectionEntry, simple, masked, vector, is_masked, destination}
use smp_nostd.Hardware.{Bus}
use smp_nostd.IoApic.{IoApic, read_redirection, write_redirection, route_irq, mask_irq, unmask_irq}
use smp_nostd.IoApic.Device.{IsDevice, Programmed, entry, put, low}
use smp_nostd.IoApic.Pins.{
  Masking, route_irq-Programmed, mask_irq-masked, wrapped, write_redirection-wraps,
}
use smp_nostd.IoApic.Manager.{InWord, Routed, route_gsi-FirstServing}

record Chip : Type 0 where
  selected : ℕ
  regs : ℕ → ℕ

abbrev window : ℕ
window = 0xFEC00010

abbrev write_chip : Chip → (address value : ℕ) → Chip
write_chip c address value =
    if address == 0xFEC00000
    then record c { selected = value }
    else if address == window
    then record c { regs = λ j. if j == c.selected then value else c.regs j }
    else c

abbrev chip_bus : Bus Chip
chip_bus = record {
  write_volatile = write_chip;
  read_volatile = λ c address. (u32 (c.regs c.selected), c);
}

abbrev chip : Chip
chip = record { selected = 0; regs = λ j. if j == 1 then 0x170020 else 0 }

abbrev ioapic : IoApic
ioapic = record { base_addr = 0xFEC00000; gsi_base = 0; max_entries = 24 }

chip-IsDevice : IsDevice chip_bus 0xFEC00000
chip-IsDevice = record {
  selected = λ c. c.selected;
  config = λ c j. u32 (c.regs j);
  small = λ c j. omega arith;
  on_select = λ c i h. (refl, λ j. refl);
  on_write = λ c v lo h. (ground arith, λ j ne. ground arith);
  on_read = λ c lo. (λ e. (omega arith, refl, refl, refl), λ e. (omega arith, refl), λ j. refl);
}

abbrev chip_entry : Chip → ℕ → RedirectionEntry
chip_entry = entry chip_bus debug ioapic chip-IsDevice (omega arith)

route_irq-Programmed_example :
    (d' : Chip) × (route_irq chip_bus debug ioapic 9 0x21 3 chip ≡ some d')
    × Programmed chip_bus debug ioapic chip-IsDevice (omega arith) chip 9 (simple 0x21 3) d'
    × (vector (chip_entry d' 9) ≡ 0x21)
    × (is_masked (chip_entry d' 9) ≡ false)
    × (destination (chip_entry d' 9) ≡ 3)
route_irq-Programmed_example =
    route_irq-Programmed chip_bus debug ioapic chip-IsDevice (omega arith) 9 0x21 3 chip
      (omega arith) (omega arith) (omega arith) (omega arith) (omega arith)

mask_irq-masked_example :
    Masking chip_bus debug ioapic chip-IsDevice
      (omega arith)
      9
      chip
      true
      (mask_irq chip_bus debug ioapic 9 chip)
    × Masking chip_bus debug ioapic chip-IsDevice
        (omega arith)
        9
        chip
        false
        (unmask_irq chip_bus debug ioapic 9 chip)
mask_irq-masked_example =
    mask_irq-masked chip_bus debug ioapic chip-IsDevice (omega arith) 9 chip (omega arith)
      (omega arith)

abbrev wide : IoApic
wide = record ioapic { max_entries = 240 }

abbrev pin_130 : ℕ
pin_130 = 130

write_redirection-wraps_example :
    (read_redirection chip_bus debug wide 130 chip ≡ none)
    × (write_redirection chip_bus debug wide 130 masked chip ≡ none)
    × (write_redirection chip_bus release wide 130 masked chip
        ≡ some (
            put chip_bus wide
              (wrapped 130 + 1)
              (u32 (masked.raw / 2 ^ 32))
              (put chip_bus wide (wrapped 130) (u32 masked.raw) chip)))
    × (((wrapped 130 + 1 < low 0) × ((pin_130 < 128) ⊎ (248 ≤ pin_130)))
        ⊎ ((128 ≤ pin_130) × (wrapped 130 ≡ low 2)))
write_redirection-wraps_example =
    write_redirection-wraps chip_bus wide 130 masked chip (omega arith) (omega arith) (omega arith)
      (omega arith)

abbrev second : IoApic
second = record { base_addr = 0xFEC01000; gsi_base = 24; max_entries = 24 }

abbrev both : List IoApic
both = ioapic ∷ second ∷ []

both-InWord : InWord both
both-InWord zero a e = ground arith
both-InWord (suc zero) a e = ground arith
both-InWord (suc (suc j)) a e = cc

route_gsi-FirstServing_example : Routed chip_bus debug 30 both 0x30 1 chip
route_gsi-FirstServing_example =
    route_gsi-FirstServing chip_bus debug 30 both 0x30 1 chip both-InWord

abbrev highest : ℕ
highest = 0x17
