-- ===== src/RedirectionEntry.antt =====
-- src/ioapic.rs, `RedirectionEntry`: the 64-bit word of an I/O APIC pin.
pub mod Fields
mod Tests
use smp_nostd.Base.{
  ℕ, ◌-◌, ◌*◌, ◌/◌, ◌^◌, Bool, true, false, not, bit_and, bit_or, ◌==◌, if◌then◌else◌, u8, u64_max,
}

abbrev pub delmode_fixed : ℕ
delmode_fixed = 0b000 * 2 ^ 8

abbrev pub delmode_lowest : ℕ
delmode_lowest = 0b001 * 2 ^ 8

abbrev pub delmode_smi : ℕ
delmode_smi = 0b010 * 2 ^ 8

abbrev pub delmode_nmi : ℕ
delmode_nmi = 0b100 * 2 ^ 8

abbrev pub delmode_init : ℕ
delmode_init = 0b101 * 2 ^ 8

abbrev pub delmode_extint : ℕ
delmode_extint = 0b111 * 2 ^ 8

abbrev pub destmode_physical : ℕ
destmode_physical = 0 * 2 ^ 11

abbrev pub destmode_logical : ℕ
destmode_logical = 1 * 2 ^ 11

abbrev pub polarity_high : ℕ
polarity_high = 0 * 2 ^ 13

abbrev pub polarity_low : ℕ
polarity_low = 1 * 2 ^ 13

abbrev pub trigger_edge : ℕ
trigger_edge = 0 * 2 ^ 15

abbrev pub trigger_level : ℕ
trigger_level = 1 * 2 ^ 15

abbrev pub mask_bit : ℕ
mask_bit = 2 ^ 16

pub record RedirectionEntry : Type 0 where
  pub raw : ℕ

-- `RedirectionEntry::new`
unfoldable pub new :
    (vector delivery_mode dest_mode polarity trigger_mode : ℕ)
    → Bool
    → (destination : ℕ) → RedirectionEntry
new vector delivery_mode dest_mode polarity trigger_mode masked destination =
    let fields =
      bit_or
        (bit_or (bit_or (bit_or (bit_or vector delivery_mode) dest_mode) polarity) trigger_mode)
        (destination * 2 ^ 56) in
    record { raw = if masked then bit_or fields mask_bit else fields }

-- `simple`
unfoldable pub simple : (vector dest_apic_id : ℕ) → RedirectionEntry
unfolding new
simple vector dest_apic_id =
    new vector delmode_fixed destmode_physical polarity_high trigger_edge false dest_apic_id

-- `RedirectionEntry::masked`
unfoldable pub masked : RedirectionEntry
masked = record { raw = mask_bit }

unfoldable pub vector : RedirectionEntry → ℕ
vector e = u8 (bit_and e.raw 0xFF)

unfoldable pub is_masked : RedirectionEntry → Bool
is_masked e = not (bit_and e.raw mask_bit == 0)

unfoldable pub set_masked : RedirectionEntry → Bool → RedirectionEntry
set_masked e mask = record {
  raw = if mask then bit_or e.raw mask_bit else bit_and e.raw (u64_max - mask_bit);
}

unfoldable pub destination : RedirectionEntry → ℕ
destination e = u8 (bit_and (e.raw / 2 ^ 56) 0xFF)
