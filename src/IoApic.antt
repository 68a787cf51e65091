-- ===== src/IoApic.antt =====
-- src/ioapic.rs, `IoApic` and `IoApicManager`, over a bus of memory-mapped registers. `none` is a
-- panic: a failed assertion or, in the debug profile, an overflow. The logging is left out.
pub mod Device
pub mod Pins
pub mod Manager
pub mod Release
mod Tests
use smp_nostd.Base.{
  ℕ, zero, suc, ◌+◌, ◌*◌, ◌/◌, ◌^◌, ◌&&◌, Bool, true, false, bit_and, bit_or, Option, none, some,
  ◌>>=◌, List, [], ◌∷◌, ◌++◌, length, ltb, leb, if◌then◌else◌, u8, u32, Profile, add_word, sub_word,
  mul_word,
}
use smp_nostd.Hardware.{Bus}
use smp_nostd.RedirectionEntry.{RedirectionEntry, simple, masked, set_masked}

abbrev pub ioregsel : ℕ
ioregsel = 0x00

abbrev pub iowin : ℕ
iowin = 0x10

abbrev pub reg_ioapicid : ℕ
reg_ioapicid = 0x00

abbrev pub reg_ioapicver : ℕ
reg_ioapicver = 0x01

abbrev pub reg_ioapicarb : ℕ
reg_ioapicarb = 0x02

abbrev pub reg_redtbl_base : ℕ
reg_redtbl_base = 0x10

pub record IoApic : Type 0 where
  pub base_addr : ℕ
  pub gsi_base : ℕ
  pub max_entries : ℕ

module _ {Dev : Type 0} (bus : Bus Dev) (p : Profile) where
  unfoldable pub read_reg : IoApic → (index : ℕ) → Dev → Option (ℕ × Dev)
  read_reg a index d = add_word p 64 a.base_addr ioregsel >>= λ sel.
      add_word p 64 a.base_addr iowin >>= λ win.
      some (bus.read_volatile (bus.write_volatile d sel index) win)

  unfoldable pub write_reg : IoApic → (index value : ℕ) → Dev → Option Dev
  write_reg a index value d = add_word p 64 a.base_addr ioregsel >>= λ sel.
      add_word p 64 a.base_addr iowin >>= λ win.
      some (bus.write_volatile (bus.write_volatile d sel index) win value)

  unfoldable pub read_id : IoApic → Dev → Option (ℕ × Dev)
  unfolding read_reg
  read_id a d = read_reg a reg_ioapicid d

  unfoldable pub read_version : IoApic → Dev → Option (ℕ × Dev)
  unfolding read_reg
  read_version a d = read_reg a reg_ioapicver d

  unfoldable pub read_arbitration : IoApic → Dev → Option (ℕ × Dev)
  unfolding read_reg
  read_arbitration a d = read_reg a reg_ioapicarb d

  -- `IoApic::new`
  unfoldable pub new : (base_vaddr gsi_base : ℕ) → Dev → Option (IoApic × Dev)
  unfolding read_version
  new base_vaddr gsi_base d =
      let ioapic : IoApic = record {
        base_addr = base_vaddr;
        gsi_base = gsi_base;
        max_entries = 0;
      } in
      read_version ioapic d >>= λ (ver, d').
      add_word p 8 (u8 (bit_and (ver / 2 ^ 16) 0xFF)) 1 >>= λ max_entries.
      some (record ioapic { max_entries = max_entries }, d')

  -- `REG_REDTBL_BASE + irq * 2` in 8 bits
  unfoldable pub reg_base : ℕ → Option ℕ
  reg_base irq = mul_word p 8 irq 2 >>= λ offset. add_word p 8 reg_redtbl_base offset

  unfoldable pub read_redirection : IoApic → (irq : ℕ) → Dev → Option (RedirectionEntry × Dev)
  unfolding reg_base read_reg
  read_redirection a irq d =
      if ltb irq a.max_entries
      then (reg_base irq >>= λ base. read_reg a base d >>= λ (low, d').
          add_word p 8 base 1 >>= λ next. read_reg a next d' >>= λ (high, d'').
          some (record { raw = bit_or low (high * 2 ^ 32) }, d''))
      else none

  unfoldable pub write_redirection : IoApic → (irq : ℕ) → RedirectionEntry → Dev → Option Dev
  unfolding reg_base write_reg
  write_redirection a irq entry d =
      if ltb irq a.max_entries
      then (reg_base irq >>= λ base. write_reg a base (u32 entry.raw) d >>= λ d'.
          add_word p 8 base 1 >>= λ next. write_reg a next (u32 (entry.raw / 2 ^ 32)) d')
      else none

  unfoldable pub route_irq : IoApic → (gsi vector dest_apic_id : ℕ) → Dev → Option Dev
  unfolding write_redirection
  route_irq a gsi vector dest_apic_id d = sub_word p 32 gsi a.gsi_base >>= λ pin.
      write_redirection a (u8 pin) (simple vector dest_apic_id) d

  -- What `mask_irq` and `unmask_irq` do with their constant.
  unfoldable pub change_mask : Bool → IoApic → (irq : ℕ) → Dev → Option Dev
  unfolding read_redirection write_redirection
  change_mask mask a irq d =
      read_redirection a irq d >>= λ (entry, d'). write_redirection a irq (set_masked entry mask) d'

  unfoldable pub mask_irq : IoApic → (irq : ℕ) → Dev → Option Dev
  unfolding change_mask
  mask_irq a irq d = change_mask true a irq d

  unfoldable pub unmask_irq : IoApic → (irq : ℕ) → Dev → Option Dev
  unfolding change_mask
  unmask_irq a irq d = change_mask false a irq d

  -- The loop of `mask_all` over the pins `i .. i + n`.
  pub mask_loop : IoApic → (n i : ℕ) → Dev → Option Dev
  unfolding write_redirection
  mask_loop a zero i d = some d
  mask_loop a (suc n) i d = write_redirection a i masked d >>= λ d'. mask_loop a n (i + 1) d'

  -- `IoApic::mask_all`
  unfoldable pub mask_all : IoApic → Dev → Option Dev
  unfolding mask_loop
  mask_all a d = mask_loop a a.max_entries 0 d

  -- `gsi >= ioapic.gsi_base && gsi < ioapic.gsi_base + ioapic.max_entries as u32`
  unfoldable pub covers : (gsi : ℕ) → IoApic → Option Bool
  covers gsi a =
      if leb a.gsi_base gsi
      then (add_word p 32 a.gsi_base a.max_entries >>= λ end. some (ltb gsi end))
      else some false

  -- `IoApicManager::find_for_gsi`, on the list of the manager.
  pub find_for_gsi : List IoApic → (gsi : ℕ) → Option (Option IoApic)
  unfolding covers
  find_for_gsi [] gsi = some none
  find_for_gsi (a ∷ apics) gsi =
      let rest = find_for_gsi apics gsi in
      covers gsi a >>= λ here. if here then some (some a) else rest

  route_found : (gsi vector dest_apic_id : ℕ) → Dev → Option IoApic → Option Dev
  unfolding route_irq
  route_found gsi vector dest_apic_id d none = some d
  route_found gsi vector dest_apic_id d (some a) = route_irq a gsi vector dest_apic_id d

  -- `IoApicManager::route_gsi`
  unfoldable pub route_gsi : List IoApic → (gsi vector dest_apic_id : ℕ) → Dev → Option Dev
  unfolding find_for_gsi route_found
  route_gsi apics gsi vector dest_apic_id d =
      find_for_gsi apics gsi >>= λ found. route_found gsi vector dest_apic_id d found

  -- `IoApicManager::mask_all`
  pub mask_each : List IoApic → Dev → Option Dev
  unfolding mask_all
  mask_each [] d = some d
  mask_each (a ∷ apics) d = mask_all a d >>= λ d'. mask_each apics d'

-- `IoApicManager::new`, `add` and `count`
abbrev pub no_ioapics : List IoApic
no_ioapics = []

unfoldable pub add : List IoApic → IoApic → List IoApic
add apics a = apics ++ a ∷ []

pub ioapic_count : List IoApic → ℕ
ioapic_count apics = length apics
