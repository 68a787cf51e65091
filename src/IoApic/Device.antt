-- ===== src/IoApic/Device.antt =====
-- What the documentation of an I/O APIC says of its two registers, and so of the driver's accesses.
use smp_nostd.Base.{
  ℕ, ◌+◌, ◌*◌, ◌/◌, ◌%◌, ◌^◌, ◌≤◌, ◌<◌, ◌≡◌, ◌≢◌, ◌∙◌, refl, sym, ap, subst, some, lt→ltb, arith,
  u32, Profile, add_word, add_word_fits, bit_or,
}
use smp_nostd.Base.Bits.{bit_or_low}
use smp_nostd.RedirectionEntry.{RedirectionEntry}
use smp_nostd.Hardware.{Bus}
use smp_nostd.IoApic.{IoApic, read_reg, write_reg, reg_base, read_redirection, write_redirection}

-- A value read from a register that was last written with `c`. The low word of an entry has two
-- read-only bits, 12 and 14, and reserved bits from 17 on; the high word has only its top byte.
abbrev pub AgreesLow : (v c : ℕ) → Type 0
AgreesLow v c =
    (v < 2 ^ 32)
    × (v % 2 ^ 12 ≡ c % 2 ^ 12)
    × (v / 2 ^ 13 % 2 ≡ c / 2 ^ 13 % 2)
    × (v / 2 ^ 15 % 4 ≡ c / 2 ^ 15 % 4)

abbrev pub AgreesHigh : (v c : ℕ) → Type 0
AgreesHigh v c = (v < 2 ^ 32) × (v / 2 ^ 24 ≡ c / 2 ^ 24)

-- The device at `base`: the register that IOREGSEL selects, and what each register of the redirection
-- table, from index 0x10 on, was last written with, 32 bits.
pub record IsDevice {Dev : Type 0} (bus : Bus Dev) (base : ℕ) : Type 0 where
  pub selected : Dev → ℕ
  pub config : Dev → ℕ → ℕ
  pub small : (d : Dev) (i : ℕ) → config d i < 2 ^ 32
  pub on_select :
      (d : Dev) (i : ℕ)
      → i < 2 ^ 8
      → (selected (bus.write_volatile d base i) ≡ i)
        × ((j : ℕ) → config (bus.write_volatile d base i) j ≡ config d j)
  pub on_write :
      (d : Dev) (v : ℕ)
      → 0x10 ≤ selected d
      → v < 2 ^ 32
      → (config (bus.write_volatile d (base + 0x10) v) (selected d) ≡ v)
        × ((j : ℕ) → j ≢ selected d → config (bus.write_volatile d (base + 0x10) v) j ≡ config d j)
  pub on_read :
      (d : Dev)
      → 0x10 ≤ selected d
      → (selected d % 2 ≡ 0
          → AgreesLow (bus.read_volatile d (base + 0x10)).0 (config d (selected d)))
        × (selected d % 2 ≡ 1
            → AgreesHigh (bus.read_volatile d (base + 0x10)).0 (config d (selected d)))
        × ((j : ℕ) → config (bus.read_volatile d (base + 0x10)).1 j ≡ config d j)

abbrev of_raw : ℕ → RedirectionEntry
of_raw raw = record { raw = raw }

-- The first register of a pin.
abbrev pub low : ℕ → ℕ
low irq = 0x10 + irq * 2

pub reg_base_lem :
    {Dev : Type 0} (bus : Bus Dev) (p : Profile) (irq : ℕ)
    → irq < 120
    → reg_base bus p irq ≡ some (low irq)
unfolding reg_base
reg_base_lem bus p irq h =
    rw (lt→ltb (irq * 2) (2 ^ 8) (omega arith)) (add_word_fits p 8 0x10 (irq * 2) (omega arith))

-- A register access of the driver.
module _ {Dev : Type 0} (bus : Bus Dev) (a : IoApic) where
  abbrev pub put : (index value : ℕ) → Dev → Dev
  put index value d =
      bus.write_volatile (bus.write_volatile d a.base_addr index) (a.base_addr + 0x10) value

  abbrev get : (index : ℕ) → Dev → ℕ × Dev
  get index d = bus.read_volatile (bus.write_volatile d a.base_addr index) (a.base_addr + 0x10)

module _ {Dev : Type 0} (bus : Bus Dev) (p : Profile) (a : IoApic)
    (fits : a.base_addr + 0x10 < 2 ^ 64) where
  select_address : add_word p 64 a.base_addr 0 ≡ some a.base_addr
  select_address = add_word_fits p 64 a.base_addr 0 (omega arith) ∙ ap some (omega arith)

  pub write_reg-put :
      (index value : ℕ) (d : Dev) → write_reg bus p a index value d ≡ some (put bus a index value d)
  unfolding write_reg
  write_reg-put index value d = rw (select_address, add_word_fits p 64 a.base_addr 0x10 fits) refl

  pub read_reg-get : (index : ℕ) (d : Dev) → read_reg bus p a index d ≡ some (get bus a index d)
  unfolding read_reg
  read_reg-get index d = rw (select_address, add_word_fits p 64 a.base_addr 0x10 fits) refl

module _ {Dev : Type 0} (bus : Bus Dev) (p : Profile) (a : IoApic) (dev : IsDevice bus a.base_addr)
    (fits : a.base_addr + 0x10 < 2 ^ 64) where
  -- What the two accesses do to the table.
  put-config :
      (i v : ℕ) (d : Dev)
      → 0x10 ≤ i
      → i < 2 ^ 8
      → v < 2 ^ 32
      → (dev.config (put bus a i v d) i ≡ v)
        × ((j : ℕ) → j ≢ i → dev.config (put bus a i v d) j ≡ dev.config d j)
  put-config i v d lo hi small =
      let (at, same) = dev.on_select d i hi in
      let (new, others) = dev.on_write (bus.write_volatile d a.base_addr i) v (omega arith) small in
      (
        ap (dev.config (put bus a i v d)) (sym at) ∙ new,
        λ j ne. others j (λ e. ne (e ∙ at)) ∙ same j,
      )

  get-config :
      (i : ℕ) (d : Dev)
      → 0x10 ≤ i
      → i < 2 ^ 8
      → (i % 2 ≡ 0 → AgreesLow (get bus a i d).0 (dev.config d i))
        × (i % 2 ≡ 1 → AgreesHigh (get bus a i d).0 (dev.config d i))
        × ((j : ℕ) → dev.config (get bus a i d).1 j ≡ dev.config d j)
  get-config i d lo hi =
      let (at, same) = dev.on_select d i hi in
      let (even, odd, kept) = dev.on_read (bus.write_volatile d a.base_addr i) (omega arith) in
      let here : dev.config (bus.write_volatile d a.base_addr i)
            (dev.selected (bus.write_volatile d a.base_addr i))
          ≡ dev.config d i =
        ap (dev.config (bus.write_volatile d a.base_addr i)) at ∙ same i in
      (
        λ e. subst (AgreesLow (get bus a i d).0) here (even (omega arith)),
        λ e. subst (AgreesHigh (get bus a i d).0) here (odd (omega arith)),
        λ j. kept j ∙ same j,
      )

  -- The entry of a pin as it was last written.
  abbrev pub entry : Dev → ℕ → RedirectionEntry
  entry d irq = record { raw = dev.config d (low irq) + dev.config d (low irq + 1) * 2 ^ 32 }

  pub entry-same :
      (d d' : Dev) (irq : ℕ)
      → dev.config d' (low irq) ≡ dev.config d (low irq)
      → dev.config d' (low irq + 1) ≡ dev.config d (low irq + 1)
      → entry d' irq ≡ entry d irq
  entry-same d d' irq e e' = ap of_raw (omega arith)

  -- `d'` has the entry `e` at pin `irq`, and otherwise what `d` has.
  pub record Programmed (d : Dev) (irq : ℕ) (e : RedirectionEntry) (d' : Dev) : Type 0 where
    pub low_word : dev.config d' (low irq) ≡ e.raw % 2 ^ 32
    pub high_word : dev.config d' (low irq + 1) ≡ e.raw / 2 ^ 32
    pub others : (j : ℕ) → j ≢ low irq → j ≢ low irq + 1 → dev.config d' j ≡ dev.config d j

  pub Programmed-entry :
      {d d' : Dev} {irq : ℕ} {e : RedirectionEntry} → Programmed d irq e d' → entry d' irq ≡ e
  Programmed-entry {d' = d'} {irq} {e} done =
      ap of_raw (omega (arith, done.low_word, done.high_word))

  -- Writing the entry of a pin below 120.
  pub write_redirection-Programmed :
      (irq : ℕ) (e : RedirectionEntry) (d : Dev)
      → irq < a.max_entries
      → irq < 120
      → e.raw < 2 ^ 64
      → (d' : Dev) × (write_redirection bus p a irq e d ≡ some d') × Programmed d irq e d'
  unfolding write_redirection
  write_redirection-Programmed irq e d lt few small =
      let d1 = put bus a (low irq) (u32 e.raw) d in
      let d2 = put bus a (low irq + 1) (u32 (e.raw / 2 ^ 32)) d1 in
      let (low_new, low_others) =
        put-config (low irq) (u32 e.raw) d (omega arith) (omega arith) (omega arith) in
      let (high_new, high_others) =
        put-config (low irq + 1) (u32 (e.raw / 2 ^ 32)) d1 (omega arith) (omega arith)
          (omega arith) in
      (
        d2,
        rw
            (
              lt→ltb irq a.max_entries lt,
              reg_base_lem bus p irq few,
              write_reg-put bus p a fits,
              add_word_fits p 8 (low irq) 1 (omega arith),
            )
            (write_reg-put bus p a fits _ _ _),
        record {
          low_word = high_others (low irq) (omega arith) ∙ low_new;
          high_word = omega (arith, high_new);
          others = λ j ne ne'. high_others j ne' ∙ low_others j ne;
        },
      )

  -- Reading the entry of a pin below 120: what the read tells of the entry, and that it writes nothing.
  pub record Seen (d : Dev) (irq : ℕ) (e : RedirectionEntry) (d' : Dev) : Type 0 where
    pub low_word : AgreesLow (e.raw % 2 ^ 32) (dev.config d (low irq))
    pub high_word : AgreesHigh (e.raw / 2 ^ 32) (dev.config d (low irq + 1))
    pub kept : (j : ℕ) → dev.config d' j ≡ dev.config d j

  pub read_redirection-Seen :
      (irq : ℕ) (d : Dev)
      → irq < a.max_entries
      → irq < 120
      → (e : RedirectionEntry) × (d' : Dev) × (read_redirection bus p a irq d ≡ some (e, d'))
        × Seen d irq e d'
  unfolding read_redirection
  read_redirection-Seen irq d lt few =
      let (l, d1) = get bus a (low irq) d in
      let (h, d2) = get bus a (low irq + 1) d1 in
      let (even, odd, kept) = get-config (low irq) d (omega arith) (omega arith) in
      let (even', odd', kept') = get-config (low irq + 1) d1 (omega arith) (omega arith) in
      let agrees_low : AgreesLow l (dev.config d (low irq)) = even (omega arith) in
      let agrees_high : AgreesHigh h (dev.config d1 (low irq + 1)) = odd' (omega arith) in
      let joined : bit_or l (h * 2 ^ 32) ≡ h * 2 ^ 32 + l = bit_or_low 32 h l agrees_low.0 in
      (
        record { raw = bit_or l (h * 2 ^ 32) },
        d2,
        rw
            (
              lt→ltb irq a.max_entries lt,
              reg_base_lem bus p irq few,
              read_reg-get bus p a fits,
              add_word_fits p 8 (low irq) 1 (omega arith),
              read_reg-get bus p a fits,
            )
            refl,
        record {
          low_word = subst (λ v. AgreesLow v (dev.config d (low irq))) (omega arith) agrees_low;
          high_word =
              subst (λ v. AgreesHigh v (dev.config d (low irq + 1))) (omega arith)
                (subst (AgreesHigh h) (kept (low irq + 1)) agrees_high);
          kept = λ j. kept' j ∙ kept j;
        },
      )
