-- ===== src/IoApic/Pins.antt =====
-- Routing and masking the pins of one I/O APIC.
use smp_nostd.Base.{
  ℕ, zero, suc, ◌+◌, ◌-◌, ◌*◌, ◌/◌, ◌%◌, ◌^◌, ◌≤◌, ◌<◌, ◌≡◌, ◌≢◌, ◌⊎◌, inl, inr, ◌∙◌, refl, ap,
  subst, Bool, Bool-cases, ltb, ltb→lt, ltb→le, true, false, Option, none, some, le→leb, lt→ltb,
  le→ltb, add_word_fits, u32, ℕ_discrete, arith, u8, Profile, release, debug,
}
use smp_nostd.RedirectionEntry.{
  RedirectionEntry, simple, masked, vector, is_masked, set_masked, destination,
}
use smp_nostd.RedirectionEntry.Fields.{destination_lem, set_masked_lem, new-fields}
use smp_nostd.Hardware.{Bus}
use smp_nostd.IoApic.{
  IoApic, route_irq, change_mask, mask_irq, unmask_irq, mask_loop, mask_all, read_redirection,
  write_redirection, reg_base,
}
use smp_nostd.IoApic.Device.{
  IsDevice, Programmed, write_redirection-Programmed, read_redirection-Seen, Seen, put,
  write_reg-put, Programmed-entry, entry, entry-same, low,
}

-- The same vector, delivery mode, destination mode, polarity, trigger mode and destination.
pub record SameRoute (e e' : RedirectionEntry) : Type 0 where
  pub modes : e'.raw % 2 ^ 12 ≡ e.raw % 2 ^ 12
  pub polarity : e'.raw / 2 ^ 13 % 2 ≡ e.raw / 2 ^ 13 % 2
  pub trigger : e'.raw / 2 ^ 15 % 2 ≡ e.raw / 2 ^ 15 % 2
  pub dest : destination e' ≡ destination e

module _ {Dev : Type 0} (bus : Bus Dev) (p : Profile) (a : IoApic) (dev : IsDevice bus a.base_addr)
    (fits : a.base_addr + 0x10 < 2 ^ 64) where
  -- On a device whose pins are below 120, `route_irq` for an interrupt of this device and an 8-bit
  -- vector and destination does not panic: the pin's entry then has that vector and destination and is
  -- not masked, and the registers of the other pins are as they were.
  pub route_irq-Programmed :
      (gsi v dest : ℕ) (d : Dev)
      → a.max_entries ≤ 120
      → a.gsi_base ≤ gsi
      → gsi < a.gsi_base + a.max_entries
      → v < 2 ^ 8
      → dest < 2 ^ 8
      → let pin = gsi - a.gsi_base in
        (d' : Dev) × (route_irq bus p a gsi v dest d ≡ some d')
        × Programmed bus p a dev fits d pin (simple v dest) d'
        × (vector (entry bus p a dev fits d' pin) ≡ v)
        × (is_masked (entry bus p a dev fits d' pin) ≡ false)
        × (destination (entry bus p a dev fits d' pin) ≡ dest)
  unfolding route_irq simple
  route_irq-Programmed gsi v dest d few lo hi vs ds =
      let pin = gsi - a.gsi_base in
      let e = simple v dest in
      let (raw, has_vector, unmasked, has_dest, word) =
        new-fields v 0 0 0 0 false dest vs (omega arith) (omega arith) (omega arith) (omega arith)
          ds in
      let (d', done, now) =
        write_redirection-Programmed bus p a dev fits pin e d (omega arith) (omega arith) word in
      let same = Programmed-entry bus p a dev fits now in
      (
        d',
        rw (le→leb a.gsi_base gsi lo, narrow) done,
        now,
        ap vector same ∙ has_vector,
        ap is_masked same ∙ unmasked,
        ap destination same ∙ has_dest,
      )
    where
      narrow : u8 (gsi - a.gsi_base) ≡ gsi - a.gsi_base
      narrow = omega arith

  same_route :
      (irq : ℕ) (d : Dev) (e e' : RedirectionEntry) (d1 d2 : Dev)
      → Seen bus p a dev fits d irq e d1
      → Programmed bus p a dev fits d1 irq e' d2
      → e'.raw % 2 ^ 16 ≡ e.raw % 2 ^ 16
      → e'.raw / 2 ^ 17 ≡ e.raw / 2 ^ 17
      → destination e' ≡ destination e
      → SameRoute (entry bus p a dev fits d irq) (entry bus p a dev fits d2 irq)
  same_route irq d e e' d1 d2 seen now lower upper dest =
      let (narrow, modes, polarity, trigger) = seen.low_word in
      record {
        modes = omega (arith, now.low_word);
        polarity = omega (arith, now.low_word);
        trigger = omega (arith, now.low_word);
        dest =
            ap destination (Programmed-entry bus p a dev fits now)
            ∙ dest
            ∙ omega (
              arith,
              destination_lem e,
              destination_lem (entry bus p a dev fits d irq),
              seen.high_word,
              dev.small d (low irq),
              dev.small d (low irq + 1),
            );
      }

  -- The entry of pin `irq` is masked as `m` says, and nothing else has changed.
  abbrev pub Masking : (irq : ℕ) → Dev → Bool → Option Dev → Type 0
  Masking irq d m r =
      (d' : Dev) × (r ≡ some d')
      × (is_masked (entry bus p a dev fits d' irq) ≡ m)
      × SameRoute (entry bus p a dev fits d irq) (entry bus p a dev fits d' irq)
      × ((j : ℕ) → j ≢ low irq → j ≢ low irq + 1 → dev.config d' j ≡ dev.config d j)

  change_mask-masked :
      (m : Bool) (irq : ℕ) (d : Dev)
      → irq < a.max_entries
      → irq < 120
      → Masking irq d m (change_mask bus p m a irq d)
  unfolding change_mask
  change_mask-masked m irq d lt few =
      let (e, d1, read, seen) = read_redirection-Seen bus p a dev fits irq d lt few in
      let small : e.raw < 2 ^ 64 = omega (arith, seen.low_word.0, seen.high_word.0) in
      let (is_m, lower, upper, v, dest, word, same) = set_masked_lem e m small in
      let (d2, done, now) =
        write_redirection-Programmed bus p a dev fits irq (set_masked e m) d1 lt few word in
      let e' = Programmed-entry bus p a dev fits now in
      (
        d2,
        rw read done,
        ap is_masked e' ∙ is_m,
        same_route irq d e (set_masked e m) d1 d2 seen now lower upper dest,
        λ j ne ne'. now.others j ne ne' ∙ seen.kept j,
      )

  -- `mask_irq` and `unmask_irq` of a pin below 120 do not panic: the pin's entry is then masked or not
  -- masked, it keeps its vector, modes and destination, and all other pins' registers are as they were.
  pub mask_irq-masked :
      (irq : ℕ) (d : Dev)
      → irq < a.max_entries
      → irq < 120
      → (Masking irq d true (mask_irq bus p a irq d))
        × (Masking irq d false (unmask_irq bus p a irq d))
  unfolding mask_irq unmask_irq
  mask_irq-masked irq d lt few =
      (change_mask-masked true irq d lt few, change_mask-masked false irq d lt few)

  masked-lt : masked.raw < 2 ^ 64
  unfolding masked
  masked-lt = omega arith

  -- Masking the pins `i .. i + n`.
  mask_loop-masked :
      (n i : ℕ) (d : Dev)
      → i + n ≤ a.max_entries
      → i + n ≤ 120
      → (d' : Dev) × (mask_loop bus p a n i d ≡ some d')
        × ((pin : ℕ) → i ≤ pin → pin < i + n → entry bus p a dev fits d' pin ≡ masked)
        × ((j : ℕ) → (j < low i) ⊎ (low (i + n) ≤ j) → dev.config d' j ≡ dev.config d j)
  unfolding mask_loop
  mask_loop-masked zero i d lt few = (d, refl, λ pin lo hi. absurd (omega arith), λ j out. refl)
  mask_loop-masked (suc n) i d lt few =
      let (d1, done, now) =
        write_redirection-Programmed bus p a dev fits i masked d (omega arith) (omega arith)
          masked-lt in
      let (d2, rest, all, others) = mask_loop-masked n (i + 1) d1 (omega arith) (omega arith) in
      (
        d2,
        rw done rest,
        λ pin lo hi. elim (ℕ_discrete i pin) [
          | yes e ↦
              subst (λ q. entry bus p a dev fits d2 q ≡ masked) e
                (entry-same bus p a dev fits d1 d2 i (others (low i) (inl (omega arith)))
                    (others (low i + 1) (inl (omega arith)))
                  ∙ Programmed-entry bus p a dev fits now)
          | no ne ↦ all pin (omega arith) (omega arith)
        ],
        λ j out.
            others j (elim out [ inl below ↦ inl (omega arith) | inr above ↦ inr (omega arith) ])
            ∙ now.others j (ground arith) (ground arith),
      )

  -- `mask_all` on a device whose pins are below 120 does not panic, masks every pin, and leaves all
  -- registers outside the table as they were.
  pub mask_all-masked :
      (d : Dev)
      → a.max_entries ≤ 120
      → (d' : Dev) × (mask_all bus p a d ≡ some d')
        × ((pin : ℕ) → pin < a.max_entries → entry bus p a dev fits d' pin ≡ masked)
        × ((j : ℕ) → (j < low 0) ⊎ (low a.max_entries ≤ j) → dev.config d' j ≡ dev.config d j)
  unfolding mask_all
  mask_all-masked d few =
      let (d', done, all, others) =
        mask_loop-masked a.max_entries 0 d (omega arith) (omega arith) in
      (
        d',
        done,
        λ pin lt. all pin (omega arith) (omega arith),
        λ j out. others j (elim out [ inl below ↦ inl below | inr above ↦ inr (omega arith) ]),
      )

-- The register index that is left of `0x10 + irq * 2` in 8 bits.
abbrev pub wrapped : (irq : ℕ) → ℕ
wrapped irq = (0x10 + 2 * irq) % 2 ^ 8

reg_base-wraps :
    {Dev : Type 0} (bus : Bus Dev) (irq : ℕ)
    → 120 ≤ irq
    → irq < 2 ^ 8
    → (reg_base bus debug irq ≡ none) × (reg_base bus release irq ≡ some (wrapped irq))
unfolding reg_base
reg_base-wraps bus irq lo hi = elim (Bool-cases (ltb (irq * 2) (2 ^ 8))) [
  | inl fits ↦
      rw (fits, le→ltb (0x10 + irq * 2) (2 ^ 8) (omega arith)) (refl, ap some (omega arith))
  | inr wraps ↦
      let over : 2 ^ 8 ≤ irq * 2 = ltb→le (irq * 2) (2 ^ 8) wraps in
      rw wraps (
        refl,
        elim (Bool-cases (ltb (0x10 + irq * 2 % 2 ^ 8) (2 ^ 8))) [
          | inl fits ↦
              let small : 0x10 + irq * 2 % 2 ^ 8 < 2 ^ 8 =
                ltb→lt (0x10 + irq * 2 % 2 ^ 8) (2 ^ 8) fits in
              rw fits (ap some (omega arith))
          | inr wraps' ↦ rw wraps' (ap some (omega arith))
        ],
      )
]

-- From pin 120 on the register index does not fit its 8 bits. Where overflow is checked, an access of such a
-- pin, which the device counts among its entries, panics; elsewhere `write_redirection` writes the two halves
-- of the entry to the registers from the wrapped index on: for the pins 120 to 127 and from 248 on the
-- registers from index 0 on, below the table, and for the pins between those of the entry 128 pins below.
pub write_redirection-wraps :
    {Dev : Type 0} (bus : Bus Dev) (a : IoApic) (irq : ℕ) (e : RedirectionEntry) (d : Dev)
    → a.base_addr + 0x10 < 2 ^ 64
    → irq < a.max_entries
    → 120 ≤ irq
    → irq < 2 ^ 8
    → (read_redirection bus debug a irq d ≡ none)
      × (write_redirection bus debug a irq e d ≡ none)
      × (write_redirection bus release a irq e d
          ≡ some (
              put bus a
                (wrapped irq + 1)
                (u32 (e.raw / 2 ^ 32))
                (put bus a (wrapped irq) (u32 e.raw) d)))
      × (((wrapped irq + 1 < low 0) × ((irq < 128) ⊎ (248 ≤ irq)))
          ⊎ ((128 ≤ irq) × (wrapped irq ≡ low (irq - 128))))
unfolding read_redirection write_redirection
write_redirection-wraps bus a irq e d fits lt lo hi = (
  rw (lt→ltb irq a.max_entries lt, (reg_base-wraps bus irq lo hi).0) refl,
  rw (lt→ltb irq a.max_entries lt, (reg_base-wraps bus irq lo hi).0) refl,
  rw
      (
        lt→ltb irq a.max_entries lt,
        (reg_base-wraps bus irq lo hi).1,
        write_reg-put bus release a fits,
        add_word_fits release 8 (wrapped irq) 1 (omega arith),
      )
      (write_reg-put bus release a fits _ _ _),
  place
      (elim (Bool-cases (ltb irq 128)) [
        | inl below ↦ inl (ltb→lt irq 128 below)
        | inr above ↦ inr (ltb→le irq 128 above)
      ])
      (elim (Bool-cases (ltb irq 248)) [
        | inl below ↦ inl (ltb→lt irq 248 below)
        | inr above ↦ inr (ltb→le irq 248 above)
      ]),
)
  where
    place :
        (irq < 128) ⊎ (128 ≤ irq)
        → (irq < 248) ⊎ (248 ≤ irq)
        → ((wrapped irq + 1 < low 0) × ((irq < 128) ⊎ (248 ≤ irq)))
          ⊎ ((128 ≤ irq) × (wrapped irq ≡ low (irq - 128)))
    place (inl below) side = inl (omega arith, inl below)
    place (inr above) (inl below) = inr (above, omega arith)
    place (inr above) (inr high) = inl (omega arith, inr high)
