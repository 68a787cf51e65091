-- ===== src/IoApic/Manager.antt =====
-- Which I/O APIC serves an interrupt, and how many pins a new one has.
use smp_nostd.Base.{
  ℕ, zero, suc, ◌+◌, ◌/◌, ◌%◌, ◌^◌, ◌≤◌, ◌<◌, ◌≡◌, ◌⊎◌, inl, inr, refl, true, false, Option, none,
  some, List, [], ◌∷◌, get_elem?, lt→ltb, le→ltb, le→leb, lt→leb, dec_le, dec_lt, add_word_fits,
  arith, u8, bit_and, Profile, release, debug,
}
use smp_nostd.Hardware.{Bus}
use smp_nostd.IoApic.{IoApic, find_for_gsi, covers, route_gsi, route_irq, new, read_version}
use smp_nostd.IoApic.Device.{read_reg-get}
use smp_nostd.Base.Bits.{bit_and_mask}

-- The interrupts of an I/O APIC.
abbrev pub Serves : ℕ → IoApic → Type 0
Serves gsi a = (a.gsi_base ≤ gsi) × (gsi < a.gsi_base + a.max_entries)

-- The first of the list that serves the interrupt, or none if there is no such one.
abbrev pub FirstServing : ℕ → List IoApic → Option IoApic → Type 0
FirstServing gsi apics none = (j : ℕ) (a : IoApic) → get_elem? apics j ≡ some a → ¬ Serves gsi a
FirstServing gsi apics (some a) =
    (k : ℕ) × (get_elem? apics k ≡ some a)
    × Serves gsi a
    × ((j : ℕ) (b : IoApic) → j < k → get_elem? apics j ≡ some b → ¬ Serves gsi b)

-- The ranges of all I/O APICs end below 2^32.
abbrev pub InWord : List IoApic → Type 0
InWord apics =
    (j : ℕ) (a : IoApic) → get_elem? apics j ≡ some a → a.gsi_base + a.max_entries < 2 ^ 32

module _ {Dev : Type 0} (bus : Bus Dev) (p : Profile) (gsi : ℕ) where
  covers-Serves :
      (a : IoApic)
      → a.gsi_base + a.max_entries < 2 ^ 32
      → ((covers bus p gsi a ≡ some true) × Serves gsi a)
        ⊎ ((covers bus p gsi a ≡ some false) × (¬ Serves gsi a))
  unfolding covers
  covers-Serves a h = elim (dec_le a.gsi_base gsi) [
    | no out ↦ inr (rw (lt→leb a.gsi_base gsi (omega arith)) refl, λ s. omega arith)
    | yes lo ↦ elim (dec_lt gsi (a.gsi_base + a.max_entries)) [
      | yes hi ↦ inl (
        rw
            (
              le→leb a.gsi_base gsi lo,
              add_word_fits p 32 a.gsi_base a.max_entries h,
              lt→ltb gsi (a.gsi_base + a.max_entries) hi,
            )
            refl,
        (lo, hi),
      )
      | no out ↦ inr (
        rw
            (
              le→leb a.gsi_base gsi lo,
              add_word_fits p 32 a.gsi_base a.max_entries h,
              le→ltb gsi (a.gsi_base + a.max_entries) (omega arith),
            )
            refl,
        λ s. omega arith,
      )
    ]
  ]

  skipped :
      (a : IoApic) (apics : List IoApic) (n : ℕ)
      → ¬ Serves gsi a
      → ((j : ℕ) (b : IoApic) → j < n → get_elem? apics j ≡ some b → ¬ Serves gsi b)
      → (j : ℕ) (b : IoApic) → j < suc n
      → get_elem? (a ∷ apics) j ≡ some b
      → ¬ Serves gsi b
  skipped a apics n ne f zero b lt e s = ne (ground arith)
  skipped a apics n ne f (suc j) b lt e s = f j b (omega arith) e s

  later :
      (a : IoApic) (apics : List IoApic) (r : Option IoApic)
      → ¬ Serves gsi a
      → FirstServing gsi apics r
      → FirstServing gsi (a ∷ apics) r
  later a apics none ne f =
      λ j b e. skipped a apics (suc j) ne (λ i c lt. f i c) j b (omega arith) e
  later a apics (some b) ne (k, at, s, first) = (suc k, at, s, skipped a apics k ne first)

  -- With all ranges below 2^32, `find_for_gsi` does not panic and gives the first I/O APIC that serves
  -- the interrupt, or none if none does.
  pub find_for_gsi-FirstServing :
      (apics : List IoApic)
      → InWord apics
      → (r : Option IoApic) × (find_for_gsi bus p apics gsi ≡ some r) × FirstServing gsi apics r
  unfolding find_for_gsi
  find_for_gsi-FirstServing [] h = (none, refl, λ j a e. cc)
  find_for_gsi-FirstServing (a ∷ apics) h = elim (covers-Serves a (h 0 a refl)) [
    | inl (yes_, s) ↦ (some a, rw yes_ refl, (0, refl, s, λ j b lt e. absurd (omega arith)))
    | inr (no_, ne) ↦
        let (r, found, first) = find_for_gsi-FirstServing apics (λ j b e. h (suc j) b e) in
        (r, rw no_ found, later a apics r ne first)
  ]

  abbrev pub Routed : List IoApic → (vector dest : ℕ) → Dev → Type 0
  Routed apics vector dest d =
      ((a : IoApic) × FirstServing gsi apics (some a)
        × (route_gsi bus p apics gsi vector dest d ≡ route_irq bus p a gsi vector dest d))
      ⊎ (FirstServing gsi apics none × (route_gsi bus p apics gsi vector dest d ≡ some d))

  routed :
      (apics : List IoApic) (vector dest : ℕ) (d : Dev) (r : Option IoApic)
      → find_for_gsi bus p apics gsi ≡ some r
      → FirstServing gsi apics r
      → Routed apics vector dest d
  unfolding route_gsi
  routed apics vector dest d none found first = inr (first, rw found refl)
  routed apics vector dest d (some a) found first = inl (a, first, rw found refl)

  -- With all ranges below 2^32, `route_gsi` does what `route_irq` does on the first I/O APIC that serves
  -- the interrupt, and leaves the devices alone, without an error, where none does.
  pub route_gsi-FirstServing :
      (apics : List IoApic) (vector dest : ℕ) (d : Dev) → InWord apics → Routed apics vector dest d
  route_gsi-FirstServing apics vector dest d h =
      let (r, found, first) = find_for_gsi-FirstServing apics h in
      routed apics vector dest d r found first

-- `IoApic::new` reads the version register once; where its byte 2, the highest pin, is below 0xFF, the
-- driver has one entry more than that, on the same base and interrupts. At 0xFF it panics where
-- overflow is checked, and has no entries elsewhere.
pub new-max_entries :
    {Dev : Type 0} (bus : Bus Dev) (p : Profile) (base gsi_base : ℕ) (d : Dev)
    → base + 0x10 < 2 ^ 64
    → let (ver, d') = bus.read_volatile (bus.write_volatile d base 1) (base + 0x10) in
      let highest = ver / 2 ^ 16 % 2 ^ 8 in
      (highest < 0xFF
        → new bus p base gsi_base d
          ≡ some (record { base_addr = base; gsi_base = gsi_base; max_entries = highest + 1 }, d'))
      × (highest ≡ 0xFF
          → (new bus debug base gsi_base d ≡ none)
            × (new bus release base gsi_base d
                ≡ some (record { base_addr = base; gsi_base = gsi_base; max_entries = 0 }, d')))
unfolding new read_version
new-max_entries bus p base gsi_base d fits = (
  λ low.
      rw (read_reg-get bus p unread fits 1 d, byte, add_word_fits p 8 highest 1 (omega arith)) refl,
  λ top. (
    rw (read_reg-get bus debug unread fits 1 d, byte, top) refl,
    rw (read_reg-get bus release unread fits 1 d, byte, top) refl,
  ),
)
  where
    unread : IoApic
    unread = record { base_addr = base; gsi_base = gsi_base; max_entries = 0 }

    ver : ℕ
    ver = (bus.read_volatile (bus.write_volatile d base 1) (base + 0x10)).0

    highest : ℕ
    highest = ver / 2 ^ 16 % 2 ^ 8

    byte : u8 (bit_and (ver / 2 ^ 16) 0xFF) ≡ highest
    byte = omega (arith, bit_and_mask 8 (ver / 2 ^ 16))
