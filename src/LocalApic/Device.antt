-- ===== src/LocalApic/Device.antt =====
-- What the documentation of the local APIC says of its registers, and how the driver's accesses and
-- sequences of them act on what is told there.
use smp_nostd.Base.{
  ℕ, ◌+◌, ◌/◌, ◌%◌, ◌^◌, ◌≤◌, ◌<◌, ◌≡◌, ◌∙◌, refl, ap, Bool, true, false, ◌||◌, ◌==◌, if◌then◌else◌,
  List, [], ◌∷◌, ◌++◌, Bool-cases, inl, inr, u32, Profile, add_word_fits, arith,
}
use smp_nostd.Base.Command.{Cmd, ⊤, done, and_then, Ends}
use smp_nostd.Hardware.{Hardware}
use smp_nostd.LocalApic.{LocalApic, read_reg, write_reg, msr_of}

-- The registers that software writes to configure the APIC; a few exist in xAPIC mode only.
abbrev pub stored : (x2apic : Bool) → (offset : ℕ) → Bool
stored x2apic o =
    o == 0x80
    || o == 0xF0
    || o == 0x2F0
    || o == 0x320
    || o == 0x330
    || o == 0x340
    || o == 0x350
    || o == 0x360
    || o == 0x370
    || o == 0x380
    || o == 0x3E0
    || (if x2apic then false else (o == 0xD0 || o == 0xE0 || o == 0x310))

-- A register file with one register written.
abbrev pub written : (ℕ → ℕ) → (offset value : ℕ) → ℕ → ℕ
written g offset value j = if offset == j then value else g j

module _ {Dev : Type 0} (hw : Hardware Dev) (a : LocalApic) where
  -- A register access of the driver in its mode.
  abbrev pub put : (offset value : ℕ) → Dev → Dev
  put offset value d =
      if a.x2apic
      then hw.wrmsr d (msr_of offset) value
      else hw.bus.write_volatile d (a.base_addr + offset) value

  abbrev pub get : (offset : ℕ) → Dev → ℕ × Dev
  get offset d =
      if a.x2apic
      then (let (value, d') = hw.rdmsr d (msr_of offset) in (u32 value, d'))
      else hw.bus.read_volatile d (a.base_addr + offset)

-- What each register of `stored` was last written with; the destination and the low word of every IPI
-- that was sent; and for how many reads more the last one may stay pending, at most `patience`.
pub record IsApic {Dev : Type 0} (hw : Hardware Dev) (a : LocalApic) : Type 0 where
  pub config : Dev → ℕ → ℕ
  pub sent : Dev → List (ℕ × ℕ)
  pub busy : Dev → ℕ
  pub patience : ℕ
  pub patient : (d : Dev) → busy d ≤ patience
  pub on_write :
      (o v : ℕ) (d : Dev)
      → stored a.x2apic o ≡ true
      → v < 2 ^ 32
      → (config (put hw a o v d) ≡ written (config d) o v)
        × (sent (put hw a o v d) ≡ sent d)
        × (busy (put hw a o v d) ≡ busy d)
  pub on_read :
      (o : ℕ) (d : Dev)
      → ((get hw a o d).0 < 2 ^ 32)
        × (config (get hw a o d).1 ≡ config d)
        × (sent (get hw a o d).1 ≡ sent d)
  pub on_read_svr : (d : Dev) → (get hw a 0xF0 d).0 % 2 ^ 10 ≡ config d 0xF0 % 2 ^ 10
  -- Bit 12 of the command register's low word is the delivery status, in xAPIC mode.
  pub on_poll :
      (d : Dev)
      → a.x2apic ≡ false
      → ((get hw a 0x300 d).0 / 2 ^ 12 % 2 ≡ 0 → busy (get hw a 0x300 d).1 ≡ 0)
        × ((get hw a 0x300 d).0 / 2 ^ 12 % 2 ≡ 1 → busy (get hw a 0x300 d).1 < busy d)
  pub on_send :
      (v : ℕ) (d : Dev)
      → a.x2apic ≡ false
      → busy d ≡ 0
      → v < 2 ^ 32
      → (sent (put hw a 0x300 v d) ≡ sent d ++ (config d 0x310 / 2 ^ 24, v) ∷ [])
        × (config (put hw a 0x300 v d) ≡ config d)
  pub on_send_x2apic :
      (v : ℕ) (d : Dev)
      → a.x2apic ≡ true
      → v < 2 ^ 64
      → (sent (put hw a 0x300 v d) ≡ sent d ++ (v / 2 ^ 32, v % 2 ^ 32) ∷ [])
        × (config (put hw a 0x300 v d) ≡ config d)

module _ {Dev : Type 0} (hw : Hardware Dev) (p : Profile) (a : LocalApic)
    (fits : a.base_addr + 0x1000 ≤ 2 ^ 64) where
  pub write_reg-put :
      (o v : ℕ) (d : Dev) → o < 0x1000 → write_reg hw p a o v d ≡ done tt (put hw a o v d)
  unfolding write_reg
  write_reg-put o v d h = elim (Bool-cases a.x2apic) [
    | inl on ↦ simp on refl
    | inr off ↦ simp (off, add_word_fits p 64 a.base_addr o (omega arith)) refl
  ]

  pub read_reg-get :
      (o : ℕ) (d : Dev) → o < 0x1000 → read_reg hw p a o d ≡ done (get hw a o d).0 (get hw a o d).1
  unfolding read_reg
  read_reg-get o d h = elim (Bool-cases a.x2apic) [
    | inl on ↦ simp on refl
    | inr off ↦ simp (off, add_word_fits p 64 a.base_addr o (omega arith)) refl
  ]

  module _ (dev : IsApic hw a) where
    -- The registers and the sent IPIs of a state.
    pub record Tracks (d : Dev) (g : ℕ → ℕ) (l : List (ℕ × ℕ)) : Type 0 where
      pub registers : dev.config d ≡ g
      pub ipis : dev.sent d ≡ l

    pub Tracks-now : (d : Dev) → Tracks d (dev.config d) (dev.sent d)
    Tracks-now d = record { registers = refl; ipis = refl }

    pub reads :
        {d : Dev} {g : ℕ → ℕ} {l : List (ℕ × ℕ)} → Tracks d g l → (j : ℕ) → dev.config d j ≡ g j
    reads t j = ap (λ (g : ℕ → ℕ). g j) t.registers

    pub Tracks-put :
        (o v : ℕ) (d : Dev) {g : ℕ → ℕ} {l : List (ℕ × ℕ)}
        → stored a.x2apic o ≡ true
        → v < 2 ^ 32
        → Tracks d g l
        → Tracks (put hw a o v d) (written g o v) l
    Tracks-put o v d {g} {l} known small t =
        let (new, same, still) = dev.on_write o v d known small in
        record { registers = new ∙ ap (λ r. written r o v) t.registers; ipis = same ∙ t.ipis }

    -- The last write of a command.
    pub last_write :
        (Q : ⊤ → Dev → Type 0) (o v : ℕ) {d : Dev} {g : ℕ → ℕ} {l : List (ℕ × ℕ)}
        → o < 0x1000
        → stored a.x2apic o ≡ true
        → v < 2 ^ 32
        → Tracks d g l
        → ((d' : Dev) → Tracks d' (written g o v) l → Q tt d')
        → Ends (write_reg hw p a o v d) Q
    last_write Q o v {d} lt known small t k =
        rw (write_reg-put o v d lt) (k (put hw a o v d) (Tracks-put o v d known small t))

    -- A write, and what follows it.
    pub then_write :
        {B : Type 0} (Q : B → Dev → Type 0) (o v : ℕ) (f : ⊤ → Cmd Dev B) {d : Dev} {g : ℕ → ℕ}
        {l : List (ℕ × ℕ)}
        → o < 0x1000
        → stored a.x2apic o ≡ true
        → v < 2 ^ 32
        → Tracks d g l
        → ((d' : Dev) → Tracks d' (written g o v) l → Ends (f tt d') Q)
        → Ends (and_then (write_reg hw p a o v d) f) Q
    then_write Q o v f {d = d} lt known small t k =
        rw (write_reg-put o v d lt) (k (put hw a o v d) (Tracks-put o v d known small t))

    -- A read, and what follows it.
    pub then_read :
        {B : Type 0} (Q : B → Dev → Type 0) (o : ℕ) (f : ℕ → Cmd Dev B) {d : Dev} {g : ℕ → ℕ}
        {l : List (ℕ × ℕ)}
        → o < 0x1000
        → Tracks d g l
        → ((d' : Dev) → (get hw a o d).0 < 2 ^ 32 → Tracks d' g l → Ends (f (get hw a o d).0 d') Q)
        → Ends (and_then (read_reg hw p a o d) f) Q
    then_read Q o f {d = d} lt t k =
        let (small, same, still) = dev.on_read o d in
        rw (read_reg-get o d lt) (
          k (get hw a o d).1 small
            (record { registers = same ∙ t.registers; ipis = still ∙ t.ipis }))
