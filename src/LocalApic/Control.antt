-- ===== src/LocalApic/Control.antt =====
-- Enabling and disabling the APIC by software, and the global enable.
use smp_nostd.Base.{
  ℕ, ◌+◌, ◌-◌, ◌*◌, ◌/◌, ◌%◌, ◌^◌, ◌≤◌, ◌<◌, ◌≡◌, ◌≢◌, ◌∙◌, refl, ap, bit_and, bit_or, u32_max,
  Profile, arith,
}
use smp_nostd.Base.Bits.{bit_and_not_mask, bit_or_high, bit_or_bit, bit_and_not_bit}
use smp_nostd.Base.Command.{Ends}
use smp_nostd.Hardware.{Hardware}
use smp_nostd.LocalApic.{LocalApic, enable, disable}
use smp_nostd.LocalApic.Device.{IsApic, Tracks, Tracks-now, written, get, then_read, last_write}

-- The words that `enable` and `disable` write.
abbrev on_word : ℕ → ℕ
on_word svr = bit_or (bit_or (bit_and svr (u32_max - 0xFF)) 0xFF) (2 ^ 8)

abbrev off_word : ℕ → ℕ
off_word svr = bit_and svr (u32_max - 2 ^ 8)

enabled_svr : (svr : ℕ) → svr < 2 ^ 32 → on_word svr ≡ svr / 2 ^ 9 * 2 ^ 9 + 0x1FF
enabled_svr svr h = omega (
  arith,
  ap (λ w. bit_or (bit_or w 0xFF) (2 ^ 8)) (bit_and_not_mask 24 8 svr (omega arith)),
  ap (λ w. bit_or (bit_or w 0xFF) (2 ^ 8)) cleared,
  ap (λ w. bit_or w (2 ^ 8)) (bit_or_high 8 (svr / 2 ^ 8) 0xFF (omega arith)),
  bit_or_bit 8 (svr / 2 ^ 8 * 2 ^ 8 + 0xFF),
)
  where
    cleared : svr - svr % 2 ^ 8 ≡ svr / 2 ^ 8 * 2 ^ 8
    cleared = omega arith

disabled_svr : (svr : ℕ) → svr < 2 ^ 32 → off_word svr ≡ svr - svr / 2 ^ 8 % 2 * 2 ^ 8
disabled_svr svr h = bit_and_not_bit 23 8 svr (omega arith)

module _ {Dev : Type 0} (hw : Hardware Dev) (p : Profile) (a : LocalApic)
    (fits : a.base_addr + 0x1000 ≤ 2 ^ 64) (dev : IsApic hw a) where
  -- The other registers and the sent IPIs are those of `d`.
  pub record OnlySvr (d d' : Dev) : Type 0 where
    pub others : (j : ℕ) → j ≢ 0xF0 → dev.config d' j ≡ dev.config d j
    pub ipis : dev.sent d' ≡ dev.sent d

  abbrev pub Enabled : Dev → Dev → Type 0
  Enabled d d' =
      (dev.config d' 0xF0 % 2 ^ 9 ≡ 0x1FF)
      × (dev.config d' 0xF0 / 2 ^ 9 % 2 ≡ dev.config d 0xF0 / 2 ^ 9 % 2)
      × OnlySvr d d'

  abbrev pub Disabled : Dev → Dev → Type 0
  Disabled d d' =
      (dev.config d' 0xF0 / 2 ^ 8 % 2 ≡ 0)
      × (dev.config d' 0xF0 % 2 ^ 8 ≡ dev.config d 0xF0 % 2 ^ 8)
      × (dev.config d' 0xF0 / 2 ^ 9 % 2 ≡ dev.config d 0xF0 / 2 ^ 9 % 2)
      × OnlySvr d d'

  only :
      (d d' : Dev) (v : ℕ)
      → Tracks hw p a fits dev d' (written (dev.config d) 0xF0 v) (dev.sent d)
      → OnlySvr d d'
  only d d' v t = record {
    others = λ j ne. ap (λ (g : ℕ → ℕ). g j) t.registers ∙ ground arith;
    ipis = t.ipis;
  }

  -- `enable` and `disable` return: the first sets the spurious vector to 0xFF and the enable bit, the
  -- second clears the enable bit and keeps the vector; both keep the focus bit, all other registers
  -- and send nothing.
  pub enable-Enabled :
      (d : Dev)
      → Ends (enable hw p a d) (λ _ d'. Enabled d d')
        × Ends (disable hw p a d) (λ _ d'. Disabled d d')
  unfolding enable disable
  enable-Enabled d = (
    then_read hw p a fits dev (λ _ d'. Enabled d d') 0xF0 _ (omega arith) now
        (λ d1 small t.
          last_write hw p a fits dev (λ _ d'. Enabled d d') 0xF0 (on_word svr) (omega arith) refl
            (omega (arith, enabled_svr svr)) t
            (λ d' t'.
              let w : dev.config d' 0xF0 ≡ svr / 2 ^ 9 * 2 ^ 9 + 0x1FF =
                ap (λ (g : ℕ → ℕ). g 0xF0) t'.registers ∙ enabled_svr svr small in
              (omega arith, omega (arith, dev.on_read_svr d), only d d' (on_word svr) t'))),
    then_read hw p a fits dev (λ _ d'. Disabled d d') 0xF0 _ (omega arith) now
        (λ d1 small t.
          last_write hw p a fits dev (λ _ d'. Disabled d d') 0xF0 (off_word svr) (omega arith) refl
            (omega (arith, disabled_svr svr)) t
            (λ d' t'.
              let w : dev.config d' 0xF0 ≡ svr - svr / 2 ^ 8 % 2 * 2 ^ 8 =
                ap (λ (g : ℕ → ℕ). g 0xF0) t'.registers ∙ disabled_svr svr small in
              (
                omega arith,
                omega (arith, dev.on_read_svr d),
                omega (arith, dev.on_read_svr d),
                only d d' (off_word svr) t',
              ))),
  )
    where
      svr : ℕ
      svr = (get hw a 0xF0 d).0

      now : Tracks hw p a fits dev d (dev.config d) (dev.sent d)
      now = Tracks-now hw p a fits dev d
