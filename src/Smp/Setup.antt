-- ===== src/Smp/Setup.antt =====
-- `init_bsp_apic`: the local APIC of the first processor after its set-up.
use smp_nostd.Base.{
  ℕ, ◌+◌, ◌/◌, ◌%◌, ◌^◌, ◌≤◌, ◌<◌, ◌≡◌, ◌∙◌, refl, ap, true, false, release, List, [], ◌∷◌, length,
  length-append, bit_and, bit_or, Profile, arith,
}
use smp_nostd.Base.Bits.{bit_and_mask, bit_or_bit}
use smp_nostd.Base.Command.{⊤, Ends, Ends-bind, Ends-weaken}
use smp_nostd.Hardware.{Hardware}
use smp_nostd.LocalApic.{LocalApic, enable, write_tpr, write_dfr, read_ldr, write_ldr, version}
use smp_nostd.LocalApic.Vectors.{
  write_lvt_lint0, write_lvt_lint1, write_lvt_error, write_lvt_timer, write_lvt_perf,
  write_lvt_thermal,
}
use smp_nostd.LocalApic.Device.{IsApic, Tracks-now, reads, get, then_write, then_read, stored}
use smp_nostd.LocalApic.Control.{Enabled, enable-Enabled}
use smp_nostd.IoApic.{IoApic, add}
use smp_nostd.IoApic.Release.{new-some, mask_all-some}
use smp_nostd.Smp.{MadtIoApic}
use smp_nostd.Smp.Boot.{init_bsp_apic, init_io_apics}

module _ {Dev : Type 0} (hw : Hardware Dev) (p : Profile) (a : LocalApic)
    (fits : a.base_addr + 0x1000 ≤ 2 ^ 64) (dev : IsApic hw a) where
  -- The interrupts of the table with an entry for each local source, and what else is set up.
  pub record SetUp (d d' : Dev) : Type 0 where
    pub enabled : dev.config d' 0xF0 % 2 ^ 9 ≡ 0x1FF
    pub priority : dev.config d' 0x80 ≡ 0
    pub model : dev.config d' 0xE0 ≡ 0xFFFFFFFF
    pub logical_id : dev.config d' 0xD0 / 2 ^ 24 ≡ 1
    pub lint0 : dev.config d' 0x350 ≡ 2 ^ 16
    pub lint1 : dev.config d' 0x360 ≡ 2 ^ 16
    pub error : dev.config d' 0x370 ≡ 2 ^ 16
    pub timer : dev.config d' 0x320 ≡ 2 ^ 16
    pub perf : dev.config d' 0x340 ≡ 2 ^ 16
    pub thermal : dev.config d' 0x330 ≡ 2 ^ 16
    pub cmci : dev.config d' 0x2F0 ≡ dev.config d 0x2F0
    pub ipis : dev.sent d' ≡ dev.sent d

  known : (o : ℕ) → a.x2apic ≡ false → stored false o ≡ true → stored a.x2apic o ≡ true
  known o off h = rw off h

  abbrev ldr_word : ℕ → ℕ
  ldr_word ldr = bit_or (bit_and ldr 0x00FFFFFF) (2 ^ 24)

  ldr_word_lem : (ldr : ℕ) → ldr < 2 ^ 32 → ldr_word ldr ≡ 2 ^ 24 + ldr % 2 ^ 24
  ldr_word_lem ldr h =
      omega (
        arith,
        ap (λ (w : ℕ). bit_or w (2 ^ 24)) (bit_and_mask 24 ldr),
        bit_or_bit 24 (ldr % 2 ^ 24),
      )

  -- In xAPIC mode `init_bsp_apic` returns: the APIC is enabled, accepts all priorities, has the flat
  -- model and logical identifier 1, six local interrupts are masked, and nothing has been sent; the entry
  -- for corrected machine checks is as it was.
  pub init_bsp_apic-SetUp :
      (d : Dev) → a.x2apic ≡ false → Ends (init_bsp_apic hw p a d) (λ _ d'. SetUp d d')
  unfolding init_bsp_apic write_tpr write_dfr read_ldr write_ldr version write_lvt_lint0
      write_lvt_lint1 write_lvt_error write_lvt_timer write_lvt_perf write_lvt_thermal
  init_bsp_apic-SetUp d off =
      let Q = λ (_ : ⊤) (d' : Dev). SetUp d d' in
      Ends-bind (enable hw p a d) _ (λ _ d1. Enabled hw p a fits dev d d1) Q
        (enable-Enabled hw p a fits dev d).0
        (λ _ d1 (vector, focus, only).
          then_write hw p a fits dev Q 0x80 0 _ (omega arith) refl (omega arith)
            (Tracks-now hw p a fits dev d1)
            (λ d2 t2.
              then_write hw p a fits dev Q 0xE0 0xFFFFFFFF _ (omega arith) (known 0xE0 off refl)
                (omega arith) t2
                (λ d3 t3. then_read hw p a fits dev Q 0xD0 _ (omega arith) t3 (λ d4 small t4.
                  then_write hw p a fits dev Q 0xD0 (ldr_word (get hw a 0xD0 d3).0) _ (omega arith)
                    (known 0xD0 off refl) (omega (arith, ldr_word_lem (get hw a 0xD0 d3).0 small))
                    t4
                    (λ d5 t5.
                      then_write hw p a fits dev Q 0x350 (2 ^ 16) _ (omega arith) refl (omega arith)
                        t5
                        (λ d6 t6.
                          then_write hw p a fits dev Q 0x360 (2 ^ 16) _ (omega arith) refl
                            (omega arith) t6
                            (λ d7 t7.
                              then_write hw p a fits dev Q 0x370 (2 ^ 16) _ (omega arith) refl
                                (omega arith) t7
                                (λ d8 t8.
                                  then_write hw p a fits dev Q 0x320 (2 ^ 16) _ (omega arith) refl
                                    (omega arith) t8
                                    (λ d9 t9.
                                      then_write hw p a fits dev Q 0x340 (2 ^ 16) _ (omega arith)
                                        refl (omega arith) t9
                                        (λ d10 t10.
                                          then_write hw p a fits dev Q 0x330 (2 ^ 16) _
                                            (omega arith) refl (omega arith) t10
                                            (λ d11 t11.
                                              then_read hw p a fits dev Q 0x30 _ (omega arith) t11
                                                (λ d12 _ t12.
                                                  let at = reads hw p a fits dev t12 in
                                                  record {
                                                    enabled =
                                                        ap (λ (w : ℕ). w % 2 ^ 9) (at 0xF0)
                                                        ∙ vector;
                                                    priority = at 0x80;
                                                    model = at 0xE0;
                                                    logical_id =
                                                        ap (λ (w : ℕ). w / 2 ^ 24) (at 0xD0)
                                                        ∙ omega (
                                                          arith,
                                                          ldr_word_lem (get hw a 0xD0 d3).0 small,
                                                        );
                                                    lint0 = at 0x350;
                                                    lint1 = at 0x360;
                                                    error = at 0x370;
                                                    timer = at 0x320;
                                                    perf = at 0x340;
                                                    thermal = at 0x330;
                                                    cmci =
                                                        at 0x2F0 ∙ only.others 0x2F0 (omega arith);
                                                    ipis = t12.ipis ∙ only.ipis;
                                                  }))))))))))))

-- In the release profile the set-up of the I/O APICs returns, with one driver more for each.
pub init_io_apics-length :
    {Dev : Type 0} (hw : Hardware Dev) (manager : List IoApic) (infos : List MadtIoApic) (d : Dev)
    → Ends
        (init_io_apics hw release manager infos d)
        (λ manager' _. length manager' ≡ length manager + length infos)
unfolding init_io_apics add
init_io_apics-length hw manager [] d = omega arith
init_io_apics-length hw manager (info ∷ infos) d =
    let ((ioapic, d1), e) = new-some hw.bus info.address info.gsi_base d in
    let (d2, e') = mask_all-some hw.bus ioapic d1 in
    let rest = add manager ioapic in
    rw (e, e')
      (Ends-weaken (init_io_apics hw release rest infos d2)
        (λ manager' _. length manager' ≡ length rest + length infos)
        (λ manager' _. length manager' ≡ length manager + length (info ∷ infos))
        (init_io_apics-length hw rest infos d2)
        (λ manager' _ h. omega (arith, length-append manager (ioapic ∷ []))))
