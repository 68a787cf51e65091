-- ===== src/LocalApic/Sending.antt =====
-- Sending interrupts to other processors: the wait ends, and one interrupt goes out as asked.
use smp_nostd.Base.{
  ℕ, zero, suc, ◌+◌, ◌*◌, ◌/◌, ◌%◌, ◌^◌, ◌≤◌, ◌<◌, ◌≡◌, ◌≢◌, ◌∙◌, refl, ap, ap₂, subst, Bool, true,
  false, Bool-cases, inl, inr, List, [], ◌∷◌, ◌++◌, bit_and, bit_or, ◌==◌, if◌then◌else◌, u32,
  Profile, arith,
}
use smp_nostd.Base.Bits.{bit_and_bit, bit_or_high}
use smp_nostd.Base.Command.{Ends, Ends-bind, Ends-weaken, and_then, done, ◌>>◌}
use smp_nostd.Hardware.{Hardware}
use smp_nostd.LocalApic.{LocalApic, write_reg}
use smp_nostd.LocalApic.Ipi.{
  poll_icr, wait_icr_idle, send_ipi, send_init_ipi, send_init_deassert, send_startup_ipi,
}
use smp_nostd.LocalApic.Device.{IsApic, put, get, read_reg-get, write_reg-put}

module _ {Dev : Type 0} (hw : Hardware Dev) (p : Profile) (a : LocalApic)
    (fits : a.base_addr + 0x1000 ≤ 2 ^ 64) (dev : IsApic hw a) where
  -- The APIC is as in `d`, and no interrupt is pending.
  pub record Settled (d d' : Dev) : Type 0 where
    pub config : dev.config d' ≡ dev.config d
    pub sent : dev.sent d' ≡ dev.sent d
    pub idle : dev.busy d' ≡ 0

  -- The polling loop ends when it may read as often as the interrupt can stay pending.
  poll_icr-Settled :
      (rounds : ℕ) (d : Dev)
      → a.x2apic ≡ false
      → dev.busy d < rounds
      → Ends (poll_icr hw p a rounds d) (λ _ d'. Settled d d')
  unfolding poll_icr
  poll_icr-Settled zero d x lt = absurd (omega arith)
  poll_icr-Settled (suc rounds) d x lt =
      let (small, config, sent) = dev.on_read 0x300 d in
      let (clear, set) = dev.on_poll d x in
      let d1 = (get hw a 0x300 d).1 in
      let low = (get hw a 0x300 d).0 in
      let bit : bit_and low (2 ^ 12) ≡ low / 2 ^ 12 % 2 * 2 ^ 12 = bit_and_bit 12 low in
      rw (read_reg-get hw p a fits 0x300 d (omega arith))
        (elim (Bool-cases (bit_and low (2 ^ 12) == 0)) [
          | inl idle ↦
              rw idle (record { config = config; sent = sent; idle = clear (ground arith) })
          | inr pending ↦ rw pending (
              Ends-weaken (poll_icr hw p a rounds d1) (λ _ d'. Settled d1 d') (λ _ d'. Settled d d')
                (poll_icr-Settled rounds d1 x (omega (arith, set (ground arith))))
                (λ _ d' later. record {
                  config = later.config ∙ config;
                  sent = later.sent ∙ sent;
                  idle = later.idle;
                }))
        ])

  -- One interrupt went out, to `dest` with the word `flags`; no other register changed than the
  -- destination.
  pub record Sent (dest flags : ℕ) (d d' : Dev) : Type 0 where
    pub log : dev.sent d' ≡ dev.sent d ++ (dest, flags) ∷ []
    pub registers : (j : ℕ) → j ≢ 0x310 → dev.config d' j ≡ dev.config d j

  -- The APIC identifiers that the mode can address.
  abbrev pub Addressable : ℕ → Type 0
  Addressable dest = if a.x2apic then (dest < 2 ^ 32) else (dest < 2 ^ 8)

  send_ipi-x2apic :
      (rounds dest flags : ℕ) (d : Dev)
      → a.x2apic ≡ true
      → send_ipi hw p rounds a dest flags d
        ≡ done tt (put hw a 0x300 (bit_or (dest * 2 ^ 32) flags) d)
  unfolding send_ipi
  send_ipi-x2apic rounds dest flags d on = simp on refl

  send_ipi-xapic :
      (rounds dest flags : ℕ) (d : Dev)
      → a.x2apic ≡ false
      → send_ipi hw p rounds a dest flags d
        ≡ and_then
            (poll_icr hw p a rounds d)
            (λ _. write_reg hw p a 0x310 (u32 (dest * 2 ^ 24)) >> write_reg hw p a 0x300 flags)
  unfolding send_ipi wait_icr_idle
  send_ipi-xapic rounds dest flags d off = simp off refl

  -- The two writes, on an idle APIC.
  write_icr-Sent :
      (dest flags : ℕ) (d d' : Dev)
      → a.x2apic ≡ false
      → dest < 2 ^ 8
      → flags < 2 ^ 32
      → Settled d d'
      → Ends
          ((write_reg hw p a 0x310 (u32 (dest * 2 ^ 24)) >> write_reg hw p a 0x300 flags) d')
          (λ _ d''. Sent dest flags d d'')
  write_icr-Sent dest flags d d' off few small s =
      let (new, same, still) =
        dev.on_write 0x310 (u32 (dest * 2 ^ 24)) d' (simp off refl) (omega arith) in
      let d1 = put hw a 0x310 (u32 (dest * 2 ^ 24)) d' in
      let (out, kept) = dev.on_send flags d1 off (still ∙ s.idle) small in
      let target : dev.config d1 0x310 / 2 ^ 24 ≡ dest =
        ap (λ (g : ℕ → ℕ). g 0x310 / 2 ^ 24) new ∙ omega arith in
      rw
        (
          write_reg-put hw p a fits 0x310 (u32 (dest * 2 ^ 24)) d' (omega arith),
          write_reg-put hw p a fits 0x300 flags d1 (omega arith),
        )
        (record {
          log =
              out ∙ ap₂ (λ (l : List (ℕ × ℕ)) (t : ℕ). l ++ (t, flags) ∷ []) (same ∙ s.sent) target;
          registers = λ j ne.
              ap (λ (g : ℕ → ℕ). g j) (kept ∙ new)
              ∙ ground (arith, ap (λ (g : ℕ → ℕ). g j) s.config);
        })

  -- `send_ipi` returns if it may poll more often than an interrupt can stay pending, and has then sent
  -- exactly one interrupt, to the processor named and with the flags given, in either mode.
  pub send_ipi-Sent :
      (rounds dest flags : ℕ) (d : Dev)
      → dev.patience < rounds
      → Addressable dest
      → flags < 2 ^ 32
      → Ends (send_ipi hw p rounds a dest flags d) (λ _ d'. Sent dest flags d d')
  send_ipi-Sent rounds dest flags d long fit small = elim (Bool-cases a.x2apic) [
    | inl on ↦
        let wide : dest < 2 ^ 32 =
          subst (λ (b : Bool). if b then (dest < 2 ^ 32) else (dest < 2 ^ 8)) on fit in
        let joined : bit_or (dest * 2 ^ 32) flags ≡ dest * 2 ^ 32 + flags =
          bit_or_high 32 dest flags small in
        let (out, kept) = dev.on_send_x2apic (bit_or (dest * 2 ^ 32) flags) d on (omega arith) in
        rw (send_ipi-x2apic rounds dest flags d on) (record {
          log = out ∙ ap₂ (λ (t f : ℕ). dev.sent d ++ (t, f) ∷ []) (omega arith) (omega arith);
          registers = λ j ne. ap (λ (g : ℕ → ℕ). g j) kept;
        })
    | inr off ↦
        let narrow : dest < 2 ^ 8 =
          subst (λ (b : Bool). if b then (dest < 2 ^ 32) else (dest < 2 ^ 8)) off fit in
        rw (send_ipi-xapic rounds dest flags d off) (
          Ends-bind (poll_icr hw p a rounds d) _ (λ _ d'. Settled d d')
            (λ _ d'. Sent dest flags d d')
            (poll_icr-Settled rounds d off (omega (arith, dev.patient d)))
            (λ _ d' s. write_icr-Sent dest flags d d' off narrow small s))
  ]

  -- The three messages that start a processor, each one interrupt: INIT asserted and de-asserted, level
  -- triggered, and STARTUP with the page number as its vector.
  pub send_startup_ipi-Sent :
      (rounds dest page : ℕ) (d : Dev)
      → dev.patience < rounds
      → Addressable dest
      → page < 2 ^ 8
      → Ends
          (send_init_ipi hw p rounds a dest d)
          (λ _ d'. Sent dest (5 * 2 ^ 8 + 2 ^ 14 + 2 ^ 15) d d')
        × Ends
            (send_init_deassert hw p rounds a dest d)
            (λ _ d'. Sent dest (5 * 2 ^ 8 + 2 ^ 15) d d')
        × Ends
            (send_startup_ipi hw p rounds a dest page d)
            (λ _ d'. Sent dest (6 * 2 ^ 8 + page) d d')
  unfolding send_init_ipi send_init_deassert send_startup_ipi
  send_startup_ipi-Sent rounds dest page d long fit small =
      let vector : bit_or (6 * 2 ^ 8) page ≡ 6 * 2 ^ 8 + page = bit_or_high 8 6 page small in
      (
        send_ipi-Sent rounds dest (5 * 2 ^ 8 + 2 ^ 14 + 2 ^ 15) d long fit (omega arith),
        send_ipi-Sent rounds dest (5 * 2 ^ 8 + 2 ^ 15) d long fit (omega arith),
        rw vector (send_ipi-Sent rounds dest (6 * 2 ^ 8 + page) d long fit (omega arith)),
      )
