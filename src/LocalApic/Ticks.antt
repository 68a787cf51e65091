-- ===== src/LocalApic/Ticks.antt =====
-- The timer: how it is programmed, stopped and calibrated.
use smp_nostd.Base.{
  ℕ, ◌+◌, ◌-◌, ◌*◌, ◌/◌, ◌^◌, ◌≤◌, ◌<◌, ◌≡◌, ◌≢◌, ◌∙◌, refl, ap, false, bit_or, ◌==◌, u32, u32_max,
  Profile, arith,
}
use native.Mathlib.Nat.{div-mul-le_self}
use smp_nostd.Base.Bits.{bit_or_high}
use smp_nostd.Base.Command.{Cmd, ⊤, Ends, done, panicked}
use smp_nostd.Hardware.{Hardware}
use smp_nostd.LocalApic.{LocalApic}
use smp_nostd.LocalApic.Timer.{setup_timer, stop_timer, ticks, calibrate_timer}
use smp_nostd.LocalApic.Device.{
  IsApic, Tracks, Tracks-now, Tracks-put, reads, written, put, get, read_reg-get, write_reg-put,
  then_write, last_write,
}

module _ {Dev : Type 0} (hw : Hardware Dev) (p : Profile) (a : LocalApic)
    (fits : a.base_addr + 0x1000 ≤ 2 ^ 64) (dev : IsApic hw a) where
  -- The timer's registers, and that nothing else has changed or been sent.
  pub record TimerSet (lvt initial : ℕ) (divide : ℕ → ℕ) (d d' : Dev) : Type 0 where
    pub mode : dev.config d' 0x320 ≡ lvt
    pub count : dev.config d' 0x380 ≡ initial
    pub divider : dev.config d' 0x3E0 ≡ divide (dev.config d 0x3E0)
    pub others : (j : ℕ) → j ≢ 0x320 → j ≢ 0x380 → j ≢ 0x3E0 → dev.config d' j ≡ dev.config d j
    pub ipis : dev.sent d' ≡ dev.sent d

  -- `setup_timer` with a mode in bits 17 and 18 and an 8-bit vector sets the divider, the unmasked mode
  -- and vector, and the count; `stop_timer` masks the timer and clears the count; no other register
  -- changes and nothing is sent.
  pub setup_timer-TimerSet :
      (vector mode divide initial : ℕ) (d : Dev)
      → vector < 2 ^ 8
      → mode < 4
      → divide < 2 ^ 32
      → initial < 2 ^ 32
      → Ends
          (setup_timer hw p a vector (mode * 2 ^ 17) divide initial d)
          (λ _ d'. TimerSet (mode * 2 ^ 17 + vector) initial (λ _. divide) d d')
        × Ends (stop_timer hw p a d) (λ _ d'. TimerSet (2 ^ 16) 0 (λ w. w) d d')
  unfolding setup_timer stop_timer
  setup_timer-TimerSet vector mode divide initial d small modes div count =
      let word : bit_or (mode * 2 ^ 17) vector ≡ mode * 2 ^ 17 + vector =
        bit_or_high 17 mode vector (omega arith) in
      let Q = λ (_ : ⊤) (d' : Dev). TimerSet (mode * 2 ^ 17 + vector) initial (λ _. divide) d d' in
      (
        rw word (
            then_write hw p a fits dev Q 0x3E0 divide _ (omega arith) refl div now (λ d1 t1.
              then_write hw p a fits dev Q 0x320 (mode * 2 ^ 17 + vector) _ (omega arith) refl
                (omega arith) t1
                (λ d2 t2.
                  last_write hw p a fits dev Q 0x380 initial (omega arith) refl count t2 (λ d3 t3.
                    record {
                      mode = reads hw p a fits dev t3 0x320;
                      count = reads hw p a fits dev t3 0x380;
                      divider = reads hw p a fits dev t3 0x3E0;
                      others = λ j n1 n2 n3. reads hw p a fits dev t3 j ∙ ground arith;
                      ipis = t3.ipis;
                    })))),
        then_write hw p a fits dev (λ _ d'. TimerSet (2 ^ 16) 0 (λ w. w) d d') 0x320 (2 ^ 16) _
            (omega arith) refl (omega arith) now
            (λ d1 t1.
              last_write hw p a fits dev (λ _ d'. TimerSet (2 ^ 16) 0 (λ w. w) d d') 0x380 0
                (omega arith) refl (omega arith) t1
                (λ d2 t2. record {
                  mode = reads hw p a fits dev t2 0x320;
                  count = reads hw p a fits dev t2 0x380;
                  divider = reads hw p a fits dev t2 0x3E0;
                  others = λ j n1 n2 n3. reads hw p a fits dev t2 j ∙ ground arith;
                  ipis = t2.ipis;
                })),
      )
    where
      now : Tracks hw p a fits dev d (dev.config d) (dev.sent d)
      now = Tracks-now hw p a fits dev d

  -- The state in which the caller's delay starts: divided by 16, masked, counting from the top.
  abbrev pub counting : Dev → Dev
  counting d = put hw a 0x380 0xFFFFFFFF (put hw a 0x320 (2 ^ 16) (put hw a 0x3E0 3 d))

  module _ (delay_fn : ℕ → Cmd Dev ⊤) (wait : Dev → Dev) (delay_ms : ℕ)
      (waits : (d : Dev) → delay_fn delay_ms d ≡ done tt (wait d)) where
    abbrev delayed : Dev → Dev
    delayed d = wait (counting d)

    abbrev stopped : Dev → Dev
    stopped d = put hw a 0x380 0 (get hw a 0x390 (delayed d)).1

    calibrate_timer-runs :
        (d : Dev)
        → calibrate_timer hw p a delay_ms delay_fn d
          ≡ ticks hw p (get hw a 0x390 (delayed d)).0 delay_ms (stopped d)
    unfolding calibrate_timer
    calibrate_timer-runs d =
        rw
          (
            write_reg-put hw p a fits 0x3E0 3 d (omega arith),
            write_reg-put hw p a fits 0x320 (2 ^ 16) (put hw a 0x3E0 3 d) (omega arith),
            write_reg-put hw p a fits 0x380 0xFFFFFFFF
                (put hw a 0x320 (2 ^ 16) (put hw a 0x3E0 3 d)) (omega arith),
            waits (counting d),
            read_reg-get hw p a fits 0x390 (delayed d) (omega arith),
            write_reg-put hw p a fits 0x380 0 (get hw a 0x390 (delayed d)).1 (omega arith),
          )
          refl

    -- With a delay that returns and leaves the APIC's registers and log alone, `calibrate_timer` over a
    -- positive number of milliseconds returns the ticks that the counter has fallen in it, per
    -- millisecond and rounded down, and leaves the timer stopped, masked and divided by 16.
    pub calibrate_timer-ticks :
        (d : Dev)
        → 0 < delay_ms
        → ((d' : Dev) → (dev.config (wait d') ≡ dev.config d') × (dev.sent (wait d') ≡ dev.sent d'))
        → let remaining = (get hw a 0x390 (wait (counting d))).0 in
          Ends (calibrate_timer hw p a delay_ms delay_fn d) (λ t d'.
            (t ≡ (2 ^ 32 - 1 - remaining) / delay_ms)
            × (t * delay_ms + remaining < 2 ^ 32)
            × TimerSet (2 ^ 16) 0 (λ _. 3) d d')
    unfolding ticks
    calibrate_timer-ticks d pos keeps =
        rw (calibrate_timer-runs d, nonzero)
          (
            quotient,
            product,
            record {
              mode = reads hw p a fits dev end 0x320;
              count = reads hw p a fits dev end 0x380;
              divider = reads hw p a fits dev end 0x3E0;
              others = λ j n1 n2 n3. reads hw p a fits dev end j ∙ ground arith;
              ipis = end.ipis;
            },
          )
      where
        counted : ℕ → ℕ
        counted = written (written (written (dev.config d) 0x3E0 3) 0x320 (2 ^ 16)) 0x380 0xFFFFFFFF

        remaining : ℕ
        remaining = (get hw a 0x390 (delayed d)).0

        nonzero : (delay_ms == 0) ≡ false
        nonzero = ground arith

        small : remaining < 2 ^ 32
        small = (dev.on_read 0x390 (delayed d)).0

        elapsed : u32 (u32_max + 2 ^ 32 - remaining) ≡ 2 ^ 32 - 1 - remaining
        elapsed = omega (arith, small)

        quotient :
            u32 (u32_max + 2 ^ 32 - remaining) / delay_ms ≡ (2 ^ 32 - 1 - remaining) / delay_ms
        quotient = ap (λ (e : ℕ). e / delay_ms) elapsed

        product : u32 (u32_max + 2 ^ 32 - remaining) / delay_ms * delay_ms + remaining < 2 ^ 32
        product =
            omega
              (arith, small, elapsed, div-mul-le_self (u32 (u32_max + 2 ^ 32 - remaining)) delay_ms)

        set : Tracks hw p a fits dev (counting d) counted (dev.sent d)
        set = Tracks-put hw p a fits dev 0x380 0xFFFFFFFF _ refl (omega arith) (
            Tracks-put hw p a fits dev 0x320 (2 ^ 16) _ refl (omega arith) (
              Tracks-put hw p a fits dev 0x3E0 3 d refl (omega arith)
                (Tracks-now hw p a fits dev d)))

        read : Tracks hw p a fits dev (get hw a 0x390 (delayed d)).1 counted (dev.sent d)
        read = record {
          registers = (dev.on_read 0x390 (delayed d)).1 ∙ (keeps (counting d)).0 ∙ set.registers;
          ipis = (dev.on_read 0x390 (delayed d)).2 ∙ (keeps (counting d)).1 ∙ set.ipis;
        }

        end : Tracks hw p a fits dev (stopped d) (written counted 0x380 0) (dev.sent d)
        end = Tracks-put hw p a fits dev 0x380 0 _ refl (omega arith) read

    -- Over zero milliseconds it panics, on the division after the delay.
    pub calibrate_timer-panics :
        (d : Dev) → delay_ms ≡ 0 → calibrate_timer hw p a delay_ms delay_fn d ≡ panicked
    unfolding ticks
    calibrate_timer-panics d z = calibrate_timer-runs d ∙ simp z refl
