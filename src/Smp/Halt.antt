-- ===== src/Smp/Halt.antt =====
-- `halt_aps`: whom it tells to halt, and how.
use mathlib.Core.List.{append_assoc, append-nil}
use smp_nostd.Base.{
  ℕ, zero, suc, ◌+◌, ◌-◌, ◌^◌, ◌≤◌, ◌<◌, ◌≡◌, ◌∙◌, refl, sym, ap, subst, true, Option-cases, inl,
  inr, some, List, [], ◌∷◌, ◌++◌, map, Profile, arith,
}
use smp_nostd.Base.Command.{⊤, Ends, Ends-bind, Ends-weaken}
use smp_nostd.Hardware.{Hardware}
use smp_nostd.LocalApic.Device.{IsApic}
use smp_nostd.LocalApic.Sending.{Addressable}
use smp_nostd.PerCpu.{PerCpu, get_cpu}
use smp_nostd.PerCpu.Lookup.{present}
use smp_nostd.Smp.{SmpController, ipi_send, halt_loop, halt_aps, num_cores}
use smp_nostd.Smp.World.{Machine}
use smp_nostd.Smp.Calls.{Signalled, ipi_send-Signalled, ipi_send-none}

module _ {Dev : Type 0} (hw : Hardware Dev) (p : Profile) (rounds : ℕ) (c : SmpController)
    (fits : c.local_apic.base_addr + 0x1000 ≤ 2 ^ 64) (dev : IsApic hw c.local_apic) where
  -- The message of `halt_aps` to a processor.
  abbrev pub halt_message : PerCpu → ℕ × ℕ
  halt_message cpu = (cpu.apic_id, 2)

  -- The messages have gone out after those of `m`, and only the devices have changed.
  pub record Broadcast (messages : List (ℕ × ℕ)) (m m' : Machine Dev) : Type 0 where
    pub log : dev.sent m'.dev ≡ dev.sent m.dev ++ messages
    pub machine : m' ≡ record m { dev = m'.dev }

  halt_loop-Broadcast :
      (n i : ℕ) (m : Machine Dev)
      → dev.patience < rounds
      → ((j : ℕ) (cpu : PerCpu)
          → get_cpu m.registry j ≡ some cpu
          → Addressable hw p c.local_apic fits dev cpu.apic_id)
      → Ends
          (halt_loop hw p rounds c n i m)
          (λ _ m'. Broadcast (map halt_message (present m.registry n i)) m m')
  unfolding halt_loop present
  halt_loop-Broadcast zero i m long fit = record {
    log = sym (append-nil (dev.sent m.dev));
    machine = refl;
  }
  halt_loop-Broadcast (suc n) i m long fit = elim (Option-cases (get_cpu m.registry i)) [
    | inl e ↦
        rw (present, e, ipi_send-none hw p rounds c fits dev m i 2 e)
          (halt_loop-Broadcast n (i + 1) m long fit)
    | inr (cpu, e) ↦
        let all = λ (_ : ⊤) (m' : Machine Dev).
          Broadcast (halt_message cpu ∷ map halt_message (present m.registry n (i + 1))) m m' in
        rw (present, e)
          (Ends-bind (ipi_send hw p rounds c i 2 m) _
            (λ _ m1. Signalled hw p rounds c fits dev cpu.apic_id 2 m m1) all
            (ipi_send-Signalled hw p rounds c fits dev m i 2 cpu long e (fit i cpu e) (omega arith))
            (λ _ m1 sent.
              let m2 = record m { dev = m1.dev } in
              subst (λ (x : Machine Dev). Ends (halt_loop hw p rounds c n (i + 1) x) all)
                (sym sent.machine)
                (Ends-weaken (halt_loop hw p rounds c n (i + 1) m2)
                  (λ _ m'. Broadcast (map halt_message (present m.registry n (i + 1))) m2 m') all
                  (halt_loop-Broadcast n (i + 1) m2 long fit)
                  (λ _ m' rest. record {
                    log =
                        rest.log
                        ∙ ap
                            (λ (l : List (ℕ × ℕ)).
                              l ++ map halt_message (present m.registry n (i + 1)))
                            sent.interrupt.log
                        ∙ append_assoc (dev.sent m.dev) (halt_message cpu ∷ []) _;
                    machine = rest.machine;
                  }))))
  ]

  -- `halt_aps` returns where every registered processor can be addressed and there are more rounds of
  -- polling than an interrupt can stay pending for: it sets the flag and sends, in the order of the
  -- indices, one fixed interrupt with vector 2 (not a non-maskable one) to each registered processor whose
  -- index is above 0 and below the number of cores, and to no other.
  pub halt_aps-Broadcast :
      (m : Machine Dev)
      → dev.patience < rounds
      → ((j : ℕ) (cpu : PerCpu)
          → get_cpu m.registry j ≡ some cpu
          → Addressable hw p c.local_apic fits dev cpu.apic_id)
      → Ends (halt_aps hw p rounds c m) (λ _ m'.
        Broadcast
          (map halt_message (present m.registry (num_cores c - 1) 1))
          (record m { ap_halt = true })
          m')
  unfolding halt_aps
  halt_aps-Broadcast m long fit =
      halt_loop-Broadcast (num_cores c - 1) 1 (record m { ap_halt = true }) long fit
