-- ===== src/Smp/Start.antt =====
-- The boot of the application processors: what goes out for each, and what is counted. The other
-- processors may do anything between two steps that keeps `R` of the memory and leaves alone what the
-- local APIC of this processor has sent.
use mathlib.Core.List.{append-nil}
use smp_nostd.Base.{
  ℕ, zero, suc, ◌+◌, ◌^◌, ◌≤◌, ◌<◌, ◌≡◌, ◌∙◌, ◌⊎◌, inl, inr, refl, sym, ap, Bool, true, false, not,
  Bool-cases, List, [], ◌∷◌, ◌++◌, if◌then◌else◌, u32, Profile, add_word_fits, arith,
}
use smp_nostd.Base.Command.{Cmd, ⊤, Ends, Ends-bind, and_then}
use smp_nostd.Hardware.{Hardware}
use smp_nostd.LocalApic.Ipi.{send_init_ipi, send_startup_ipi}
use smp_nostd.LocalApic.Device.{IsApic}
use smp_nostd.LocalApic.Sending.{Addressable, Sent, send_startup_ipi-Sent}
use smp_nostd.Task.{align_stack}
use smp_nostd.Trampoline.{Memory, trampoline_page, set_ap_data, is_ap_ready}
use smp_nostd.Smp.{MadtLocalApic, SmpController}
use smp_nostd.Smp.World.{Machine, on_dev, Ends-on_dev, turns, spin_delay, wait_ready}
use smp_nostd.Smp.Boot.{ap_stack_size, second_startup, boot_ap}

-- INIT and STARTUP for the page 8, and the second STARTUP.
abbrev pub startup_messages : (apic_id : ℕ) → (second : Bool) → List (ℕ × ℕ)
startup_messages apic_id second =
    (apic_id, 0xC500) ∷ (apic_id, 0x608) ∷ (if second then (apic_id, 0x608) ∷ [] else [])

abbrev pub counted : SmpController → (total_cores : ℕ) → SmpController
counted c n = record c { total_cores = n }

join_messages :
    (l : List (ℕ × ℕ)) (a b : ℕ × ℕ) (r : List (ℕ × ℕ))
    → ((l ++ a ∷ []) ++ b ∷ []) ++ r ≡ l ++ a ∷ b ∷ r
join_messages [] a b r = refl
join_messages (x ∷ l) a b r = ap (λ (t : List (ℕ × ℕ)). x ∷ t) (join_messages l a b r)

either :
    {A X : Type 0} (b : Bool) (x y : A)
    → (b ≡ true → X)
    → ((if b then y else x) ≡ x) ⊎ (X × ((if b then y else x) ≡ y))
either true x y h = inr (h refl, refl)
either false x y h = inl refl

module _ {Dev : Type 0} (hw : Hardware Dev) (p : Profile) (rounds : ℕ)
    (others : Machine Dev → Machine Dev) (cr3 entry : ℕ) (stacks : ℕ → ℕ) (c : SmpController)
    (fits : c.local_apic.base_addr + 0x1000 ≤ 2 ^ 64) (dev : IsApic hw c.local_apic)
    (quiet : (m : Machine Dev) → dev.sent (others m).dev ≡ dev.sent m.dev) (R : Memory → Type 0)
    (keeps : (m : Machine Dev) → R m.memory → R (others m).memory)
    (sets : (stack_top cpu_index : ℕ) (memory : Memory)
      → R (set_ap_data c.trampoline cr3 stack_top entry cpu_index memory)) where
  record Phase (l : List (ℕ × ℕ)) (m : Machine Dev) : Type 0 where
    log : dev.sent m.dev ≡ l
    kept : R m.memory

  turns-Phase :
      (n : ℕ) (m : Machine Dev) (l : List (ℕ × ℕ)) → Phase l m → Phase l (turns others n m)
  unfolding turns
  turns-Phase zero m l h = h
  turns-Phase (suc n) m l h =
      turns-Phase n (others m) l (record { log = quiet m ∙ h.log; kept = keeps m h.kept })

  spin_delay-Phase :
      (n : ℕ) (m : Machine Dev) (l : List (ℕ × ℕ))
      → Phase l m
      → Ends (spin_delay others n m) (λ _ m'. Phase l m')
  unfolding spin_delay
  spin_delay-Phase n m l h = turns-Phase n m l h

  then_delay :
      {B : Type 0} (Q : B → Machine Dev → Type 0) (n : ℕ) (f : ⊤ → Cmd (Machine Dev) B)
      {m : Machine Dev} {l : List (ℕ × ℕ)}
      → Phase l m
      → ((m' : Machine Dev) → Phase l m' → Ends (f tt m') Q)
      → Ends (and_then (spin_delay others n m) f) Q
  then_delay Q n f {m} {l} h k =
      Ends-bind (spin_delay others n m) f (λ _ m'. Phase l m') Q (spin_delay-Phase n m l h)
        (λ _ m' h'. k m' h')

  -- An interrupt that goes out, and what follows it.
  then_send :
      {B : Type 0} (Q : B → Machine Dev → Type 0) (send : Cmd Dev ⊤) (apic_id flags : ℕ)
      (f : ⊤ → Cmd (Machine Dev) B) {m : Machine Dev} {l : List (ℕ × ℕ)}
      → Ends (send m.dev) (λ _ d. Sent hw p c.local_apic fits dev apic_id flags m.dev d)
      → Phase l m
      → ((m' : Machine Dev) → Phase (l ++ (apic_id, flags) ∷ []) m' → Ends (f tt m') Q)
      → Ends (and_then (on_dev send m) f) Q
  then_send Q send apic_id flags f {m} {l} s h k =
      Ends-bind (on_dev send m) f (λ _ m'. Phase (l ++ (apic_id, flags) ∷ []) m') Q
        (Ends-on_dev send m (λ _ d. Sent hw p c.local_apic fits dev apic_id flags m.dev d)
          (λ _ m'. Phase (l ++ (apic_id, flags) ∷ []) m') s
          (λ _ d sent. record {
            log = sent.log ∙ ap (λ (w : List (ℕ × ℕ)). w ++ (apic_id, flags) ∷ []) h.log;
            kept = h.kept;
          }))
        (λ _ m' h'. k m' h')

  -- The wait ends, and when it is true, the processor has signalled.
  record Awaited (l : List (ℕ × ℕ)) (b : Bool) (m' : Machine Dev) : Type 0 where
    phase : Phase l m'
    signalled : b ≡ true → is_ap_ready c.trampoline m'.memory ≡ true

  wait_ready-Awaited :
      (n : ℕ) (m : Machine Dev) (l : List (ℕ × ℕ))
      → Phase l m
      → Ends (wait_ready others c.trampoline n m) (λ b m'. Awaited l b m')
  unfolding wait_ready
  wait_ready-Awaited zero m l h = record { phase = h; signalled = λ e. absurd (ground arith) }
  wait_ready-Awaited (suc n) m l h = elim (Bool-cases (is_ap_ready c.trampoline m.memory)) [
    | inl ready ↦ rw ready (record { phase = h; signalled = λ _. ready })
    | inr busy ↦ rw busy (
        wait_ready-Awaited n (others m) l (record { log = quiet m ∙ h.log; kept = keeps m h.kept }))
  ]

  -- What the boot of one processor has sent and counted; `seen` is the memory when it was first looked at.
  pub record Booted (n apic_id : ℕ) (m : Machine Dev) (c' : SmpController) (m' : Machine Dev)
      : Type 0 where
    pub seen : Memory
    pub seen_kept : R seen
    pub log :
        dev.sent m'.dev
        ≡ dev.sent m.dev ++ startup_messages apic_id (not (is_ap_ready c.trampoline seen))
    pub kept : R m'.memory
    pub total :
        (c' ≡ counted c n)
        ⊎ ((is_ap_ready c.trampoline m'.memory ≡ true) × (c' ≡ counted c (u32 (n + 1))))

  second_startup-Phase :
      (n apic_id : ℕ) (b : Bool) (m : Machine Dev) (l : List (ℕ × ℕ))
      → dev.patience < rounds
      → Addressable hw p c.local_apic fits dev apic_id
      → Phase l m
      → Ends
          (second_startup hw p rounds others cr3 entry stacks (counted c n) apic_id b m)
          (λ _ m'. Phase (l ++ (if not b then (apic_id, 0x608) ∷ [] else [])) m')
  unfolding second_startup
  second_startup-Phase n apic_id true m l long fit h = record {
    log = h.log ∙ sym (append-nil l);
    kept = h.kept;
  }
  second_startup-Phase n apic_id false m l long fit h =
      then_send (λ _ m'. Phase (l ++ (apic_id, 0x608) ∷ []) m')
        (send_startup_ipi hw p rounds c.local_apic apic_id trampoline_page) apic_id 0x608 _
        (send_startup_ipi-Sent hw p c.local_apic fits dev rounds apic_id trampoline_page m.dev long
          fit (omega arith)).2
        h (λ m1 h1. spin_delay-Phase 200000 m1 (l ++ (apic_id, 0x608) ∷ []) h1)

  -- The body of the loop returns for a processor that can be addressed and a stack below the top of
  -- memory, with what `Booted` says.
  pub boot_ap-Booted :
      (n i : ℕ) (ap : MadtLocalApic) (m : Machine Dev)
      → dev.patience < rounds
      → Addressable hw p c.local_apic fits dev ap.apic_id
      → stacks i + ap_stack_size < 2 ^ 64
      → Ends
          (boot_ap hw p rounds others cr3 entry stacks (counted c n) i ap m)
          (λ c' m'. Booted n ap.apic_id m c' m')
  unfolding boot_ap
  boot_ap-Booted n i ap m long fit stack =
      let id = ap.apic_id in
      let sent = dev.sent m.dev in
      let Q = λ (c' : SmpController) (m' : Machine Dev). Booted n id m c' m' in
      let start : Machine Dev = record m {
        memory =
            set_ap_data c.trampoline cr3 (align_stack (stacks i + ap_stack_size)) entry
              (u32 (i + 1)) m.memory;
      } in
      let ipis = λ (d : Dev).
        send_startup_ipi-Sent hw p c.local_apic fits dev rounds id trampoline_page d long fit
          (omega arith) in
      rw (add_word_fits p 64 (stacks i) ap_stack_size stack) (
        then_send Q (send_init_ipi hw p rounds c.local_apic id) id 0xC500 _ (ipis start.dev).0
          (record { log = refl; kept = sets _ _ m.memory })
          (λ m1 h1. then_delay Q 10000000 _ h1 (λ m2 h2.
            then_send Q (send_startup_ipi hw p rounds c.local_apic id trampoline_page) id 0x608 _
              (ipis m2.dev).2 h2
              (λ m3 h3. then_delay Q 200000 _ h3 (λ m4 h4.
                let second = not (is_ap_ready c.trampoline m4.memory) in
                let all =
                  ((sent ++ (id, 0xC500) ∷ []) ++ (id, 0x608) ∷ [])
                  ++ (if second then (id, 0x608) ∷ [] else []) in
                Ends-bind
                  (second_startup hw p rounds others cr3 entry stacks (counted c n) id
                    (is_ap_ready c.trampoline m4.memory) m4)
                  _ (λ _ m5. Phase all m5) Q
                  (second_startup-Phase n id (is_ap_ready c.trampoline m4.memory) m4 _ long fit h4)
                  (λ _ m5 h5.
                    Ends-bind (wait_ready others c.trampoline 100000000 m5) _
                      (λ b m6. Awaited all b m6) Q (wait_ready-Awaited 100000000 m5 all h5)
                      (λ b m6 h6. record {
                        seen = m4.memory;
                        seen_kept = h4.kept;
                        log =
                            h6.phase.log
                            ∙ join_messages sent (id, 0xC500) (id, 0x608)
                                (if second then (id, 0x608) ∷ [] else []);
                        kept = h6.phase.kept;
                        total = either b (counted c n) (counted c (u32 (n + 1))) h6.signalled;
                      })))))))
