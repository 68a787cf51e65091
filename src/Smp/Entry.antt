-- ===== src/Smp/Entry.antt =====
-- `ap_entry` up to its idle loop: what a processor has done when it waits for work.
use smp_nostd.Base.{
  ℕ, ◌+◌, ◌%◌, ◌^◌, ◌≤◌, ◌<◌, ◌≡◌, ◌≢◌, ◌∙◌, refl, ap, false, some, u32, Profile, arith,
}
use smp_nostd.Base.Command.{⊤, Ends}
use smp_nostd.Hardware.{Hardware}
use smp_nostd.LocalApic.{LocalApic, id, enable, write_tpr, new as new_apic}
use smp_nostd.LocalApic.Device.{IsApic, Tracks, Tracks-now, written, reads, last_write, then_read}
use smp_nostd.LocalApic.Control.{Enabled, enable-Enabled}
use smp_nostd.PerCpu.{
  Registry, add_entry, register_percpu, get_cpu, get_current_cpu, cpu_count, new as new_percpu,
}
use smp_nostd.PerCpu.Lookup.{IsNew, register-get}
use smp_nostd.Smp.World.{Machine, then_dev}
use smp_nostd.Smp.Boot.{ap_entry, register}

-- The APIC at its usual address.
abbrev pub own_apic : LocalApic
own_apic = record { base_addr = 0xFEE00000; x2apic = false }

-- A new structure of a processor other than the first, in the table.
registered :
    (r : Registry) (here ptr cpu_index apic_id : ℕ)
    → let c = new_percpu ptr cpu_index apic_id false in
      IsNew r ptr c
      → (register_percpu r here ptr c ≡ some (add_entry r here ptr c))
        × (get_cpu (add_entry r here ptr c) cpu_index ≡ some c)
        × (get_current_cpu (add_entry r here ptr c) here ≡ some c)
        × ((i : ℕ) → i ≢ cpu_index → get_cpu (add_entry r here ptr c) i ≡ get_cpu r i)
        × (cpu_count (add_entry r here ptr c) ≡ cpu_count r + 1)
unfolding new_percpu
registered r here ptr cpu_index apic_id n =
    register-get r here ptr (new_percpu ptr cpu_index apic_id false) n

module _ {Dev : Type 0} (hw : Hardware Dev) (p : Profile) (dev : IsApic hw own_apic) where
  own-fits : own_apic.base_addr + 0x1000 ≤ 2 ^ 64
  own-fits = omega arith

  -- A processor that is ready for work.
  pub record Entered (here ptr cpu_index : ℕ) (m m' : Machine Dev) : Type 0 where
    pub apic_id : ℕ
    pub listed : get_cpu m'.registry cpu_index ≡ some (new_percpu ptr cpu_index apic_id false)
    pub current : get_current_cpu m'.registry here ≡ some (new_percpu ptr cpu_index apic_id false)
    pub others : (i : ℕ) → i ≢ cpu_index → get_cpu m'.registry i ≡ get_cpu m.registry i
    pub counted : cpu_count m'.registry ≡ cpu_count m.registry + 1
    pub booted : m'.aps_booted ≡ u32 (m.aps_booted + 1)
    pub enabled : dev.config m'.dev 0xF0 % 2 ^ 9 ≡ 0x1FF
    pub priority : dev.config m'.dev 0x80 ≡ 0
    pub silent : dev.sent m'.dev ≡ dev.sent m.dev

  -- The identifier is read, and nothing is set or sent.
  id-unchanged :
      (d : Dev)
      → Ends
          (id hw p own_apic d)
          (λ _ d'. (dev.config d' ≡ dev.config d) × (dev.sent d' ≡ dev.sent d))
  unfolding id
  id-unchanged d =
      then_read hw p own_apic own-fits dev
        (λ _ d'. (dev.config d' ≡ dev.config d) × (dev.sent d' ≡ dev.sent d)) 0x20 _ (omega arith)
        (Tracks-now hw p own_apic own-fits dev d) (λ d' small t. (t.registers, t.ipis))

  tpr-written :
      (d : Dev)
      → Ends (write_tpr hw p own_apic 0 d) (λ _ d'.
        Tracks hw p own_apic own-fits dev d' (written (dev.config d) 0x80 0) (dev.sent d))
  unfolding write_tpr
  tpr-written d =
      last_write hw p own_apic own-fits dev
        (λ _ d'. Tracks hw p own_apic own-fits dev d' (written (dev.config d) 0x80 0) (dev.sent d))
        0x80 0 (omega arith) refl (omega arith) (Tracks-now hw p own_apic own-fits dev d)
        (λ d' t. t)

  -- `ap_entry` reaches its idle loop, on a processor with a 32-bit index whose structure is new to the
  -- table: the structure
  -- is then found by its index and, on this processor, as the current one; the entries of the other
  -- processors are as before, the counters have grown by one, the APIC is enabled and accepts all
  -- priorities, and it has sent nothing.
  pub ap_entry-Entered :
      (here ptr cpu_index : ℕ) (m : Machine Dev)
      → cpu_index < 2 ^ 32
      → ((apic_id : ℕ) → IsNew m.registry ptr (new_percpu ptr cpu_index apic_id false))
      → Ends (ap_entry hw p here ptr cpu_index m) (λ _ m'. Entered here ptr cpu_index m m')
  unfolding ap_entry register new_apic
  ap_entry-Entered here ptr cpu_index m narrow new =
      let Q = λ (_ : ⊤) (m' : Machine Dev). Entered here ptr cpu_index m m' in
      then_dev Q (id hw p own_apic) _ m
        (λ _ d. (dev.config d ≡ dev.config m.dev) × (dev.sent d ≡ dev.sent m.dev))
        (id-unchanged m.dev)
        (λ apic_id d1 (same, quiet).
          then_dev Q (enable hw p own_apic) _ (record m { dev = d1 })
            (λ _ d. Enabled hw p own_apic own-fits dev d1 d)
            (enable-Enabled hw p own_apic own-fits dev d1).0
            (λ _ d2 (vector, focus, only).
              then_dev Q (write_tpr hw p own_apic 0) _ (record m { dev = d2 })
                (λ _ d.
                  Tracks hw p own_apic own-fits dev d (written (dev.config d2) 0x80 0)
                    (dev.sent d2))
                (tpr-written d2)
                (λ _ d3 t.
                  let (done_, listed, current, others, counted) =
                    registered m.registry here ptr cpu_index apic_id (new apic_id) in
                  let index : u32 cpu_index ≡ cpu_index = omega arith in
                  rw (index, done_)
                    (record {
                      apic_id = apic_id;
                      listed = listed;
                      current = current;
                      others = others;
                      counted = counted;
                      booted = refl;
                      enabled =
                          ap (λ (w : ℕ). w % 2 ^ 9) (reads hw p own_apic own-fits dev t 0xF0)
                          ∙ vector;
                      priority = reads hw p own_apic own-fits dev t 0x80;
                      silent = t.ipis ∙ only.ipis ∙ quiet;
                    }))))
