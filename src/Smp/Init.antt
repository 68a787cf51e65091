-- ===== src/Smp/Init.antt =====
-- `init` as a whole, in the release profile.
use smp_nostd.Base.{
  ℕ, ◌+◌, ◌^◌, ◌≤◌, ◌<◌, ◌≡◌, refl, sym, subst, Bool, true, false, some, List, [], length,
  if◌then◌else◌, u32, release, arith,
}
use smp_nostd.Base.Command.{⊤, Ends, Ends-bind, Ends-weaken, done}
use smp_nostd.Hardware.{Hardware}
use smp_nostd.LocalApic.Device.{IsApic}
use smp_nostd.Scheduler.{Scheduler, new as new_scheduler}
use smp_nostd.Scheduler.Contents.{Inv, held}
use smp_nostd.Scheduler.Startup.{new-Inv}
use smp_nostd.IoApic.{IoApic}
use smp_nostd.PerCpu.{register_percpu, add_entry, new as new_percpu}
use smp_nostd.Trampoline.{Memory, trampoline_phys, set_ap_data, is_ap_ready}
use smp_nostd.Smp.{MadtInfo, SmpController, num_cores}
use smp_nostd.Smp.World.{Machine, on_dev, Ends-on_dev}
use smp_nostd.Smp.Boot.{
  enabled_aps, ap_stack_size, init_bsp_apic, init_io_apics, register, boot_aps, init,
}
use smp_nostd.Smp.Table.{Bytes, enabled_aps-Bytes}
use smp_nostd.Smp.Setup.{SetUp, init_bsp_apic-SetUp, init_io_apics-length}
use smp_nostd.Trampoline.Layout.{set_ap_data-unready}
use smp_nostd.Smp.Silence.{RunsCode, RunsCode-unready}
use smp_nostd.Smp.Launch.{LaunchedBy, boot_aps-LaunchedBy}

register-done :
    {Dev : Type 0} (hw : Hardware Dev) (here ptr apic_id : ℕ) (is_bsp : Bool) (m : Machine Dev)
    → register hw release here ptr 0 apic_id is_bsp m
      ≡ done tt
          (record m { registry = add_entry m.registry here ptr (new_percpu ptr 0 apic_id is_bsp) })
unfolding register register_percpu new_percpu
register-done hw here ptr apic_id is_bsp m = refl

-- The controller `c` after `init`: as many cores as were counted, at most `most` of them new, and an
-- empty valid scheduler for them.
pub record Initialised (c : SmpController) (madt : MadtInfo) (most : ℕ) (c' : SmpController)
    : Type 0 where
  pub done_ : c'.initialized ≡ true
  pub madt_info : c'.madt_info ≡ some madt
  pub ap_count : c'.ap_count ≡ length (enabled_aps c.bsp_apic_id madt.local_apics)
  pub ioapics : length c'.ioapic_manager ≡ length c.ioapic_manager + length madt.io_apics
  pub at_least : c.total_cores ≤ num_cores c'
  pub at_most : num_cores c' ≤ c.total_cores + most
  pub scheduler : Scheduler
  pub made : c'.scheduler ≡ some scheduler
  pub valid : Inv scheduler
  pub cores : scheduler.num_cores ≡ num_cores c'
  pub empty : held scheduler.run_queues ≡ []

-- The record that `init` returns at its end.
initialised :
    (c : SmpController) (madt : MadtInfo) (manager : List IoApic) (total most : ℕ)
    → let aps = enabled_aps c.bsp_apic_id madt.local_apics in
      length aps < 2 ^ 32
      → c.total_cores ≤ total
      → total ≤ c.total_cores + most
      → total < 2 ^ 32
      → length manager ≡ length c.ioapic_manager + length madt.io_apics
      → Initialised c madt most (record c {
        ap_count = u32 (length aps);
        ioapic_manager = manager;
        total_cores = total;
        scheduler = some (new_scheduler total);
        madt_info = some madt;
        initialized = true;
      })
initialised c madt manager total most few least at_most small added =
    let (valid, cores, currents, empty, indexed) = new-Inv total small in
    record {
      done_ = refl;
      madt_info = refl;
      ap_count = omega arith;
      ioapics = added;
      at_least = least;
      at_most = at_most;
      scheduler = new_scheduler total;
      made = refl;
      valid = valid;
      cores = cores;
      empty = empty;
    }

module _ {Dev : Type 0} (hw : Hardware Dev) (rounds : ℕ) (others : Machine Dev → Machine Dev)
    (cr3 entry : ℕ) (stacks : ℕ → ℕ) (c : SmpController)
    (fits : c.local_apic.base_addr + 0x1000 ≤ 2 ^ 64) (dev : IsApic hw c.local_apic)
    (quiet : (m : Machine Dev) → dev.sent (others m).dev ≡ dev.sent m.dev) (R : Memory → Type 0)
    (keeps : (m : Machine Dev) → R m.memory → R (others m).memory)
    (sets : (stack_top cpu_index : ℕ) (memory : Memory)
      → R (set_ap_data c.trampoline cr3 stack_top entry cpu_index memory))
    (long : dev.patience < rounds) (spaced : (i : ℕ) → stacks i + ap_stack_size < 2 ^ 64) where
  -- If `R` excludes a signal, no core is new.
  abbrev pub Counts : MadtInfo → SmpController → Type 0
  Counts madt c' =
      Initialised c madt (length (enabled_aps c.bsp_apic_id madt.local_apics)) c'
      × (((memory : Memory) → R memory → is_ap_ready c.trampoline memory ≡ false)
          → Initialised c madt 0 c')

  init-Counts :
      (here ptr : ℕ) (madt : MadtInfo) (m : Machine Dev)
      → c.local_apic.x2apic ≡ false
      → Bytes madt.local_apics
      → c.total_cores + length madt.local_apics < 2 ^ 32
      → Ends
          (init hw release rounds others cr3 entry stacks here ptr c madt m)
          (λ c' _. Counts madt c')
  unfolding init
  init-Counts here ptr madt m off bytes few =
      let aps = enabled_aps c.bsp_apic_id madt.local_apics in
      let c1 = record c { ap_count = u32 (length aps) } in
      let Q = λ (c' : SmpController) (m' : Machine Dev). Counts madt c' in
      Ends-bind (on_dev (init_bsp_apic hw release c.local_apic) m) _ (λ _ _. ⊤) Q
        (Ends-on_dev (init_bsp_apic hw release c.local_apic) m
          (λ _ d'. SetUp hw release c.local_apic fits dev m.dev d') (λ _ _. ⊤)
          (init_bsp_apic-SetUp hw release c.local_apic fits dev m.dev off) (λ _ d _. tt))
        (λ _ m1 _.
          Ends-bind (on_dev (init_io_apics hw release c.ioapic_manager madt.io_apics) m1) _
            (λ l _. length l ≡ length c.ioapic_manager + length madt.io_apics) Q
            (Ends-on_dev (init_io_apics hw release c.ioapic_manager madt.io_apics) m1
              (λ l _. length l ≡ length c.ioapic_manager + length madt.io_apics) _
              (init_io_apics-length hw c.ioapic_manager madt.io_apics m1.dev) (λ l d h. h))
            (λ manager m2 added.
              let registry = add_entry m2.registry here ptr (new_percpu ptr 0 c.bsp_apic_id true) in
              let m3 : Machine Dev = record m2 { registry = registry } in
              let c2 : SmpController = record c {
                ap_count = u32 (length aps);
                ioapic_manager = manager;
              } in
              let (small, fewer) = enabled_aps-Bytes c.bsp_apic_id madt.local_apics bytes in
              rw (register-done hw here ptr c.bsp_apic_id true m2) (
                Ends-bind (boot_aps hw release rounds others cr3 entry stacks c2 aps m3) _
                  (λ c' m'.
                    LaunchedBy hw release rounds others cr3 entry stacks c2 fits dev quiet R keeps
                      sets long spaced c.total_cores aps m3 c' m')
                  Q
                  (boot_aps-LaunchedBy hw release rounds others cr3 entry stacks c2 fits dev quiet R
                    keeps sets long spaced aps m3
                    (λ j la e.
                      subst
                        (λ (b : Bool). if b then (la.apic_id < 2 ^ 32) else (la.apic_id < 2 ^ 8))
                        (sym off) (small j la e))
                    (omega (arith, fewer)))
                  (λ c' m' r.
                    let (launched, silent) = r in
                    subst
                      (λ (x : SmpController). Counts madt (record x {
                        scheduler = some (new_scheduler (num_cores x));
                        madt_info = some madt;
                        initialized = true;
                      }))
                      (sym launched.controller)
                      (
                        initialised c madt manager launched.total (length aps)
                            (omega (arith, fewer)) launched.at_least launched.at_most
                            (omega (arith, launched.at_most, fewer)) added,
                        λ s.
                            initialised c madt manager launched.total 0 (omega (arith, fewer))
                              launched.at_least (omega (arith, (silent s).0))
                              (omega (arith, launched.at_most, fewer)) added,
                      )))))

module _ {Dev : Type 0} (hw : Hardware Dev) (rounds : ℕ) (others : Machine Dev → Machine Dev)
    (cr3 entry : ℕ) (stacks : ℕ → ℕ) (c : SmpController)
    (fits : c.local_apic.base_addr + 0x1000 ≤ 2 ^ 64) (dev : IsApic hw c.local_apic) (here ptr : ℕ)
    (madt : MadtInfo) (m : Machine Dev)
    (quiet : (m : Machine Dev) → dev.sent (others m).dev ≡ dev.sent m.dev)
    (long : dev.patience < rounds) (spaced : (i : ℕ) → stacks i + ap_stack_size < 2 ^ 64)
    (off : c.local_apic.x2apic ≡ false) (bytes : Bytes madt.local_apics)
    (few : c.total_cores + length madt.local_apics < 2 ^ 32) where
  -- In the release profile and in xAPIC mode, with identifiers of a byte each, stacks that end below the
  -- top of memory, fewer than 2^32 cores, more rounds of polling than an interrupt can stay pending for,
  -- and other processors that leave the log of this APIC alone: `init` returns, whatever the I/O APICs
  -- do. The controller is initialised, with one I/O APIC more for each in the table, no core less than
  -- before and at most one more for each enabled processor of the table, and an empty valid scheduler for
  -- as many cores.
  pub init-Initialised :
      Ends
        (init hw release rounds others cr3 entry stacks here ptr c madt m)
        (λ c' _. Initialised c madt (length (enabled_aps c.bsp_apic_id madt.local_apics)) c')
  init-Initialised =
      let Any = λ (memory : Memory). ⊤ in
      Ends-weaken (init hw release rounds others cr3 entry stacks here ptr c madt m)
        (λ c' _.
          Counts hw rounds others cr3 entry stacks c fits dev quiet Any (λ m h. h)
            (λ s i memory. tt) long spaced madt c')
        (λ c' _. Initialised c madt (length (enabled_aps c.bsp_apic_id madt.local_apics)) c')
        (init-Counts hw rounds others cr3 entry stacks c fits dev quiet Any (λ m h. h)
          (λ s i memory. tt) long spaced here ptr madt m off bytes few)
        (λ c' _ r. r.0)

  -- In the release profile and in xAPIC mode, with identifiers of a byte each, stacks that end below the
  -- top of memory, fewer than 2^32 cores, more rounds of polling than an interrupt can stay pending for,
  -- the trampoline at its identity-mapped page, and other processors that leave the log of this APIC
  -- alone and signal as the trampoline's code does, or not at all: `init` returns, and the initialised
  -- controller has as many cores as before, and an empty valid scheduler for those.
  pub init-no_new_core :
      c.trampoline ≡ record { trampoline_vaddr = trampoline_phys }
      → ((m : Machine Dev) → RunsCode c.trampoline m (others m))
      → Ends
          (init hw release rounds others cr3 entry stacks here ptr c madt m)
          (λ c' _. Initialised c madt 0 c')
  init-no_new_core placed code =
      let Unready = λ (memory : Memory). is_ap_ready c.trampoline memory ≡ false in
      let keeps = λ (m : Machine Dev). RunsCode-unready c.trampoline m (others m) placed (code m) in
      let sets = λ (stack_top cpu_index : ℕ) (memory : Memory).
        set_ap_data-unready c.trampoline cr3 stack_top entry cpu_index memory in
      Ends-weaken (init hw release rounds others cr3 entry stacks here ptr c madt m)
        (λ c' _.
          Counts hw rounds others cr3 entry stacks c fits dev quiet Unready keeps sets long spaced
            madt c')
        (λ c' _. Initialised c madt 0 c')
        (init-Counts hw rounds others cr3 entry stacks c fits dev quiet Unready keeps sets long
          spaced here ptr madt m off bytes few)
        (λ c' _ r. r.1 (λ memory h. h))
