-- ===== src/Smp/Tests.antt =====
-- The controller's theorems on a machine of two processors with the small APIC.
use smp_nostd.Base.{
  ℕ, zero, suc, ◌^◌, ◌<◌, ◌≡◌, refl, ap, true, false, ◌==◌, if◌then◌else◌, none, some, List, [],
  ◌∷◌, ◌++◌, map, length, get_elem?, release, inr, arith,
}
use smp_nostd.Base.Command.{Ends}
use smp_nostd.LocalApic.Small.{Apic, apic_hw, apic_dev, apic, driver, driver-fits}
use smp_nostd.PerCpu.{PerCpu, Registry, get_cpu}
use smp_nostd.PerCpu.Lookup.{present}
use smp_nostd.Scheduler.{new as new_scheduler}
use smp_nostd.Scheduler.Contents.{Inv}
use smp_nostd.Scheduler.Spawning.{HasRoom}
use smp_nostd.Scheduler.Startup.{new-Inv}
use smp_nostd.Trampoline.{trampoline_phys, store_word}
use smp_nostd.Trampoline.Handshake.{signal_address}
use smp_nostd.Smp.{SmpController, MadtLocalApic, MadtInfo, spawn_on_core, halt_aps}
use smp_nostd.Smp.World.{Machine}
use smp_nostd.Smp.Boot.{ap_entry, init_bsp_apic, boot_aps, init, enabled_aps}
use smp_nostd.Smp.Delivery.{Delivered, spawn_on_core-Delivered}
use smp_nostd.Scheduler.Service.{Call, scheduling, blocking}
use smp_nostd.Scheduler.Fairness.{asked, round, enough}
use smp_nostd.Smp.Calls.{Woken, spawn_on_core-Woken}
use smp_nostd.Smp.Halt.{Broadcast, halt_message, halt_aps-Broadcast}
use smp_nostd.PerCpu.Lookup.{IsNew}
use smp_nostd.PerCpu.{new as new_percpu}
use smp_nostd.Smp.Entry.{Entered, ap_entry-Entered}
use smp_nostd.Smp.Setup.{SetUp, init_bsp_apic-SetUp}
use smp_nostd.Smp.Launch.{Launched, launch_messages, boot_aps-Launched}
use smp_nostd.Smp.Silence.{boot_aps-uncounted}
use smp_nostd.Smp.Init.{Initialised, init-Initialised, init-no_new_core}

abbrev second_cpu : PerCpu
second_cpu = record {
  self_ptr = 0x2000;
  cpu_index = 1;
  apic_id = 3;
  is_bsp = false;
  kernel_stack_top = 0;
  kernel_stack_size = 0;
  current_task_id = 0;
  interrupt_disable_count = 0;
  local_data = 0;
}

-- Only the second processor is listed.
abbrev two_cpus : Registry
two_cpus = record {
  heap = λ ptr. if ptr == 0x2000 then some second_cpu else none;
  array = λ i. if i == 1 then 0x2000 else 0;
  count = 1;
  gs_base = λ here. 0;
}

abbrev machine : Machine Apic
machine = record {
  dev = apic;
  registry = two_cpus;
  memory = λ _. 0;
  next_task_id = 7;
  ap_halt = false;
  aps_booted = 1;
}

abbrev fresh_controller : SmpController
fresh_controller = record {
  bsp_apic_id = 0;
  local_apic = driver;
  ioapic_manager = [];
  trampoline = record { trampoline_vaddr = trampoline_phys };
  ap_count = 0;
  total_cores = 1;
  madt_info = none;
  scheduler = none;
  initialized = false;
}

abbrev controller : SmpController
controller = record fresh_controller {
  total_cores = 2;
  scheduler = some (new_scheduler 2);
  initialized = true;
}

two_cores-Inv : Inv (new_scheduler 2)
two_cores-Inv = (new-Inv 2 (omega arith)).0

two_cores-HasRoom : HasRoom (new_scheduler 2)
two_cores-HasRoom = omega (arith, ap length (new-Inv 2 (omega arith)).3)

spawn_on_core-Woken_example :
    Ends
      (spawn_on_core apic_hw release 2 controller 1 0x9000 "worker" 0x400000 5 machine)
      (λ result m'.
        Woken apic_hw release 2 controller driver-fits apic_dev
          (new_scheduler 2)
          machine
          1
          0x9000
          0x400000
          5
          second_cpu
          result
          m')
unfolding apic_dev get_cpu
spawn_on_core-Woken_example =
    spawn_on_core-Woken apic_hw release 2 controller driver-fits apic_dev (new_scheduler 2) machine
      1 0x9000 "worker" 0x400000 5 second_cpu (omega arith) refl two_cores-Inv two_cores-HasRoom
      (omega (arith, (new-Inv 2 (omega arith)).1)) refl (omega arith) (omega arith) (omega arith)

-- Each of the two cores asks for a task.
abbrev requests : List Call
requests = scheduling 0 ∷ blocking 1 ∷ []

requests-asked : (core : ℕ) → core < 2 → asked core requests ≡ true
requests-asked zero h = refl
requests-asked (suc zero) h = refl
requests-asked (suc (suc core)) h = absurd (omega arith)

spawn_on_core-Delivered_example :
    Ends
      (spawn_on_core apic_hw release 2 controller 1 0x9000 "worker" 0x400000 5 machine)
      (λ result _. Delivered 0x9000 0x400000 5 (requests ++ []) result)
unfolding apic_dev get_cpu new_scheduler
spawn_on_core-Delivered_example =
    spawn_on_core-Delivered apic_hw release 2 controller driver-fits apic_dev (new_scheduler 2)
      machine 1 0x9000 "worker" 0x400000 5 second_cpu 1 (requests ++ []) (omega arith) refl
      two_cores-Inv (omega (arith, ap length (new-Inv 2 (omega arith)).3))
      (omega (arith, (new-Inv 2 (omega arith)).1)) refl (omega arith) (omega arith) (omega arith)
      (omega arith, (omega arith, tt)) (round requests requests-asked enough)
      (omega (arith, ap length (new-Inv 2 (omega arith)).3))

small_ids : (j : ℕ) (cpu : PerCpu) → get_cpu two_cpus j ≡ some cpu → cpu.apic_id < 2 ^ 8
unfolding get_cpu
small_ids j cpu e = ground arith

halt_aps-Broadcast_example : Ends (halt_aps apic_hw release 2 controller machine) (λ _ m'.
    Broadcast apic_hw release 2 controller driver-fits apic_dev
      (map (halt_message apic_hw release 2 controller driver-fits apic_dev) (present two_cpus 1 1))
      (record machine { ap_halt = true })
      m')
unfolding apic_dev
halt_aps-Broadcast_example =
    halt_aps-Broadcast apic_hw release 2 controller driver-fits apic_dev machine (omega arith)
      small_ids

init_bsp_apic-SetUp_example :
    Ends
      (init_bsp_apic apic_hw release driver apic)
      (λ _ d'. SetUp apic_hw release driver driver-fits apic_dev apic d')
init_bsp_apic-SetUp_example =
    init_bsp_apic-SetUp apic_hw release driver driver-fits apic_dev apic refl

abbrev ap_entry_of : MadtLocalApic
ap_entry_of = record { processor_id = 1; apic_id = 3; enabled = true }

-- The other processors set the word that is polled.
abbrev ready_others : Machine Apic → Machine Apic
ready_others m = record m { memory = store_word 4 0x8F1C 1 m.memory }

-- The other processors run the trampoline's store.
abbrev code_others : Machine Apic → Machine Apic
code_others m = record m { memory = store_word 4 signal_address 0x80880027 m.memory }

abbrev stacks : ℕ → ℕ
stacks i = 0x100000

one_id :
    (j : ℕ) (la : MadtLocalApic) → get_elem? (ap_entry_of ∷ []) j ≡ some la → la.apic_id < 2 ^ 8
one_id zero la e = ground arith
one_id (suc j) la e = ground arith

boot_aps-Launched_example :
    Ends
      (boot_aps apic_hw release 2 ready_others 0x1000 0x200000 stacks fresh_controller
        (ap_entry_of ∷ [])
        machine)
      (λ c' m'. Launched fresh_controller apic_dev 1 (ap_entry_of ∷ []) machine c' m')
unfolding apic_dev
boot_aps-Launched_example =
    boot_aps-Launched apic_hw release 2 ready_others 0x1000 0x200000 stacks fresh_controller
      driver-fits apic_dev (ap_entry_of ∷ []) machine (λ m. refl) (omega arith) (λ i. omega arith)
      one_id (omega arith)

boot_aps-uncounted_example :
    Ends
      (boot_aps apic_hw release 2 code_others 0x1000 0x200000 stacks fresh_controller
        (ap_entry_of ∷ [])
        machine)
      (λ c' m'.
        (c' ≡ fresh_controller)
        × (apic_dev.sent m'.dev
            ≡ apic_dev.sent apic ++ launch_messages (ap_entry_of ∷ []) (true ∷ [])))
unfolding apic_dev
boot_aps-uncounted_example =
    boot_aps-uncounted apic_hw release 2 code_others 0x1000 0x200000 stacks fresh_controller
      driver-fits apic_dev (ap_entry_of ∷ []) machine (λ m. refl)
      (λ m. inr (0x80880027, omega arith, refl)) refl (omega arith) (λ i. omega arith) one_id
      (omega arith)

abbrev madt : MadtInfo
madt = record { local_apic_addr = 0xFEE00000; local_apics = ap_entry_of ∷ []; io_apics = [] }

init-Initialised_example :
    Ends
      (init apic_hw release 2 ready_others 0x1000 0x200000 stacks 0 0x3000 fresh_controller madt
        machine)
      (λ c' _. Initialised fresh_controller madt (length (enabled_aps 0 (ap_entry_of ∷ []))) c')
unfolding apic_dev
init-Initialised_example =
    init-Initialised apic_hw 2 ready_others 0x1000 0x200000 stacks fresh_controller driver-fits
      apic_dev 0 0x3000 madt machine (λ m. refl) (omega arith) (λ i. omega arith) refl one_id
      (omega arith)

init-no_new_core_example :
    Ends
      (init apic_hw release 2 code_others 0x1000 0x200000 stacks 0 0x3000 fresh_controller madt
        machine)
      (λ c' _. Initialised fresh_controller madt 0 c')
unfolding apic_dev
init-no_new_core_example =
    init-no_new_core apic_hw 2 code_others 0x1000 0x200000 stacks fresh_controller driver-fits
      apic_dev 0 0x3000 madt machine (λ m. refl) (omega arith) (λ i. omega arith) refl one_id
      (omega arith) refl (λ m. inr (0x80880027, omega arith, refl))

third_cpu-IsNew : (apic_id : ℕ) → IsNew two_cpus 0x3000 (new_percpu 0x3000 2 apic_id false)
unfolding new_percpu
third_cpu-IsNew apic_id = record {
  in_range = omega arith;
  nonnull = omega arith;
  self = refl;
  fresh = refl;
  unlisted = λ i. ground arith;
  room = omega arith;
}

ap_entry-Entered_example :
    Ends
      (ap_entry apic_hw release 2 0x3000 2 machine)
      (λ _ m'. Entered apic_hw release apic_dev 2 0x3000 2 machine m')
ap_entry-Entered_example =
    ap_entry-Entered apic_hw release apic_dev 2 0x3000 2 machine (omega arith) third_cpu-IsNew
