-- ===== src/Smp.antt =====
-- src/driver.rs: the controller of the processors and its public calls. A call takes the controller
-- and returns it with the changes; `here` is the processor that runs the call, and the addresses
-- that the allocator gives are arguments. The logging is left out.
pub mod Idle
pub mod World
pub mod Boot
pub mod Calls
pub mod Delivery
pub mod Halt
pub mod Entry
pub mod Setup
pub mod Start
pub mod Launch
pub mod Table
pub mod Init
pub mod Silence
mod Tests
use Prim.Native.String.{String}
use smp_nostd.Base.{
  ℕ, zero, suc, ◌+◌, ◌-◌, Bool, true, false, Option, none, some, List, [], ◌∷◌, bit_or, u8, u32,
  Profile,
}
use smp_nostd.Base.Command.{Cmd, ⊤, pure, gets, modify, or_panic, and_then, ◌>>=◌, ◌>>◌}
use smp_nostd.Hardware.{Hardware}
use smp_nostd.LocalApic.{LocalApic, id, eoi, new as new_apic}
use smp_nostd.LocalApic.Registers.{icr_fixed, icr_dest_physical, icr_no_shorthand}
use smp_nostd.LocalApic.Ipi.{send_ipi}
use smp_nostd.IoApic.{IoApic, route_gsi, no_ioapics}
use smp_nostd.PerCpu.{PerCpu, get_cpu, get_current_cpu}
use smp_nostd.Scheduler.{
  Scheduler, ipi_schedule_vector, spawn as spawn_task, spawn_on_core as spawn_task_on,
}
use smp_nostd.Task.{Task, default_stack_size, new as new_task}
use smp_nostd.Trampoline.{ApTrampoline, trampoline_phys}
use smp_nostd.Smp.World.{Machine, on_dev, changing}

pub record MadtLocalApic : Type 0 where
  pub processor_id : ℕ
  pub apic_id : ℕ
  pub enabled : Bool

pub record MadtIoApic : Type 0 where
  pub id : ℕ
  pub address : ℕ
  pub gsi_base : ℕ

pub record MadtInfo : Type 0 where
  pub local_apic_addr : ℕ
  pub local_apics : List MadtLocalApic
  pub io_apics : List MadtIoApic

pub record SmpController : Type 0 where
  pub bsp_apic_id : ℕ
  pub local_apic : LocalApic
  pub ioapic_manager : List IoApic
  pub trampoline : ApTrampoline
  pub ap_count : ℕ
  pub total_cores : ℕ
  pub madt_info : Option MadtInfo
  pub scheduler : Option Scheduler
  pub initialized : Bool

abbrev pub num_cores : SmpController → ℕ
num_cores c = c.total_cores

pub is_initialized : SmpController → Bool
is_initialized c = c.initialized

module _ {Dev : Type 0} (hw : Hardware Dev) (p : Profile) (rounds : ℕ) where
  -- `SmpController::new`
  unfoldable pub new : (apic_base_vaddr : ℕ) → Cmd (Machine Dev) SmpController
  new apic_base_vaddr = do
    let local_apic = new_apic apic_base_vaddr
    bsp_apic_id ← on_dev (id hw p local_apic)
    pure (record {
      bsp_apic_id = bsp_apic_id;
      local_apic = local_apic;
      ioapic_manager = no_ioapics;
      trampoline = record { trampoline_vaddr = trampoline_phys };
      ap_count = 0;
      total_cores = 1;
      madt_info = none;
      scheduler = none;
      initialized = false;
    })

  unfoldable pub current_core : (here : ℕ) → Cmd (Machine Dev) ℕ
  current_core here = do
    registry ← gets (λ m. m.registry)
    cpu ← or_panic (get_current_cpu registry here)
    pure cpu.cpu_index

  unfoldable pub ap_count : Cmd (Machine Dev) ℕ
  ap_count = gets (λ m. m.aps_booted)

  -- `ipi_send` once the target has been looked up.
  unfoldable pub ipi_to : SmpController → (vector : ℕ) → Option PerCpu → Cmd (Machine Dev) ⊤
  ipi_to c vector none = pure tt
  ipi_to c vector (some cpu) = on_dev (
      send_ipi hw p rounds c.local_apic cpu.apic_id
        (bit_or (bit_or (bit_or icr_fixed icr_dest_physical) icr_no_shorthand) vector))

  unfoldable pub ipi_send : SmpController → (target_core vector : ℕ) → Cmd (Machine Dev) ⊤
  unfolding ipi_to
  ipi_send c target_core vector = do
    registry ← gets (λ m. m.registry)
    ipi_to c vector (get_cpu registry target_core)

  -- `Box::new(Task::new(name, entry, arg, DEFAULT_STACK_SIZE))`
  unfoldable pub create_task : (ptr : ℕ) → String → (entry arg : ℕ) → Cmd (Machine Dev) Task
  create_task ptr name entry arg = do
    next_id ← gets (λ m. m.next_task_id)
    (task, next) ← or_panic (new_task p next_id ptr name entry arg default_stack_size)
    modify (λ m. record m { next_task_id = next })
    pure task

  -- `spawn_on_core` with the scheduler that there is.
  unfoldable pub spawn_on :
      SmpController
      → (core_id ptr : ℕ) → String
      → (entry arg : ℕ) → Option Scheduler
      → Cmd (Machine Dev) (Option ℕ × SmpController)
  spawn_on c core_id ptr name entry arg none = pure (none, c)
  spawn_on c core_id ptr name entry arg (some scheduler) = do
    task ← create_task ptr name entry arg
    scheduler' ← or_panic (spawn_task_on scheduler core_id task)
    ipi_send c core_id ipi_schedule_vector
    pure (some task.id, record c { scheduler = some scheduler' })

  unfoldable pub spawn_on_core :
      SmpController
      → (core_id ptr : ℕ) → String
      → (entry arg : ℕ) → Cmd (Machine Dev) (Option ℕ × SmpController)
  unfolding spawn_on
  spawn_on_core c core_id ptr name entry arg = spawn_on c core_id ptr name entry arg c.scheduler

  unfoldable pub spawn_with :
      SmpController
      → (ptr : ℕ) → String
      → (entry arg : ℕ) → Option Scheduler
      → Cmd (Machine Dev) (Option ℕ × SmpController)
  spawn_with c ptr name entry arg none = pure (none, c)
  spawn_with c ptr name entry arg (some scheduler) = do
    task ← create_task ptr name entry arg
    scheduler' ← or_panic (spawn_task scheduler task)
    pure (some task.id, record c { scheduler = some scheduler' })

  unfoldable pub spawn :
      SmpController
      → (ptr : ℕ) → String
      → (entry arg : ℕ) → Cmd (Machine Dev) (Option ℕ × SmpController)
  unfolding spawn_with
  spawn c ptr name entry arg = spawn_with c ptr name entry arg c.scheduler

  unfoldable pub route_to : SmpController → (gsi vector : ℕ) → Option PerCpu → Cmd (Machine Dev) ⊤
  route_to c gsi vector none = pure tt
  route_to c gsi vector (some cpu) =
      on_dev (λ d. changing (route_gsi hw.bus p c.ioapic_manager gsi vector (u8 cpu.apic_id) d))

  unfoldable pub route_irq : SmpController → (gsi vector core_id : ℕ) → Cmd (Machine Dev) ⊤
  unfolding route_to
  route_irq c gsi vector core_id = do
    registry ← gets (λ m. m.registry)
    route_to c gsi vector (get_cpu registry core_id)

  -- `SmpController::eoi`
  unfoldable pub end_of_interrupt : SmpController → Cmd (Machine Dev) ⊤
  end_of_interrupt c = on_dev (eoi hw p c.local_apic)

  -- The loop of `halt_aps` over the cores `i .. i + n`.
  unfoldable pub halt_loop : SmpController → (n i : ℕ) → Cmd (Machine Dev) ⊤
  halt_loop c zero i = pure tt
  halt_loop c (suc n) i = do ipi_send c i 0x02; halt_loop c n (i + 1)

  unfoldable pub halt_aps : SmpController → Cmd (Machine Dev) ⊤
  unfolding halt_loop
  halt_aps c = do modify (λ m. record m { ap_halt = true }); halt_loop c (num_cores c - 1) 1
