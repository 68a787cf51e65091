-- ===== src/Smp/Delivery.antt =====
-- src/driver.rs, `spawn_on_core`, with the calls of src/scheduler.rs that follow.
use Prim.Native.String.{String}
use smp_nostd.Base.{
  ℕ, ◌+◌, ◌^◌, ◌≤◌, ◌<◌, ◌≡◌, ◌∙◌, sym, ap, Option, some, List, length, Profile, arith,
}
use smp_nostd.Base.Command.{Ends, Ends-weaken}
use smp_nostd.Hardware.{Hardware}
use smp_nostd.LocalApic.Device.{IsApic}
use smp_nostd.LocalApic.Sending.{Addressable}
use smp_nostd.PerCpu.{PerCpu, get_cpu}
use smp_nostd.Task.{Task, default_stack_size}
use smp_nostd.Task.Creation.{IsFresh}
use smp_nostd.Scheduler.{Scheduler}
use smp_nostd.Scheduler.Contents.{Inv, held}
use smp_nostd.Scheduler.Service.{Call}
use smp_nostd.Scheduler.Stealing.{with_queue}
use smp_nostd.Scheduler.Refinement.{AllPermitted}
use smp_nostd.Scheduler.Fairness.{Rounds, Returned}
use smp_nostd.Scheduler.Delivery.{Enqueued-Returned}
use smp_nostd.Smp.{SmpController, spawn_on_core}
use smp_nostd.Smp.World.{Machine}
use smp_nostd.Smp.Calls.{Woken, spawn_on_core-Woken}

-- A fresh task has been made for the entry point, its identifier is returned, and from the scheduler that is
-- left the calls return it.
abbrev pub Delivered : (ptr entry arg : ℕ) → List Call → Option ℕ × SmpController → Type 0
Delivered ptr entry arg cs (id, c') =
    (task : Task) × IsFresh task ptr entry arg default_stack_size
    × (id ≡ some task.id)
    × (s : Scheduler) × (c'.scheduler ≡ some s)
    × Returned s cs task

-- A task that `spawn_on_core` makes comes to run: it is returned by one of the calls of the scheduler that
-- follow, where they name existing cores and have more rounds, in each of which every core asks for a task, than
-- there are tasks before. The controller has a valid scheduler, with room for the new task and for those that the
-- calls bring; the core is one of the scheduler whose processor is registered and can be addressed; the stack
-- is below the top of memory, identifiers are left, and an interrupt is pending for fewer rounds of polling
-- than there are.
pub spawn_on_core-Delivered :
    {Dev : Type 0} (hw : Hardware Dev) (p : Profile) (rounds : ℕ) (c : SmpController)
    (fits : c.local_apic.base_addr + 0x1000 ≤ 2 ^ 64) (dev : IsApic hw c.local_apic) (s : Scheduler)
    (m : Machine Dev) (core ptr : ℕ) (name : String) (entry arg : ℕ) (cpu : PerCpu) (k : ℕ)
    (cs : List Call)
    → dev.patience < rounds
    → c.scheduler ≡ some s
    → Inv s
    → length (held s.run_queues) + 1 + length cs < 2 ^ 64
    → core < s.num_cores
    → get_cpu m.registry core ≡ some cpu
    → Addressable hw p c.local_apic fits dev cpu.apic_id
    → ptr + default_stack_size < 2 ^ 64
    → m.next_task_id + 1 < 2 ^ 64
    → AllPermitted s.num_cores cs
    → Rounds s.num_cores k cs
    → length (held s.run_queues) < k
    → Ends
        (spawn_on_core hw p rounds c core ptr name entry arg m)
        (λ result _. Delivered ptr entry arg cs result)
spawn_on_core-Delivered hw p rounds c fits dev s m core ptr name entry arg cpu k cs long here inv
      room lt at fit stack ids permitted fair enough =
    Ends-weaken (spawn_on_core hw p rounds c core ptr name entry arg m)
      (λ result m'. Woken hw p rounds c fits dev s m core ptr entry arg cpu result m')
      (λ result _. Delivered ptr entry arg cs result)
      (spawn_on_core-Woken hw p rounds c fits dev s m core ptr name entry arg cpu long here inv
        (omega arith) lt at fit stack ids)
      (λ result _ w. (
        w.task,
        w.fresh,
        w.returned ∙ ap some (sym w.id),
        with_queue s core w.enqueued.longer,
        w.enqueued.result,
        Enqueued-Returned s core w.task result.1.scheduler k cs w.enqueued enough room permitted
            fair,
      ))
