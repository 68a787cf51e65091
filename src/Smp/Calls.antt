-- ===== src/Smp/Calls.antt =====
-- The controller's calls: a task that is spawned on a core, and the interrupts that go out.
use Prim.Native.String.{String}
use smp_nostd.Base.{
  ℕ, ◌+◌, ◌^◌, ◌≤◌, ◌<◌, ◌≡◌, ◌∙◌, refl, sym, ap, subst, Option, none, some, bit_or, Profile, arith,
}
use smp_nostd.Base.Bits.{bit_or_high}
use smp_nostd.Base.Command.{Ends, Ends-bind, done}
use smp_nostd.Hardware.{Hardware}
use smp_nostd.LocalApic.Ipi.{send_ipi}
use smp_nostd.LocalApic.Device.{IsApic}
use smp_nostd.LocalApic.Sending.{Addressable, Sent, send_ipi-Sent}
use smp_nostd.PerCpu.{PerCpu, get_cpu}
use smp_nostd.Task.{Task, default_stack_size}
use smp_nostd.Task.Creation.{IsFresh, new-IsFresh}
use smp_nostd.Scheduler.{Scheduler, ipi_schedule_vector}
use smp_nostd.Scheduler.Contents.{Inv}
use smp_nostd.Scheduler.Spawning.{Enqueued, HasRoom, requeue-Enqueued}
use smp_nostd.Smp.{SmpController, ipi_to, ipi_send, create_task, spawn_on, spawn_on_core}
use smp_nostd.Smp.World.{Machine, Ends-on_dev}

module _ {Dev : Type 0} (hw : Hardware Dev) (p : Profile) (rounds : ℕ) (c : SmpController)
    (fits : c.local_apic.base_addr + 0x1000 ≤ 2 ^ 64) (dev : IsApic hw c.local_apic) where
  -- One interrupt with `vector` has gone to `apic_id`, and only the devices have changed.
  pub record Signalled (apic_id vector : ℕ) (m m' : Machine Dev) : Type 0 where
    pub interrupt : Sent hw p c.local_apic fits dev apic_id vector m.dev m'.dev
    pub machine : m' ≡ record m { dev = m'.dev }

  pub ipi_send-Signalled :
      (m : Machine Dev) (core vector : ℕ) (cpu : PerCpu)
      → dev.patience < rounds
      → get_cpu m.registry core ≡ some cpu
      → Addressable hw p c.local_apic fits dev cpu.apic_id
      → vector < 2 ^ 8
      → Ends (ipi_send hw p rounds c core vector m) (λ _ m'. Signalled cpu.apic_id vector m m')
  unfolding ipi_send ipi_to
  ipi_send-Signalled m core vector cpu long at fit small =
      let flags : bit_or 0 vector ≡ vector = bit_or_high 8 0 vector small ∙ omega arith in
      rw (at, flags)
        (Ends-on_dev (send_ipi hw p rounds c.local_apic cpu.apic_id vector) m
          (λ _ d. Sent hw p c.local_apic fits dev cpu.apic_id vector m.dev d)
          (λ _ m'. Signalled cpu.apic_id vector m m')
          (send_ipi-Sent hw p c.local_apic fits dev rounds cpu.apic_id vector m.dev long fit
            (omega arith))
          (λ _ d s. record { interrupt = s; machine = refl }))

  pub ipi_send-none :
      (m : Machine Dev) (core vector : ℕ)
      → get_cpu m.registry core ≡ none
      → ipi_send hw p rounds c core vector m ≡ done tt m
  unfolding ipi_send ipi_to
  ipi_send-none m core vector e = rw e refl

  -- A new task, with the address of its stack, is at the back of the queue of `core`, and its processor
  -- has been sent the scheduling interrupt; nothing else has changed.
  pub record Woken (s : Scheduler) (m : Machine Dev) (core ptr entry arg : ℕ) (cpu : PerCpu)
      (result : Option ℕ × SmpController) (m' : Machine Dev) : Type 0 where
    pub task : Task
    pub id : task.id ≡ m.next_task_id
    pub fresh : IsFresh task ptr entry arg default_stack_size
    pub returned : result.0 ≡ some m.next_task_id
    pub enqueued : Enqueued s core task result.1.scheduler
    pub controller : result.1 ≡ record c { scheduler = result.1.scheduler }
    pub signalled :
        Signalled cpu.apic_id ipi_schedule_vector
          (record m { next_task_id = m.next_task_id + 1 })
          m'

  spawn_on-Woken :
      (s : Scheduler) (m : Machine Dev) (core ptr : ℕ) (name : String) (entry arg : ℕ)
      (cpu : PerCpu)
      → dev.patience < rounds
      → Inv s
      → HasRoom s
      → core < s.num_cores
      → get_cpu m.registry core ≡ some cpu
      → Addressable hw p c.local_apic fits dev cpu.apic_id
      → ptr + default_stack_size < 2 ^ 64
      → m.next_task_id + 1 < 2 ^ 64
      → Ends
          (spawn_on hw p rounds c core ptr name entry arg (some s) m)
          (λ result m'. Woken s m core ptr entry arg cpu result m')
  unfolding spawn_on create_task
  spawn_on-Woken s m core ptr name entry arg cpu long inv room lt at fit stack ids =
      let (task, made, id, fresh) =
        new-IsFresh p m.next_task_id ptr name entry arg default_stack_size stack ids in
      let (same, woken, preempted, queued) = requeue-Enqueued s task core inv room lt in
      let m1 = record m { next_task_id = m.next_task_id + 1 } in
      rw (made, queued.result)
        (Ends-bind (ipi_send hw p rounds c core ipi_schedule_vector m1) _
          (λ _ m'. Signalled cpu.apic_id ipi_schedule_vector m1 m')
          (λ result m'. Woken s m core ptr entry arg cpu result m')
          (ipi_send-Signalled m1 core ipi_schedule_vector cpu long at fit (omega arith))
          (λ _ m' signalled. record {
            task = task;
            id = id;
            fresh = fresh;
            returned = ap some id;
            enqueued = subst (λ o. Enqueued s core task o) queued.result queued;
            controller = refl;
            signalled = signalled;
          }))

  -- `spawn_on_core` returns on an initialised controller with a valid scheduler that has room, for a core
  -- of the scheduler whose processor is registered and can be addressed, with a stack below the top of
  -- memory, identifiers left, and more rounds of polling than an interrupt can stay pending for: it gives
  -- the identifier that the counter held, puts the new task at the back of that core's queue, sends that
  -- processor one interrupt with the scheduling vector, and changes nothing else.
  pub spawn_on_core-Woken :
      (s : Scheduler) (m : Machine Dev) (core ptr : ℕ) (name : String) (entry arg : ℕ)
      (cpu : PerCpu)
      → dev.patience < rounds
      → c.scheduler ≡ some s
      → Inv s
      → HasRoom s
      → core < s.num_cores
      → get_cpu m.registry core ≡ some cpu
      → Addressable hw p c.local_apic fits dev cpu.apic_id
      → ptr + default_stack_size < 2 ^ 64
      → m.next_task_id + 1 < 2 ^ 64
      → Ends
          (spawn_on_core hw p rounds c core ptr name entry arg m)
          (λ result m'. Woken s m core ptr entry arg cpu result m')
  unfolding spawn_on_core
  spawn_on_core-Woken s m core ptr name entry arg cpu long here inv room lt at fit stack ids =
      subst
        (λ (o : Option Scheduler).
          Ends (spawn_on hw p rounds c core ptr name entry arg o m)
            (λ result m'. Woken s m core ptr entry arg cpu result m'))
        (sym here)
        (spawn_on-Woken s m core ptr name entry arg cpu long inv room lt at fit stack ids)
