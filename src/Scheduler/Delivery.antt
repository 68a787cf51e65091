-- ===== src/Scheduler/Delivery.antt =====
-- src/scheduler.rs: a task that is spawned, woken or preempted comes to run.
use smp_nostd.Base.{
  ℕ, ◌+◌, ◌^◌, ◌<◌, ◌∙◌, ap, true, Option, List, length, get_elem?, count-true, set, arith,
}
use smp_nostd.Task.{Task}
use smp_nostd.RunQueue.Positions.{get_elem?-snoc}
use smp_nostd.Scheduler.{Scheduler}
use smp_nostd.Scheduler.Contents.{held, length-queue-le}
use smp_nostd.Scheduler.Stealing.{with_queue}
use smp_nostd.Scheduler.Spawning.{Enqueued}
use smp_nostd.Scheduler.Service.{Call}
use smp_nostd.Scheduler.Refinement.{AllPermitted}
use smp_nostd.Scheduler.Progress.{QueuedAt-set_self}
use smp_nostd.Scheduler.Fairness.{Rounds, Returned, run-Returned}

-- A task that has been enqueued is returned within as many rounds as there are tasks, itself included.
pub Enqueued-Returned :
    (s : Scheduler) (core : ℕ) (t : Task) (r : Option Scheduler) (k : ℕ) (cs : List Call)
    → (e : Enqueued s core t r) → length (held s.run_queues) < k
    → length (held s.run_queues) + 1 + length cs < 2 ^ 64
    → AllPermitted s.num_cores cs
    → Rounds s.num_cores k cs
    → Returned (with_queue s core e.longer) cs t
Enqueued-Returned s core t r k cs e enough room permitted rounds =
    run-Returned (with_queue s core e.longer) k core (length e.queue.queue) t cs e.inv
      (omega (
        arith,
        e.same (λ _. true),
        count-true (held (set s.run_queues core e.longer)),
        count-true (held s.run_queues),
      ))
      permitted rounds
      (QueuedAt-set_self s core e.queue e.at e.longer (length e.queue.queue) (
        ap (λ (l : List Task). get_elem? l (length e.queue.queue)) e.appended
        ∙ get_elem?-snoc e.queue.queue t))
      (omega (arith, length-queue-le s.run_queues core e.queue e.at))
