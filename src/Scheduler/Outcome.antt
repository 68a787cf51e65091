-- ===== src/Scheduler/Outcome.antt =====
-- src/scheduler.rs, `schedule`: how a call ends, in terms of the queues before and after.
use smp_nostd.Base.{
  ℕ, ◌-◌, ◌/◌, ◌<◌, ◌≡◌, ◌∙◌, sym, Option, none, some, List, [], ◌∷◌, reverse, length, take, drop,
  get_elem?,
}
use smp_nostd.Task.{Task}
use smp_nostd.RunQueue.{RunQueue, steal_half}
use smp_nostd.RunQueue.Laws.{IsValid, steal_half-splits}
use smp_nostd.Scheduler.{Scheduler, push_all, schedule}
use smp_nostd.Scheduler.Contents.{Inv}
use smp_nostd.Scheduler.Conserve.{Raid-Shares}
use smp_nostd.Scheduler.Placement.{Victim}
use smp_nostd.Scheduler.Stealing.{with_queue, Outcome, own_task, nothing, raided, schedule-cases}

-- How many of `n` tasks stay with the core that is raided: half of them, rounded up.
abbrev pub left : (n : ℕ) → ℕ
left n = n - n / 2

-- The three ways in which `schedule` ends at a core whose queue is `own`.
pub data Scheduled (s : Scheduler) (core_id : ℕ) (own : RunQueue)
    (r : Option (Option Task × Scheduler)) : Type 0 where
  oldest :
      (t : Task) (rest : RunQueue)
      → own.queue ≡ t ∷ rest.queue
      → IsValid rest
      → r ≡ some (some t, with_queue s core_id rest)
      → Scheduled s core_id own r
  idle : own.queue ≡ [] → Victim s core_id none → r ≡ some (none, s) → Scheduled s core_id own r
  stolen :
      (victim : ℕ) (vq : RunQueue) (first : Task) (others : List Task) (front back : RunQueue)
      → own.queue ≡ []
      → Victim s core_id (some victim)
      → get_elem? s.run_queues victim ≡ some vq
      → first ∷ others ≡ reverse (drop (left (length vq.queue)) vq.queue)
      → front.queue ≡ take (left (length vq.queue)) vq.queue
      → back.queue ≡ others
      → IsValid front
      → IsValid back
      → r ≡ some (some first, with_queue (with_queue s victim front) core_id back)
      → Scheduled s core_id own r

Outcome-Scheduled :
    {s : Scheduler} {core_id : ℕ} {own : RunQueue} {r : Option (Option Task × Scheduler)}
    → Inv s
    → Outcome s core_id own r
    → Scheduled s core_id own r
Outcome-Scheduled inv (own_task t q e v res) = oldest t q e v res
Outcome-Scheduled inv (nothing empty found v res) = idle empty v res
Outcome-Scheduled {own = own} inv (raided victim vq found v raid b res) =
    let shares = Raid-Shares inv raid b in
    let (loot, kept, valid) = steal_half-splits vq raid.valid in
    stolen victim vq b.first b.others (steal_half vq).1 (push_all own b.others) raid.own_empty v
      raid.victim_at (sym b.taken ∙ loot) kept shares.own_queue shares.victim_valid shares.own_valid
      (res ∙ b.result)

-- On a valid scheduler `schedule` at a core that exists does not panic: with a task in its own queue
-- it runs the oldest; with an empty queue it runs nothing where no other core has two tasks, and
-- otherwise raids the longest of the other queues: the back half of that queue, rounded down, is taken from it,
-- its last task runs, and the rest of the loot makes up the queue of this core, last task first. The queues
-- that change are valid, and the others are as before.
pub schedule-Outcome :
    (s : Scheduler) (core_id : ℕ)
    → Inv s
    → core_id < s.num_cores
    → (own : RunQueue) × (get_elem? s.run_queues core_id ≡ some own)
      × Scheduled s core_id own (schedule s core_id)
schedule-Outcome s core_id inv h =
    let (own, at, outcome) = schedule-cases s core_id inv h in
    (own, at, Outcome-Scheduled inv outcome)
