-- ===== src/Scheduler/Stealing.antt =====
-- What `schedule` does in each of its cases: the own queue, nobody to rob, a victim.
use smp_nostd.Base.{
  ℕ, ◌<◌, ◌≡◌, ◌≢◌, refl, ◌∙◌, ap, Option, none, some, List, [], ◌∷◌, length, length-reverse,
  length-drop, drop, get_elem?, set, set-same, arith, get_elem?-set_ne, get_elem?-some,
  head_of_length,
}
use smp_nostd.Task.{Task}
use smp_nostd.RunQueue.{RunQueue, len, pop, steal_half}
use smp_nostd.RunQueue.Laws.{IsValid, pop-Popped, Popped, steal_half-splits, kept}
use smp_nostd.Scheduler.{
  Scheduler, push_all, deliver, steal_from, find_work, take_or_steal, busiest_core, schedule,
}
use smp_nostd.Scheduler.Contents.{Inv}
use smp_nostd.Scheduler.Placement.{Victim, busiest_core-Victim}

-- A scheduler with one queue replaced.
abbrev pub with_queue : Scheduler → ℕ → RunQueue → Scheduler
with_queue s i q = record s { run_queues = set s.run_queues i q }

-- The queue of this core is empty and the victim's has tasks to spare.
pub record Raid (s : Scheduler) (core_id victim : ℕ) (own vq : RunQueue) : Type 0 where
  pub own_at : get_elem? s.run_queues core_id ≡ some own
  pub own_empty : own.queue ≡ []
  pub victim_at : get_elem? s.run_queues victim ≡ some vq
  pub distinct : victim ≢ core_id
  pub spare : 1 < len vq
  pub valid : IsValid vq

-- After a raid: the last task of the victim runs, the rest of its back half is queued here, last
-- first, and its front half stays.
pub record Robbed (s : Scheduler) (core_id victim : ℕ) (own vq : RunQueue) : Type 0 where
  pub first : Task
  pub others : List Task
  pub taken : (steal_half vq).0 ≡ first ∷ others
  pub result :
      steal_from s core_id victim
      ≡ some (
        some first,
        with_queue (with_queue s victim (steal_half vq).1) core_id (push_all own others),
      )

steal_from-some :
    (s : Scheduler) (core_id victim : ℕ) (own vq : RunQueue) (first : Task) (others : List Task)
    → Raid s core_id victim own vq
    → (steal_half vq).0 ≡ first ∷ others
    → steal_from s core_id victim
      ≡ some (
        some first,
        with_queue (with_queue s victim (steal_half vq).1) core_id (push_all own others),
      )
unfolding steal_from
steal_from-some s core_id victim own vq first others raid taken =
    rw (raid.victim_at, steal_from, taken, own_at', deliver)
  where
    own_at' : get_elem? (set s.run_queues victim (steal_half vq).1) core_id ≡ some own
    own_at' = get_elem?-set_ne s.run_queues (steal_half vq).1 raid.distinct ∙ raid.own_at

stolen_some :
    (vq : RunQueue)
    → IsValid vq
    → 1 < len vq
    → (t : Task) × (ts : List Task) × ((steal_half vq).0 ≡ t ∷ ts)
unfolding len
stolen_some vq v spare = head_of_length (steal_half vq).0 (
    omega (
      arith,
      ap length (steal_half-splits vq v).0,
      length-reverse (drop (kept vq) vq.queue),
      length-drop (kept vq) vq.queue,
      v.counted,
    ))

pub Raid-Robbed :
    {s : Scheduler} {core_id victim : ℕ} {own vq : RunQueue}
    → Raid s core_id victim own vq
    → Robbed s core_id victim own vq
Raid-Robbed {s} {core_id} {victim} {own} {vq} raid =
    let (first, others, taken) = stolen_some vq raid.valid raid.spare in
    record {
      first = first;
      others = others;
      taken = taken;
      result = steal_from-some s core_id victim own vq first others raid taken;
    }

-- The three ways in which `schedule` ends at a core with a queue. With a task in its own queue it
-- runs the oldest. With an empty one it runs nothing where no other core has two tasks; else it raids
-- the longest of the other queues.
pub data Outcome (s : Scheduler) (core_id : ℕ) (own : RunQueue)
    (r : Option (Option Task × Scheduler)) : Type 0 where
  own_task :
      (t : Task) (q : RunQueue)
      → own.queue ≡ t ∷ q.queue
      → IsValid q
      → r ≡ some (some t, with_queue s core_id q)
      → Outcome s core_id own r
  nothing :
      own.queue ≡ []
      → busiest_core s core_id ≡ none
      → Victim s core_id none
      → r ≡ some (none, s)
      → Outcome s core_id own r
  raided :
      (victim : ℕ) (vq : RunQueue)
      → busiest_core s core_id ≡ some victim
      → Victim s core_id (some victim)
      → Raid s core_id victim own vq
      → (b : Robbed s core_id victim own vq) → r ≡ steal_from s core_id victim
      → Outcome s core_id own r

find_work-Outcome :
    (s : Scheduler) (core_id : ℕ) (own : RunQueue) (b : Option ℕ)
    → Inv s
    → get_elem? s.run_queues core_id ≡ some own
    → own.queue ≡ []
    → busiest_core s core_id ≡ b
    → Victim s core_id b
    → Outcome s core_id own (find_work s core_id b)
unfolding find_work
find_work-Outcome s core_id own none inv at empty found v = nothing empty found v refl
find_work-Outcome s core_id own (some victim) inv at empty found (vq, vat, ne, spare, most) =
    raided victim vq found (vq, vat, ne, spare, most) raid (Raid-Robbed raid) refl
  where
    raid : Raid s core_id victim own vq
    raid = record {
      own_at = at;
      own_empty = empty;
      victim_at = vat;
      distinct = ne;
      spare = spare;
      valid = inv.valid victim vq vat;
    }

take_or_steal-Outcome :
    (s : Scheduler) (core_id : ℕ) (own : RunQueue) (popped : Option Task × RunQueue)
    → Inv s
    → get_elem? s.run_queues core_id ≡ some own
    → IsValid popped.1
    → Popped own popped
    → Outcome s core_id own (take_or_steal s core_id popped)
unfolding take_or_steal
take_or_steal-Outcome s core_id own (some t, q) inv at v e = own_task t q e v refl
take_or_steal-Outcome s core_id own (none, q) inv at v (empty, same) =
    rw (same, set-same s.run_queues core_id own at)
      (find_work-Outcome s core_id own (busiest_core s core_id) inv at empty refl
        (busiest_core-Victim s core_id (omega (arith, inv.cores, inv.few))))

pub schedule-Outcome_at :
    (s : Scheduler) (core_id : ℕ) (own : RunQueue)
    → Inv s
    → get_elem? s.run_queues core_id ≡ some own
    → Outcome s core_id own (schedule s core_id)
unfolding schedule
schedule-Outcome_at s core_id own inv at =
    let (v, popped) = pop-Popped own (inv.valid core_id own at) in
    rw (at, schedule) (take_or_steal-Outcome s core_id own (pop own) inv at v popped)

pub schedule-cases :
    (s : Scheduler) (core_id : ℕ)
    → Inv s
    → core_id < s.num_cores
    → (own : RunQueue) × (get_elem? s.run_queues core_id ≡ some own)
      × Outcome s core_id own (schedule s core_id)
schedule-cases s core_id inv h =
    let (own, at) = get_elem?-some s.run_queues core_id (omega (arith, inv.cores)) in
    (own, at, schedule-Outcome_at s core_id own inv at)
