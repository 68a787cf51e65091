-- ===== src/Scheduler.antt =====
-- src/scheduler.rs, `Scheduler`. `none` is a panic: an index out of range, an assertion or an
-- overflow check. The scheduler is shared by reference, and each call returns its new state.
pub mod Placement
pub mod Contents
pub mod Stealing
pub mod Conserve
pub mod Outcome
pub mod Idle
pub mod Spawning
pub mod Startup
pub mod Service
pub mod Refinement
pub mod Progress
pub mod Fairness
pub mod Delivery
pub mod Interleaved
mod Tests
use smp_nostd.Base.{
  ℕ, zero, suc, ◌+◌, not, ◌&&◌, Option, none, some, List, [], ◌∷◌, ◌++◌, map, ltb, ◌==◌,
  if◌then◌else◌, get_elem?, set, u32, u64_max, Profile, add_word,
}
use smp_nostd.Task.{Task, set_state, ready}
use smp_nostd.RunQueue.{RunQueue, len, push, pop, steal_half, new as new_queue}

pub record Scheduler : Type 0 where
  pub run_queues : List RunQueue
  pub current_tasks : List (Option Task)
  pub num_cores : ℕ

abbrev pub ipi_schedule_vector : ℕ
ipi_schedule_vector = 0xFE

-- The loop of `Scheduler::new` over the cores `i .. i + n`.
new_loop : ℕ → ℕ → List RunQueue → List (Option Task) → List RunQueue × List (Option Task)
new_loop zero i rqs cts = (rqs, cts)
new_loop (suc n) i rqs cts = new_loop n (i + 1) (rqs ++ new_queue i ∷ []) (cts ++ none ∷ [])

-- `Scheduler::new`
unfoldable pub new : ℕ → Scheduler
unfolding new_loop
new num_cores =
    let (rqs, cts) = new_loop num_cores 0 [] [] in
    record { run_queues = rqs; current_tasks = cts; num_cores = num_cores }

-- `self.run_queues[core].push(task)`
pub push_on : Scheduler → ℕ → Task → Option Scheduler
push_on s core task = elim (get_elem? s.run_queues core) [
  | none ↦ none
  | some rq ↦ some (record s { run_queues = set s.run_queues core (push rq task) })
]

-- The loop of `least_loaded_core`, from index `i` on.
pub least_loop : List RunQueue → (i min_load min_core : ℕ) → ℕ
least_loop [] i min_load min_core = min_core
least_loop (rq ∷ rqs) i min_load min_core =
    let load = len rq in
    least_loop rqs (i + 1) (if ltb load min_load then load else min_load)
      (if ltb load min_load then u32 i else min_core)

pub least_loaded_core : Scheduler → ℕ
unfolding least_loop
least_loaded_core s = least_loop s.run_queues 0 u64_max 0

-- The core that `spawn` chooses: the affinity, or the least loaded.
pub target_core : Scheduler → Option ℕ → ℕ
unfolding least_loaded_core
target_core s none = least_loaded_core s
target_core s (some affinity) = affinity

-- `spawn`
unfoldable pub spawn : Scheduler → Task → Option Scheduler
unfolding push_on target_core
spawn s task = push_on s (target_core s task.affinity) task

-- `spawn_on_core`
unfoldable pub spawn_on_core : Scheduler → ℕ → Task → Option Scheduler
unfolding push_on
spawn_on_core s core_id task = if ltb core_id s.num_cores then push_on s core_id task else none

-- The loop of `busiest_core`, from index `i` on.
pub busiest_loop : ℕ → List RunQueue → (i max_load : ℕ) → Option ℕ → Option ℕ
busiest_loop exclude_core [] i max_load max_core = max_core
busiest_loop exclude_core (rq ∷ rqs) i max_load max_core =
    let load = len rq in
    let better = not (u32 i == exclude_core) && ltb max_load load in
    busiest_loop exclude_core rqs (i + 1) (if better then load else max_load)
      (if better then some (u32 i) else max_core)

pub busiest_core : Scheduler → ℕ → Option ℕ
unfolding busiest_loop
busiest_core s exclude_core = busiest_loop exclude_core s.run_queues 0 1 none

-- `for task in iter { rq.push(task) }`
pub push_all : RunQueue → List Task → RunQueue
push_all rq [] = rq
push_all rq (task ∷ tasks) = push_all (push rq task) tasks

-- The tail of `schedule`: the victim has lost its back half; the first stolen task runs, the others
-- go to the queue of this core.
pub deliver : Scheduler → ℕ → List Task → Option (Option Task × Scheduler)
unfolding push_all
deliver s core_id [] = some (none, s)
deliver s core_id (first ∷ others) = elim (get_elem? s.run_queues core_id) [
  | none ↦ none
  | some rq ↦
      some (some first, record s { run_queues = set s.run_queues core_id (push_all rq others) })
]

-- `self.run_queues[victim].steal_half()` and what follows.
pub steal_from : Scheduler → (core_id victim : ℕ) → Option (Option Task × Scheduler)
unfolding deliver
steal_from s core_id victim = elim (get_elem? s.run_queues victim) [
  | none ↦ none
  | some vq ↦
      let (stolen, vq') = steal_half vq in
      deliver (record s { run_queues = set s.run_queues victim vq' }) core_id stolen
]

pub find_work : Scheduler → ℕ → Option ℕ → Option (Option Task × Scheduler)
unfolding steal_from
find_work s core_id none = some (none, s)
find_work s core_id (some victim) = steal_from s core_id victim

-- `schedule` after `rq.pop()`: the own queue's task, or work stealing.
pub take_or_steal : Scheduler → ℕ → Option Task × RunQueue → Option (Option Task × Scheduler)
unfolding find_work
take_or_steal s core_id (some task, rq) =
    some (some task, record s { run_queues = set s.run_queues core_id rq })
take_or_steal s core_id (none, rq) =
    let s' = record s { run_queues = set s.run_queues core_id rq } in
    find_work s' core_id (busiest_core s' core_id)

-- `schedule`
unfoldable pub schedule : Scheduler → ℕ → Option (Option Task × Scheduler)
unfolding take_or_steal
schedule s core_id = elim (get_elem? s.run_queues core_id) [
  | none ↦ none
  | some rq ↦ take_or_steal s core_id (pop rq)
]

-- `block_current`
unfoldable pub block_current : Scheduler → ℕ → Option (Option Task × Scheduler)
block_current s core_id = schedule s core_id

-- `wake`
unfoldable pub wake : Scheduler → Task → ℕ → Option Scheduler
unfolding push_on
wake s task target_core = push_on s target_core (set_state task ready)

-- `preempt_current`
unfoldable pub preempt_current : Scheduler → ℕ → Task → Option Scheduler
unfolding push_on
preempt_current s core_id task = push_on s core_id (set_state task ready)

-- `Iterator::sum` over u64 with the overflow checks of the build.
pub sum_from : Profile → ℕ → List ℕ → Option ℕ
sum_from p acc [] = some acc
sum_from p acc (x ∷ xs) = elim (add_word p 64 acc x) [
  | none ↦ none
  | some acc' ↦ sum_from p acc' xs
]

-- `queue_lengths`
unfoldable pub queue_lengths : Scheduler → List ℕ
queue_lengths s = map len s.run_queues

-- `total_queued`
unfoldable pub total_queued : Profile → Scheduler → Option ℕ
unfolding sum_from
total_queued p s = sum_from p 0 (map len s.run_queues)
