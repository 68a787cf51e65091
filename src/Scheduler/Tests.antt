-- ===== src/Scheduler/Tests.antt =====
-- Three cores: the first has an empty queue, the second has two tasks, the younger of them pinned to
-- it, and the third has one.
use smp_nostd.Base.{
  ℕ, zero, suc, ◌<◌, ◌≡◌, refl, Option, none, some, List, [], ◌∷◌, ◌++◌, length, get_elem?, set,
  count, true, ℕ_discrete, u64_max, arith,
}
use smp_nostd.Task.{Task, new_task}
use smp_nostd.RunQueue.{pop, steal_half, RunQueue, len}
use smp_nostd.RunQueue.Laws.{IsValid}
use smp_nostd.Scheduler.{Scheduler, spawn, schedule, busiest_core}
use smp_nostd.Scheduler.Contents.{Inv}
use smp_nostd.Scheduler.Outcome.{Scheduled, schedule-Outcome}
use smp_nostd.Scheduler.Conserve.{Conserved, schedule-Conserved}
use smp_nostd.Scheduler.Service.{bag, Call, scheduling, waking, blocking, spawning, Serves}
use smp_nostd.Scheduler.Refinement.{run, run-Serves}
use smp_nostd.Scheduler.Fairness.{asked, Rounds, enough, round, Returned, run-Returned}
use smp_nostd.Base.Threads.{System, Reach, here, next, pick, update, weigh-zero}
use smp_nostd.Scheduler.Interleaved.{
  Pc, hand, outside, scanning, robbing, delivering, Move, miss, choose, rob,
}
use smp_nostd.Scheduler.Interleaved.Conserve.{Kept, interleaved-Kept}
use smp_nostd.Scheduler.Idle.{RespectsAffinity, schedule-not-RespectsAffinity}
use smp_nostd.Scheduler.Spawning.{Enqueued, Chosen, spawn-Enqueued}

abbrev task : ℕ → Option ℕ → Task
task i core = record {
  id = i;
  name = "worker";
  state = 0;
  context = new_task 0x400000 0x20000 i;
  stack = record { ptr = 0x10000; len = 0x10000 };
  affinity = core;
  assigned_core = none;
}

abbrev queue : ℕ → List Task → RunQueue
queue core ts = record { core_id = core; queue = ts; len = length ts }

abbrev pinned : Task
pinned = task 2 (some 1)

abbrev empty_queue : RunQueue
empty_queue = queue 0 []

abbrev long_queue : RunQueue
long_queue = queue 1 (task 1 none ∷ pinned ∷ [])

abbrev busy : Scheduler
busy = record {
  run_queues = empty_queue ∷ long_queue ∷ queue 2 (task 3 none ∷ []) ∷ [];
  current_tasks = none ∷ none ∷ none ∷ [];
  num_cores = 3;
}

busy-IsValid : (j : ℕ) (q : RunQueue) → get_elem? busy.run_queues j ≡ some q → IsValid q
busy-IsValid zero q e = ground arith
busy-IsValid (suc zero) q e = ground arith
busy-IsValid (suc (suc zero)) q e = ground arith
busy-IsValid (suc (suc (suc j))) q e = cc

busy-Inv : Inv busy
busy-Inv = record {
  cores = ground arith;
  few = ground arith;
  total = ground arith;
  valid = busy-IsValid;
}

schedule-Conserved_example : Conserved busy (schedule busy 0)
schedule-Conserved_example = schedule-Conserved busy 0 busy-Inv (omega arith)

schedule-Outcome_example :
    (own : RunQueue) × (get_elem? busy.run_queues 0 ≡ some own)
    × Scheduled busy 0 own (schedule busy 0)
schedule-Outcome_example = schedule-Outcome busy 0 busy-Inv (omega arith)

spawn-Enqueued_example :
    (core : ℕ) × Chosen busy (some 1) core × Enqueued busy core pinned (spawn busy pinned)
spawn-Enqueued_example = spawn-Enqueued busy pinned busy-Inv (ground arith) (omega arith)

busiest : busiest_core busy 0 ≡ some 1
unfolding busiest_core len
busiest = refl

schedule-not-RespectsAffinity_example : ¬ RespectsAffinity busy 0
schedule-not-RespectsAffinity_example =
    schedule-not-RespectsAffinity busy 0 1 1 empty_queue long_queue (task 1 none ∷ []) pinned
      busy-Inv refl refl busiest refl refl refl (omega arith)

busy-small : (j : ℕ) (q : RunQueue) → get_elem? busy.run_queues j ≡ some q → len q < u64_max
unfolding len
busy-small zero q e = ground arith
busy-small (suc zero) q e = ground arith
busy-small (suc (suc zero)) q e = ground arith
busy-small (suc (suc (suc j))) q e = cc

-- The first core asks for a task, one is woken on it, and it asks again.
abbrev calls : List Call
calls = scheduling 0 ∷ waking (task 4 none) 0 ∷ blocking 0 ∷ spawning pinned ∷ []

run-Serves_example :
    (outs : List (Option Task)) × (s' : Scheduler) × (run busy calls ≡ some (outs, s'))
    × Inv s'
    × Serves (bag busy) calls outs (bag s')
run-Serves_example =
    run-Serves busy calls busy-Inv (ground arith)
      (omega arith, (omega arith, (omega arith, (omega arith, tt))))

-- Every core asks once, in some order, and a task is woken among the requests.
abbrev cycle : List Call
cycle = scheduling 2 ∷ blocking 1 ∷ waking (task 4 none) 1 ∷ scheduling 0 ∷ []

cycle-asked : (core : ℕ) → core < 3 → asked core cycle ≡ true
cycle-asked zero h = refl
cycle-asked (suc zero) h = refl
cycle-asked (suc (suc zero)) h = refl
cycle-asked (suc (suc (suc core))) h = absurd (omega arith)

cycles-Rounds : Rounds 3 2 (cycle ++ cycle ++ [])
cycles-Rounds = round cycle cycle-asked (round cycle cycle-asked enough)

run-Returned_example : Returned busy (cycle ++ cycle ++ []) pinned
run-Returned_example =
    run-Returned busy 2 1 1 pinned (cycle ++ cycle ++ []) busy-Inv (ground arith)
      (
        omega arith,
        (
          omega arith,
          (
            omega arith,
            (omega arith, (omega arith, (omega arith, (omega arith, (omega arith, tt))))),
          ),
        ),
      )
      cycles-Rounds (long_queue, refl, refl) (omega arith)

-- The first of three processors finds its queue empty, and raids the second one.
abbrev start : System (List RunQueue) Pc
start = record { mem = busy.run_queues; pc = λ _. outside [] }

abbrev raided : System (List RunQueue) Pc
raided = record {
  mem = set busy.run_queues 1 (queue 1 (task 1 none ∷ []));
  pc =
      update (update (update start.pc 0 (scanning 0 [])) 0 (robbing 0 1 [])) 0
        (delivering 0 pinned [] []);
}

raid : Reach Move 3 start 3 raided
unfolding pop steal_half ℕ_discrete
raid =
    next
      (next (next here (pick 0 (omega arith) (miss empty_queue empty_queue refl refl)))
        (pick 0 (omega arith) (choose (omega arith))))
      (pick 0 (omega arith) (rob long_queue (queue 1 (task 1 none ∷ [])) refl refl))

interleaved-Kept_example : Kept 3 start raided
interleaved-Kept_example =
    interleaved-Kept busy-IsValid
      (omega (arith, weigh-zero (λ a. count (λ _. true) (hand a)) 3 start.pc (λ i. refl))) raid
