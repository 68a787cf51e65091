-- ===== src/Scheduler/Refinement.antt =====
-- Every sequence of calls of the scheduler does what its bag of tasks promises.
use mathlib.Core.Quot
use smp_nostd.Base.{
  ℕ, ◌+◌, ◌^◌, ◌≤◌, ◌<◌, ◌≡◌, ◌∙◌, refl, sym, ap, subst, Option, none, some, ◌>>=◌, List, [], ◌∷◌,
  ◌++◌, length, count-true, set, SameItems, true, arith,
}
use smp_nostd.Task.{Task, set_state, ready}
use smp_nostd.Scheduler.{
  Scheduler, spawn, spawn_on_core, wake, preempt_current, schedule, block_current,
}
use smp_nostd.Scheduler.Contents.{held, Inv}
use smp_nostd.Scheduler.Stealing.{with_queue}
use smp_nostd.Scheduler.Conserve.{Conserved, returned, schedule-Conserved}
use smp_nostd.Scheduler.Spawning.{Enqueued, InRange, spawn-Enqueued, requeue-Enqueued}
use smp_nostd.Scheduler.Service.{
  Bag, bag, insert, Call, spawning, spawning_on, waking, preempting, scheduling, blocking, incoming,
  Served, put, give, pass, Serves, stop, next,
}

abbrev pub queued : Option Scheduler → Option (Option Task × Scheduler)
queued none = none
queued (some s) = some (none, s)

-- The call on the scheduler, with the task that it returns, if any.
unfoldable pub step : Scheduler → Call → Option (Option Task × Scheduler)
step s (spawning t) = queued (spawn s t)
step s (spawning_on core_id t) = queued (spawn_on_core s core_id t)
step s (waking t target_core) = queued (wake s t target_core)
step s (preempting core_id t) = queued (preempt_current s core_id t)
step s (scheduling core_id) = schedule s core_id
step s (blocking core_id) = block_current s core_id

unfoldable pub run : Scheduler → List Call → Option (List (Option Task) × Scheduler)
unfolding step
run s [] = some ([], s)
run s (c ∷ cs) = step s c >>= λ (out, s'). run s' cs >>= λ (outs, s''). some (out ∷ outs, s'')

-- Of `n` cores there is one that a task with this affinity can go to.
abbrev pub Placeable : ℕ → Option ℕ → Type 0
Placeable n none = 0 < n
Placeable n (some pinned) = pinned < n

-- The cores that a call names exist, of `n` in all.
abbrev pub Permitted : ℕ → Call → Type 0
Permitted n (spawning t) = Placeable n t.affinity
Permitted n (spawning_on core_id t) = core_id < n
Permitted n (waking t target_core) = target_core < n
Permitted n (preempting core_id t) = core_id < n
Permitted n (scheduling core_id) = core_id < n
Permitted n (blocking core_id) = core_id < n

abbrev pub AllPermitted : ℕ → List Call → Type 0
AllPermitted n [] = Unit {0}
AllPermitted n (c ∷ cs) = Permitted n c × AllPermitted n cs

-- What one call does to a valid scheduler, and to its bag.
pub record Refined (s : Scheduler) (c : Call) : Type 0 where
  pub out : Option Task
  pub after : Scheduler
  pub result : step s c ≡ some (out, after)
  pub inv : Inv after
  pub cores : after.num_cores ≡ s.num_cores
  pub longer : length (held after.run_queues) ≤ length (held s.run_queues) + 1
  served : Served (bag s) c out (bag after)

Enqueued-Refined :
    (s : Scheduler) (c : Call) (core : ℕ) (t : Task) (r : Option Scheduler)
    → Enqueued s core t r
    → step s c ≡ queued r
    → incoming c ≡ some t
    → Refined s c
unfolding insert
Enqueued-Refined s c core t r e called brought = record {
  out = none;
  after = with_queue s core e.longer;
  result = called ∙ ap queued e.result;
  inv = e.inv;
  cores = refl;
  longer = omega (
    arith,
    e.same (λ _. true),
    count-true (held (set s.run_queues core e.longer)),
    count-true (held s.run_queues),
  );
  served = subst (λ (b : Bag). Served (bag s) c none b) (sym (Quot.sound e.same)) (put brought);
}

Conserved-Refined :
    (s : Scheduler) (c : Call) (r : Option (Option Task × Scheduler))
    → (k : Conserved s r) → step s c ≡ r
    → incoming c ≡ none
    → Refined s c
unfolding insert
Conserved-Refined s c r k called asked = record {
  out = k.task;
  after = k.after;
  result = called ∙ k.result;
  inv = k.inv;
  cores = k.cores;
  longer = shorter k.task k.same;
  served = served k.task k.same;
}
  where
    shorter :
        (out : Option Task)
        → SameItems (returned out ++ held k.after.run_queues) (held s.run_queues)
        → length (held k.after.run_queues) ≤ length (held s.run_queues) + 1
    shorter none same = omega (
      arith,
      same (λ _. true),
      count-true (held k.after.run_queues),
      count-true (held s.run_queues),
    )
    shorter (some t) same = omega (
      arith,
      same (λ _. true),
      count-true (held k.after.run_queues),
      count-true (held s.run_queues),
    )

    served :
        (out : Option Task)
        → SameItems (returned out ++ held k.after.run_queues) (held s.run_queues)
        → Served (bag s) c out (bag k.after)
    served none same =
        subst (λ (b : Bag). Served b c none (bag k.after)) (Quot.sound same) (pass asked)
    served (some t) same =
        subst (λ (b : Bag). Served b c (some t) (bag k.after)) (Quot.sound same) (give asked)

pub Placeable-InRange : (s : Scheduler) (o : Option ℕ) → Placeable s.num_cores o → InRange s o
Placeable-InRange s none h = h
Placeable-InRange s (some pinned) h = h

pub step-Refined :
    (s : Scheduler) (c : Call)
    → Inv s
    → length (held s.run_queues) + 1 < 2 ^ 64
    → Permitted s.num_cores c
    → Refined s c
unfolding step block_current
step-Refined s (spawning t) inv room h =
    let (core, chosen, e) = spawn-Enqueued s t inv room (Placeable-InRange s t.affinity h) in
    Enqueued-Refined s (spawning t) core t (spawn s t) e refl refl
step-Refined s (spawning_on core t) inv room h =
    Enqueued-Refined s (spawning_on core t) core t (spawn_on_core s core t)
      (requeue-Enqueued s t core inv room h).3 refl refl
step-Refined s (waking t core) inv room h =
    Enqueued-Refined s (waking t core) core (set_state t ready) (wake s t core)
      (requeue-Enqueued s t core inv room h).1 refl refl
step-Refined s (preempting core t) inv room h =
    Enqueued-Refined s (preempting core t) core (set_state t ready) (preempt_current s core t)
      (requeue-Enqueued s t core inv room h).2 refl refl
step-Refined s (scheduling core) inv room h =
    Conserved-Refined s (scheduling core) (schedule s core) (schedule-Conserved s core inv h) refl
      refl
step-Refined s (blocking core) inv room h =
    Conserved-Refined s (blocking core) (schedule s core) (schedule-Conserved s core inv h) refl
      refl

-- Any sequence of calls on a valid scheduler that name existing cores, and that cannot fill the 64-bit
-- counters, returns without a panic and leaves a valid scheduler. What the calls return, and the bag of
-- the tasks that are queued in the end, are what the bag of the first ones gives: a task that comes in
-- is put in it, and a request for one takes one out of it and returns it, or returns none.
pub run-Serves :
    (s : Scheduler) (cs : List Call)
    → Inv s
    → length (held s.run_queues) + length cs < 2 ^ 64
    → AllPermitted s.num_cores cs
    → (outs : List (Option Task)) × (s' : Scheduler) × (run s cs ≡ some (outs, s'))
      × Inv s'
      × Serves (bag s) cs outs (bag s')
unfolding run
run-Serves s [] inv room h = ([], s, refl, inv, stop)
run-Serves s (c ∷ cs) inv room (h, hs) =
    let r = step-Refined s c inv (omega arith) h in
    let (outs, s', runs, inv', serves) =
      run-Serves r.after cs r.inv (omega (arith, r.longer))
        (subst (λ (n : ℕ). AllPermitted n cs) (sym r.cores) hs) in
    (r.out ∷ outs, s', rw (r.result, runs) refl, inv', next r.served serves)
