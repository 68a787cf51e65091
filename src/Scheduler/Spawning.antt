-- ===== src/Scheduler/Spawning.antt =====
-- `spawn`, `spawn_on_core`, `wake` and `preempt_current`: where the task goes, and when they panic.
use smp_nostd.Base.{
  ℕ, ◌+◌, ◌^◌, ◌≤◌, ◌<◌, ◌≡◌, refl, sym, ◌∙◌, ap, subst, inl, inr, Option, none, some, [], ◌∷◌,
  ◌++◌, length, length-append, count, count-append, SameItems, get_elem?, get_elem?-some,
  get_elem?-lt, set, arith, if◌then◌else◌, Option-cases, lt→ltb,
}
use smp_nostd.Task.{Task, get_state, set_state, ready}
use smp_nostd.Task.Creation.{get_state-set_state}
use smp_nostd.RunQueue.{RunQueue, len, push}
use smp_nostd.RunQueue.Laws.{IsValid, push-IsValid}
use smp_nostd.Scheduler.{
  Scheduler, push_on, target_core, least_loaded_core, spawn, spawn_on_core, wake, preempt_current,
}
use smp_nostd.Scheduler.Contents.{held, Inv, count-held-set, length-queue-le}
use smp_nostd.Scheduler.Placement.{least_loaded_core-least}
use smp_nostd.Scheduler.Stealing.{with_queue}
use smp_nostd.Scheduler.Conserve.{with_queue-Inv}

-- `t` has been put at the back of the queue of `core`, and nothing else has changed.
pub record Enqueued (s : Scheduler) (core : ℕ) (t : Task) (r : Option Scheduler) : Type 0 where
  pub queue : RunQueue
  pub longer : RunQueue
  pub at : get_elem? s.run_queues core ≡ some queue
  pub result : r ≡ some (with_queue s core longer)
  pub appended : longer.queue ≡ queue.queue ++ t ∷ []
  pub inv : Inv (with_queue s core longer)
  pub same : SameItems (held (set s.run_queues core longer)) (t ∷ held s.run_queues)

-- One more task fits the 64-bit counters.
abbrev pub HasRoom : Scheduler → Type 0
HasRoom s = length (held s.run_queues) + 1 < 2 ^ 64

push_on-Enqueued :
    (s : Scheduler) (core : ℕ) (t : Task)
    → Inv s
    → HasRoom s
    → core < s.num_cores
    → Enqueued s core t (push_on s core t)
unfolding push_on
push_on-Enqueued s core t inv room h =
    let (q, at) = get_elem?-some s.run_queues core (omega (arith, inv.cores)) in
    let (v, e) =
      push-IsValid q t (inv.valid core q at)
        (omega (arith, length-queue-le s.run_queues core q at)) in
    record {
      queue = q;
      longer = push q t;
      at = at;
      result = rw (at, push_on);
      appended = e;
      inv =
          with_queue-Inv core inv at v (omega (arith, ap length e, length-append q.queue (t ∷ [])));
      same = λ p. omega (
        arith,
        count-held-set p s.run_queues core q (push q t) at,
        ap (count p) e,
        count-append p q.queue (t ∷ []),
      );
    }

push_on-none :
    (s : Scheduler) (core : ℕ) (t : Task) → Inv s → s.num_cores ≤ core → push_on s core t ≡ none
unfolding push_on
push_on-none s core t inv h = elim (Option-cases (get_elem? s.run_queues core)) [
  | inl e ↦ rw (e, push_on)
  | inr (q, e) ↦ absurd (omega (arith, get_elem?-lt s.run_queues core e, inv.cores))
]

-- The core that `spawn` has to choose: the one that the task is pinned to, or else the first of
-- those with the fewest queued tasks.
abbrev pub Chosen : Scheduler → Option ℕ → ℕ → Type 0
Chosen s (some pinned) core = core ≡ pinned
Chosen s none core =
    (b : RunQueue) × (get_elem? s.run_queues core ≡ some b)
    × ((j : ℕ) (q : RunQueue)
        → get_elem? s.run_queues j ≡ some q
        → (length b.queue ≤ length q.queue) × (j < core → length b.queue < length q.queue))

-- The affinity, if there is one, names a core.
abbrev pub InRange : Scheduler → Option ℕ → Type 0
InRange s none = 0 < s.num_cores
InRange s (some pinned) = pinned < s.num_cores

-- Counters compare as the queues do.
compare_queues :
    {b q : RunQueue} {Before : Type 0}
    → IsValid b
    → IsValid q
    → (len b ≤ len q) × (Before → len b < len q)
    → (length b.queue ≤ length q.queue) × (Before → length b.queue < length q.queue)
unfolding len
compare_queues vb vq (le, lt) =
    (omega (arith, vb.counted, vq.counted), λ x. omega (arith, vb.counted, vq.counted, lt x))

target_core-Chosen :
    (s : Scheduler) (o : Option ℕ)
    → Inv s
    → HasRoom s
    → InRange s o
    → Chosen s o (target_core s o) × (target_core s o < s.num_cores)
unfolding target_core len
target_core-Chosen s (some pinned) inv room h = (refl, h)
target_core-Chosen s none inv room h =
    let (b, at, least) =
      least_loaded_core-least s (omega (arith, inv.cores)) (omega (arith, inv.cores, inv.few))
        (λ j q at.
          omega (arith, (inv.valid j q at).counted, length-queue-le s.run_queues j q at)) in
    (
      (b, at, λ j q at'. compare_queues (inv.valid _ b at) (inv.valid j q at') (least j q at')),
      omega (arith, get_elem?-lt s.run_queues (least_loaded_core s) at, inv.cores),
    )

-- On a valid scheduler with room for one more task, `spawn` of a task whose affinity, if any, names a
-- core (and on at least one core) does not panic: it puts the task at the back of the queue of the
-- core that it is pinned to, or of the first of those with the fewest tasks, and changes nothing else.
pub spawn-Enqueued :
    (s : Scheduler) (t : Task)
    → Inv s
    → HasRoom s
    → InRange s t.affinity
    → (core : ℕ) × Chosen s t.affinity core × Enqueued s core t (spawn s t)
unfolding spawn
spawn-Enqueued s t inv room h =
    let (chosen, lt) = target_core-Chosen s t.affinity inv room h in
    (target_core s t.affinity, chosen, push_on-Enqueued s (target_core s t.affinity) t inv room lt)

-- A valid scheduler panics in `spawn` on a task that is pinned to a core that does not exist, and in
-- `wake`, `preempt_current` and `spawn_on_core` for such a core, whatever the task.
pub out_of_range-none :
    (s : Scheduler) (t : Task) (core : ℕ)
    → Inv s
    → s.num_cores ≤ core
    → (t.affinity ≡ some core → spawn s t ≡ none)
      × (wake s t core ≡ none)
      × (preempt_current s core t ≡ none)
      × (spawn_on_core s core t ≡ none)
unfolding spawn wake preempt_current spawn_on_core
out_of_range-none s t core inv h = (
  λ e. ap (λ o. push_on s (target_core s o) t) e ∙ push_on-none s core t inv h,
  push_on-none s core _ inv h,
  push_on-none s core _ inv h,
  ground (arith, push_on-none s core t inv h),
)

-- On a valid scheduler with room, `wake`, `preempt_current` and `spawn_on_core` for a core that exists
-- put the task at the back of that core's queue, the first two after marking it ready, and change
-- nothing else; no call looks at the affinity.
pub requeue-Enqueued :
    (s : Scheduler) (t : Task) (core : ℕ)
    → Inv s
    → HasRoom s
    → core < s.num_cores
    → (get_state (set_state t ready) ≡ ready)
      × Enqueued s core (set_state t ready) (wake s t core)
      × Enqueued s core (set_state t ready) (preempt_current s core t)
      × Enqueued s core t (spawn_on_core s core t)
unfolding wake preempt_current spawn_on_core
requeue-Enqueued s t core inv room h = (
  (get_state-set_state t ready).0,
  push_on-Enqueued s core (set_state t ready) inv room h,
  push_on-Enqueued s core (set_state t ready) inv room h,
  subst (λ b. Enqueued s core t (if b then push_on s core t else none))
      (sym (lt→ltb core s.num_cores h)) (push_on-Enqueued s core t inv room h),
)
