-- ===== src/Scheduler/Interleaved.antt =====
-- src/scheduler.rs: calls on several processors at once. A move is one critical section of a run queue
-- or a step between two; `busiest_core` reads the lengths one by one without the locks, while they
-- change, so that it may return any other core or none.
pub mod Conserve
use smp_nostd.Base.{ℕ, ◌≡◌, ◌≢◌, Option, none, some, List, [], ◌∷◌, ◌++◌, get_elem?, set}
use smp_nostd.Task.{Task, set_state, ready}
use smp_nostd.RunQueue.{RunQueue, push, pop, steal_half}

-- Where a processor stands, with the tasks that it has: running, blocked or not yet spawned.
pub data Pc : Type 0 where
  outside : (ts : List Task) → Pc  -- no call
  scanning : (core_id : ℕ) (ts : List Task) → Pc  -- in `busiest_core`, the own queue was empty
  robbing : (core_id victim : ℕ) (ts : List Task) → Pc  -- before `steal_half`
  delivering : (core_id : ℕ) (first : Task) (others ts : List Task) → Pc  -- the loop over the stolen tasks

abbrev pub hand : Pc → List Task
hand (outside ts) = ts
hand (scanning core_id ts) = ts
hand (robbing core_id victim ts) = ts
hand (delivering core_id first others ts) = first ∷ others ++ ts

pub data Move (qs : List RunQueue) : Pc → List RunQueue → Pc → Type 0 where
  -- `spawn` and `spawn_on_core`
  enqueue :
      (core : ℕ) (q : RunQueue) (before after : List Task) (t : Task)
      → get_elem? qs core ≡ some q
      → Move qs (outside (before ++ t ∷ after)) (set qs core (push q t)) (outside (before ++ after))
  -- `wake` and `preempt_current`
  requeue :
      (core : ℕ) (q : RunQueue) (before after : List Task) (t : Task)
      → get_elem? qs core ≡ some q
      → Move qs
          (outside (before ++ t ∷ after))
          (set qs core (push q (set_state t ready)))
          (outside (before ++ after))
  -- `schedule`
  take :
      (core : ℕ) (q q' : RunQueue) {t : Task} {ts : List Task}
      → get_elem? qs core ≡ some q
      → pop q ≡ (some t, q')
      → Move qs (outside ts) (set qs core q') (outside (t ∷ ts))
  miss :
      {core : ℕ} (q q' : RunQueue) {ts : List Task}
      → get_elem? qs core ≡ some q
      → pop q ≡ (none, q')
      → Move qs (outside ts) (set qs core q') (scanning core ts)
  give_up : {core : ℕ} {ts : List Task} → Move qs (scanning core ts) qs (outside ts)
  choose :
      {core victim : ℕ} {ts : List Task}
      → victim ≢ core
      → Move qs (scanning core ts) qs (robbing core victim ts)
  rob_nothing :
      {core victim : ℕ} (q q' : RunQueue) {ts : List Task}
      → get_elem? qs victim ≡ some q
      → steal_half q ≡ ([], q')
      → Move qs (robbing core victim ts) (set qs victim q') (outside ts)
  rob :
      {core victim : ℕ} (q q' : RunQueue) {first : Task} {others ts : List Task}
      → get_elem? qs victim ≡ some q
      → steal_half q ≡ (first ∷ others, q')
      → Move qs (robbing core victim ts) (set qs victim q') (delivering core first others ts)
  keep :
      {core : ℕ} (q : RunQueue) {first t : Task} {others ts : List Task}
      → get_elem? qs core ≡ some q
      → Move qs
          (delivering core first (t ∷ others) ts)
          (set qs core (push q t))
          (delivering core first others ts)
  finish :
      {core : ℕ} {first : Task} {ts : List Task}
      → Move qs (delivering core first [] ts) qs (outside (first ∷ ts))
