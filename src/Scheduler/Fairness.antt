-- ===== src/Scheduler/Fairness.antt =====
-- src/scheduler.rs: no task waits for ever, where every core goes on asking for tasks.
use smp_nostd.Base.{
  ℕ, suc, ◌+◌, ◌^◌, ◌<◌, ◌≡◌, ◌⊎◌, inl, inr, refl, sym, ap, subst, ◌∙◌, Bool, true, false, ◌||◌,
  Option, none, some, List, [], ◌∷◌, ◌++◌, length, get_elem?, get_elem?-lt, arith, ◌==◌, ℕ_discrete,
}
use mathlib.Core.Option.{some-injective}
use smp_nostd.Task.{Task, set_state, ready}
use smp_nostd.Scheduler.{Scheduler, spawn, spawn_on_core, wake, preempt_current, block_current}
use smp_nostd.Scheduler.Contents.{held, Inv}
use smp_nostd.Scheduler.Stealing.{with_queue}
use smp_nostd.Scheduler.Spawning.{Enqueued, spawn-Enqueued, requeue-Enqueued}
use smp_nostd.Scheduler.Service.{
  Call, spawning, spawning_on, waking, preempting, scheduling, blocking,
}
use smp_nostd.Scheduler.Refinement.{
  queued, step, run, Permitted, AllPermitted, Placeable-InRange, Refined, step-Refined, run-Serves,
}
use smp_nostd.Scheduler.Progress.{QueuedAt, Advanced, schedule-Advanced, Enqueued-Advanced}

-- Whether a call, and one of several calls, asks for a task on the core.
abbrev pub asks : (core : ℕ) → Call → Bool
asks core (scheduling c) = core == c
asks core (blocking c) = core == c
asks core call = false

abbrev pub asked : (core : ℕ) → List Call → Bool
asked core [] = false
asked core (c ∷ cs) = asks core c || asked core cs

-- `k` rounds, one after the other: in each of them each of `n` cores asks for a task at least once, among other
-- calls and in any order.
pub data Rounds (n : ℕ) : ℕ → List Call → Type 0 where
  enough : {cs : List Call} → Rounds n 0 cs
  round :
      {k : ℕ} (first : List Call) {rest : List Call}
      → ((core : ℕ) → core < n → asked core first ≡ true)
      → Rounds n k rest
      → Rounds n (suc k) (first ++ rest)

Enqueued-step :
    (s : Scheduler) (call : Call) (c : ℕ) (added : Task) (r : Option Scheduler)
    → Enqueued s c added r
    → step s call ≡ queued r
    → (core i : ℕ) {t : Task} → QueuedAt s core i t
    → asks core call ≡ false
    → (out : Option Task) × (s' : Scheduler) × (step s call ≡ some (out, s'))
      × Advanced core i t (asks core call) out s'
Enqueued-step s call c added r e called core i there other = (
  none,
  with_queue s c e.longer,
  called ∙ ap queued e.result,
  inr (core, i, Enqueued-Advanced s c added r e core i there, inr (refl, refl, other)),
)

step-Advanced :
    (s : Scheduler) (call : Call)
    → Inv s
    → length (held s.run_queues) + 1 < 2 ^ 64
    → Permitted s.num_cores call
    → (core i : ℕ) {t : Task} → QueuedAt s core i t
    → (out : Option Task) × (s' : Scheduler) × (step s call ≡ some (out, s'))
      × Advanced core i t (asks core call) out s'
unfolding step block_current
step-Advanced s (spawning a) inv room h core i there =
    let (c, chosen, e) = spawn-Enqueued s a inv room (Placeable-InRange s a.affinity h) in
    Enqueued-step s (spawning a) c a (spawn s a) e refl core i there refl
step-Advanced s (spawning_on c a) inv room h core i there =
    Enqueued-step s (spawning_on c a) c a (spawn_on_core s c a)
      (requeue-Enqueued s a c inv room h).3 refl core i there refl
step-Advanced s (waking a c) inv room h core i there =
    Enqueued-step s (waking a c) c (set_state a ready) (wake s a c)
      (requeue-Enqueued s a c inv room h).1 refl core i there refl
step-Advanced s (preempting c a) inv room h core i there =
    Enqueued-step s (preempting c a) c (set_state a ready) (preempt_current s c a)
      (requeue-Enqueued s a c inv room h).2 refl core i there refl
step-Advanced s (scheduling c) inv room h core i there = schedule-Advanced s c inv h core i there
step-Advanced s (blocking c) inv room h core i there = schedule-Advanced s c inv h core i there

-- The calls return, and one of them returns `t`.
abbrev pub Returned : Scheduler → List Call → Task → Type 0
Returned s cs t =
    (outs : List (Option Task)) × (s' : Scheduler) × (run s cs ≡ some (outs, s'))
    × Inv s'
    × (j : ℕ) × (get_elem? outs j ≡ some (some t))

step-Returned :
    (s : Scheduler) (c : Call) (cs : List Call) (t : Task) (out : Option Task) (s' : Scheduler)
    → step s c ≡ some (out, s')
    → Returned s' cs t
    → Returned s (c ∷ cs) t
unfolding run
step-Returned s c cs t out s' called (outs, s'', runs, inv, j, there) =
    (out ∷ outs, s'', rw (called, runs) refl, inv, suc j, there)

now-Returned :
    (s : Scheduler) (c : Call) (cs : List Call) (t : Task) (out : Option Task) (s' : Scheduler)
    → step s c ≡ some (out, s')
    → out ≡ some t
    → Inv s'
    → length (held s'.run_queues) + length cs < 2 ^ 64
    → AllPermitted s'.num_cores cs
    → Returned s (c ∷ cs) t
unfolding run
now-Returned s c cs t out s' called same inv room permitted =
    let (outs, s'', runs, inv', serves) = run-Serves s' cs inv room permitted in
    (out ∷ outs, s'', rw (called, runs) refl, inv', 0, ap some same)

-- Both views of one call.
advance :
    (s : Scheduler) (call : Call)
    → Inv s
    → length (held s.run_queues) + 1 < 2 ^ 64
    → Permitted s.num_cores call
    → (core i : ℕ) {t : Task} → QueuedAt s core i t
    → (r : Refined s call) × Advanced core i t (asks core call) r.out r.after
advance s call inv room h core i {t} there =
    let r = step-Refined s call inv room h in
    let (out, s', called, moved) = step-Advanced s call inv room h core i there in
    let same : (out, s') ≡ (r.out, r.after) =
      some-injective (out, s') (r.out, r.after) (sym called ∙ r.result) in
    (
      r,
      subst (λ (p : Option Task × Scheduler). Advanced core i t (asks core call) p.0 p.1) same
          moved,
    )

-- The task is nearer to the front than `k`, or at `k` with its core yet to ask.
abbrev Pending : (core i k : ℕ) → List Call → Type 0
Pending core i k cs = (i < k) ⊎ ((i ≡ k) × (asked core cs ≡ true))

Nearer-Pending :
    {core core' i i' k : ℕ} (c : Call) (cs : List Call)
    → (i' < i) ⊎ ((core' ≡ core) × (i' ≡ i) × (asks core c ≡ false))
    → Pending core i k (c ∷ cs)
    → Pending core' i' k cs
Nearer-Pending c cs (inl less) (inl near) = inl (omega arith)
Nearer-Pending c cs (inl less) (inr (at, asking)) = inl (omega arith)
Nearer-Pending c cs (inr (same, still, other)) (inl near) = inl (omega arith)
Nearer-Pending {core} {core'} {i} {i'} {k} c cs (inr (same, still, other)) (inr (at, asking)) =
    inr (
      omega arith,
      ap (λ (m : ℕ). asked m cs) same ∙ ap (λ (b : Bool). b || asked core cs) (sym other) ∙ asking,
    )

-- What is left to do after the calls of a round.
abbrev Onwards : (n k : ℕ) → Task → List Call → Type 0
Onwards n k t rest =
    (s : Scheduler) (core i : ℕ)
    → Inv s
    → s.num_cores ≡ n
    → length (held s.run_queues) + length rest < 2 ^ 64
    → AllPermitted n rest
    → QueuedAt s core i t
    → i < k
    → Returned s rest t

through :
    (s : Scheduler) (n k core i : ℕ) (t : Task) (first rest : List Call)
    → Inv s
    → s.num_cores ≡ n
    → length (held s.run_queues) + length (first ++ rest) < 2 ^ 64
    → AllPermitted n (first ++ rest)
    → QueuedAt s core i t
    → Pending core i k first
    → Onwards n k t rest
    → Returned s (first ++ rest) t
through s n k core i t [] rest inv cores room permitted there (inl near) onwards =
    onwards s core i inv cores room permitted there near
through s n k core i t [] rest inv cores room permitted there (inr (at, asking)) onwards = cc
through s n k core i t (c ∷ cs) rest inv cores room (h, hs) there pending onwards =
    let (r, moved) =
      advance s c inv (omega arith) (subst (λ (m : ℕ). Permitted m c) (sym cores) h) core i there in
    elim moved [
      | inl out ↦
          now-Returned s c (cs ++ rest) t r.out r.after r.result out r.inv (omega (arith, r.longer))
            (subst (λ (m : ℕ). AllPermitted m (cs ++ rest)) (sym (r.cores ∙ cores)) hs)
      | inr (core', i', there', nearer) ↦ step-Returned s c (cs ++ rest) t r.out r.after r.result (
          through r.after n k core' i' t cs rest r.inv (r.cores ∙ cores) (omega (arith, r.longer))
            hs there' (Nearer-Pending c cs nearer pending) onwards)
    ]

Rounds-Onwards : (n k : ℕ) (t : Task) (cs : List Call) → Rounds n k cs → Onwards n k t cs
Rounds-Onwards n k t cs enough s core i inv cores room permitted there near = elim near [ ]
Rounds-Onwards n k t cs (round {k = k'} first {rest = rest} all more) s core i inv cores room
      permitted (q, at, here) near =
    through s n k' core i t first rest inv cores room permitted (q, at, here) pending
      (Rounds-Onwards n k' t rest more)
  where
    exists : core < n
    exists = omega (arith, get_elem?-lt s.run_queues core at, inv.cores)

    pending : Pending core i k' first
    pending = elim (ℕ_discrete i k') [
      | yes last ↦ inr (last, all core exists)
      | no other ↦ inl (omega arith)
    ]

-- Where the calls have `k` rounds, one after the other, and in each of them every core asks for a task at
-- least once, among any other calls, a task that waits at a position below `k` of a queue is returned by
-- one of the calls. The scheduler is valid, the calls name existing cores, and they cannot fill the 64-bit
-- counters.
pub run-Returned :
    (s : Scheduler) (k core i : ℕ) (t : Task) (cs : List Call)
    → Inv s
    → length (held s.run_queues) + length cs < 2 ^ 64
    → AllPermitted s.num_cores cs
    → Rounds s.num_cores k cs
    → QueuedAt s core i t
    → i < k
    → Returned s cs t
run-Returned s k core i t cs inv room permitted rounds there near =
    Rounds-Onwards s.num_cores k t cs rounds s core i inv refl room permitted there near
