-- ===== src/Scheduler/Idle.antt =====
-- When a core stays idle, and what stealing does to pinned tasks.
use mathlib.Core.List.{reverse-append}
use smp_nostd.Base.{
  ℕ, zero, suc, ◌≤◌, ◌≡◌, ◌≢◌, ◌↔◌, refl, subst, ◌∙◌, ap, Option, none, some, List, [], ◌∷◌, ◌++◌,
  reverse, length, length-append, drop, get_elem?, arith,
}
use smp_nostd.Task.{Task}
use smp_nostd.RunQueue.{RunQueue, len}
use smp_nostd.RunQueue.Laws.{steal_half-splits, kept}
use smp_nostd.Scheduler.{Scheduler, busiest_core, schedule}
use smp_nostd.Scheduler.Contents.{Inv}
use smp_nostd.Scheduler.Placement.{Victim}
use smp_nostd.Scheduler.Stealing.{
  Raid, Robbed, Outcome, own_task, nothing, raided, schedule-Outcome_at,
}

Outcome-idle :
    {s : Scheduler} {core_id : ℕ} {own : RunQueue} {r : Option (Option Task × Scheduler)}
    → Outcome s core_id own r
    → r ≡ some (none, s)
    → (own.queue ≡ []) × Victim s core_id none
Outcome-idle (own_task t q e v res) h = cc
Outcome-idle (nothing empty found v res) h = (empty, v)
Outcome-idle (raided victim vq found v raid b res) h = let e = b.result in cc

idle-Outcome :
    {s : Scheduler} {core_id : ℕ} {own : RunQueue} {r : Option (Option Task × Scheduler)}
    → Outcome s core_id own r
    → own.queue ≡ []
    → Victim s core_id none
    → r ≡ some (none, s)
idle-Outcome (own_task t q e v res) empty few = cc
idle-Outcome (nothing empty' found v res) empty few = res
idle-Outcome (raided victim vq found v raid b res) empty few =
    absurd (omega (arith, raid.spare, few victim vq raid.victim_at raid.distinct))

-- A core of a valid scheduler finds nothing to run exactly when its own queue is empty and every
-- other queue holds at most one task.
pub schedule-idle_iff :
    (s : Scheduler) (core_id : ℕ) (own : RunQueue)
    → Inv s
    → get_elem? s.run_queues core_id ≡ some own
    → (schedule s core_id ≡ some (none, s)) ↔ ((own.queue ≡ []) × Victim s core_id none)
schedule-idle_iff s core_id own inv at = (
  Outcome-idle (schedule-Outcome_at s core_id own inv at),
  λ h. idle-Outcome (schedule-Outcome_at s core_id own inv at) h.0 h.1,
)

drop-snoc :
    (k : ℕ) (ts : List Task) (t : Task)
    → k ≤ length ts
    → drop k (ts ++ t ∷ []) ≡ drop k ts ++ t ∷ []
drop-snoc zero ts t h = refl
drop-snoc (suc k) [] t h = elim h [ ]
drop-snoc (suc k) (x ∷ ts) t h = drop-snoc k ts t (omega arith)

-- The first task that a raid takes is the last of the victim's queue.
Robbed-last :
    {s : Scheduler} {core_id victim : ℕ} {own vq : RunQueue} (ts : List Task) (t : Task)
    → Raid s core_id victim own vq
    → (b : Robbed s core_id victim own vq) → vq.queue ≡ ts ++ t ∷ []
    → b.first ≡ t
unfolding len
Robbed-last {vq = vq} ts t raid b e = cc ((steal_half-splits vq raid.valid).0, b.taken, last_first)
  where
    last_first : reverse (drop (kept vq) vq.queue) ≡ t ∷ reverse (drop (kept vq) ts)
    last_first =
        ap (λ (l : List Task). reverse (drop (kept vq) l)) e
        ∙ ap reverse (
            drop-snoc (kept vq) ts t (
              omega
                (arith, ap length e, length-append ts (t ∷ []), raid.valid.counted, raid.spare)))
        ∙ reverse-append (drop (kept vq) ts) (t ∷ [])

Outcome-last :
    {s : Scheduler} {core_id victim : ℕ} {own vq : RunQueue} {r : Option (Option Task × Scheduler)}
    (ts : List Task) (t : Task)
    → Outcome s core_id own r
    → own.queue ≡ []
    → busiest_core s core_id ≡ some victim
    → get_elem? s.run_queues victim ≡ some vq
    → vq.queue ≡ ts ++ t ∷ []
    → (s' : Scheduler) × (r ≡ some (some t, s'))
Outcome-last ts t (own_task t' q e v res) empty found vat last = cc
Outcome-last ts t (nothing empty' found' v res) empty found vat last = cc
Outcome-last {r = r} ts t (raided victim' vq' found' v raid b res) empty found vat last =
    subst (λ x. (s' : Scheduler) × (r ≡ some (some x, s')))
      (Robbed-last ts t raid b (cc raid.victim_at)) (_, res ∙ b.result)

-- A core runs only tasks that may run there: those with no affinity, or with its own index.
abbrev pub RespectsAffinity : Scheduler → ℕ → Type 0
RespectsAffinity s core_id =
    (t : Task) (s' : Scheduler) (pinned : ℕ)
    → schedule s core_id ≡ some (some t, s')
    → t.affinity ≡ some pinned
    → pinned ≡ core_id

-- Whenever a core of a valid scheduler has an empty queue and the last task of the busiest other
-- queue is pinned to a different core, `schedule` runs that task against its affinity.
pub schedule-not-RespectsAffinity :
    (s : Scheduler) (core_id victim pinned : ℕ) (own vq : RunQueue) (ts : List Task) (t : Task)
    → Inv s
    → get_elem? s.run_queues core_id ≡ some own
    → own.queue ≡ []
    → busiest_core s core_id ≡ some victim
    → get_elem? s.run_queues victim ≡ some vq
    → vq.queue ≡ ts ++ t ∷ []
    → t.affinity ≡ some pinned
    → pinned ≢ core_id
    → ¬ RespectsAffinity s core_id
schedule-not-RespectsAffinity s core_id victim pinned own vq ts t inv at empty found vat last tied
      away respects =
    let (s', runs) =
      Outcome-last ts t (schedule-Outcome_at s core_id own inv at) empty found vat last in
    away (respects t s' pinned runs tied)
