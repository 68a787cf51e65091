-- ===== src/Scheduler/Progress.antt =====
-- src/scheduler.rs: what a call of the scheduler does to the position of a task that waits in a queue.
use smp_nostd.Base.{
  ℕ, zero, suc, ◌≤◌, ◌<◌, ◌≡◌, ◌≢◌, ◌⊎◌, inl, inr, refl, sym, ap, ◌∙◌, Bool, false, Option, none,
  some, List, [], ◌∷◌, get_elem?, get_elem?-lt, get_elem?-set_self, get_elem?-set_ne, set, arith,
  ℕ_discrete, ◌==◌,
}
use smp_nostd.Task.{Task}
use smp_nostd.RunQueue.{RunQueue, steal_half}
use smp_nostd.RunQueue.Positions.{get_elem?-append, steal_half-position}
use smp_nostd.Scheduler.{Scheduler, push_all, schedule}
use smp_nostd.Scheduler.Contents.{Inv}
use smp_nostd.Scheduler.Stealing.{
  with_queue, Raid, Robbed, Outcome, own_task, nothing, raided, schedule-cases,
}
use smp_nostd.Scheduler.Conserve.{Raid-Shares}
use smp_nostd.Scheduler.Spawning.{Enqueued}

-- `t` is at position `i` of the queue of `core`.
abbrev pub QueuedAt : Scheduler → (core i : ℕ) → Task → Type 0
QueuedAt s core i t =
    (q : RunQueue) × (get_elem? s.run_queues core ≡ some q) × (get_elem? q.queue i ≡ some t)

-- After a call that returns `out`: the task is returned, is nearer to the front of a queue, or is where it
-- was, and then the call did not ask for a task on its core.
abbrev pub Nearer : (core i : ℕ) → Task → (asked : Bool) → Scheduler → Type 0
Nearer core i t asked s' =
    (core' i' : ℕ) × QueuedAt s' core' i' t
    × ((i' < i) ⊎ ((core' ≡ core) × (i' ≡ i) × (asked ≡ false)))

abbrev pub Advanced : (core i : ℕ) → Task → (asked : Bool) → Option Task → Scheduler → Type 0
Advanced core i t asked out s' = (out ≡ some t) ⊎ Nearer core i t asked s'

module _ (s : Scheduler) (c : ℕ) (q : RunQueue) (at : get_elem? s.run_queues c ≡ some q) where
  pub QueuedAt-set_self :
      (q' : RunQueue) (i : ℕ) {t : Task}
      → get_elem? q'.queue i ≡ some t
      → QueuedAt (with_queue s c q') c i t
  QueuedAt-set_self q' i there =
      (q', get_elem?-set_self s.run_queues c q' (get_elem?-lt s.run_queues c at), there)

  QueuedAt-here : (i : ℕ) {t : Task} → QueuedAt s c i t → get_elem? q.queue i ≡ some t
  QueuedAt-here i (r, r_at, there) = cc

QueuedAt-set_ne :
    (s : Scheduler) {c core : ℕ} (q' : RunQueue) (i : ℕ) {t : Task}
    → c ≢ core
    → QueuedAt s core i t
    → QueuedAt (with_queue s c q') core i t
QueuedAt-set_ne s q' i other (r, r_at, there) =
    (r, get_elem?-set_ne s.run_queues q' other ∙ r_at, there)

-- A task that the call has not touched.
stays :
    (s' : Scheduler) {c core : ℕ} (i : ℕ) {t : Task}
    → c ≢ core
    → QueuedAt s' core i t
    → Nearer core i t (core == c) s'
stays s' {c} {core} i other there = (core, i, there, inr (refl, refl, ground arith))

-- The queue of the core has lost its first task.
popped :
    (s : Scheduler) (c : ℕ) (own q : RunQueue) (first : Task)
    → get_elem? s.run_queues c ≡ some own
    → (core i : ℕ) {t : Task} (asked : Bool) → get_elem? (first ∷ q.queue) i ≡ some t
    → Advanced core i t asked (some first) (with_queue s c q)
popped s c own q first at core zero asked there = inl there
popped s c own q first at core (suc i) asked there =
    inr (c, i, QueuedAt-set_self s c own at q i there, inl (omega arith))

own_task-Advanced :
    (s : Scheduler) (c : ℕ) (own q : RunQueue) (first : Task)
    → get_elem? s.run_queues c ≡ some own
    → own.queue ≡ first ∷ q.queue
    → (core i : ℕ) {t : Task} → QueuedAt s core i t
    → Advanced core i t (core == c) (some first) (with_queue s c q)
own_task-Advanced s c own q first at e core i {t} there = elim (ℕ_discrete c core) [
  | no other ↦ inr (stays (with_queue s c q) i other (QueuedAt-set_ne s q i other there))
  | yes same ↦
      let here : QueuedAt s c i t = rw (same) there in
      popped s c own q first at core i (core == c)
        (ap (λ (l : List Task). get_elem? l i) (sym e) ∙ QueuedAt-here s c own at i here)
]

module _ (s : Scheduler) (c victim : ℕ) (own vq : RunQueue) (raid : Raid s c victim own vq)
    (b : Robbed s c victim own vq) (inv : Inv s) where
  -- The scheduler after the raid.
  abbrev robbed : Scheduler
  robbed = with_queue (with_queue s victim (steal_half vq).1) c (push_all own b.others)

  own_at : get_elem? (set s.run_queues victim (steal_half vq).1) c ≡ some own
  own_at = get_elem?-set_ne s.run_queues (steal_half vq).1 raid.distinct ∙ raid.own_at

  loot :
      (i j : ℕ) {t : Task}
      → get_elem? (b.first ∷ b.others) j ≡ some t
      → j ≤ i
      → Advanced victim i t (victim == c) (some b.first) robbed
  loot i zero there h = inl there
  loot i (suc j) there h = inr (
    c,
    j,
    QueuedAt-set_self (with_queue s victim (steal_half vq).1) c own own_at (push_all own b.others) j
        (ap (λ (l : List Task). get_elem? l j) (Raid-Shares inv raid b).own_queue ∙ there),
    inl (omega arith),
  )

  victim-Advanced :
      (i : ℕ) {t : Task}
      → QueuedAt s victim i t
      → Advanced victim i t (victim == c) (some b.first) robbed
  victim-Advanced i there =
      elim (steal_half-position vq i raid.valid
        (QueuedAt-here s victim vq raid.victim_at i there)) [
          | inl left ↦ inr (
              stays robbed i (λ e. raid.distinct (sym e))
                (QueuedAt-set_ne (with_queue s victim (steal_half vq).1) (push_all own b.others) i
                  (λ e. raid.distinct (sym e))
                  (QueuedAt-set_self s victim vq raid.victim_at (steal_half vq).1 i left)))
          | inr (j, h, stolen) ↦
              loot i j (ap (λ (l : List Task). get_elem? l j) (sym b.taken) ∙ stolen) h
        ]

  raid-Advanced :
      (core i : ℕ) {t : Task}
      → QueuedAt s core i t
      → Advanced core i t (core == c) (some b.first) robbed
  raid-Advanced core i {t} there = elim (ℕ_discrete c core) [
    | yes same ↦
        let here : QueuedAt s c i t = rw (same) there in
        let gone =
          ap (λ (l : List Task). get_elem? l i) (sym raid.own_empty)
          ∙ QueuedAt-here s c own raid.own_at i here in
        cc
    | no other ↦ elim (ℕ_discrete victim core) [
      | yes same ↦ rw (sym same) (victim-Advanced i (rw (same) there))
      | no apart ↦ inr (
          stays robbed i other (
            QueuedAt-set_ne (with_queue s victim (steal_half vq).1) (push_all own b.others) i other
              (QueuedAt-set_ne s (steal_half vq).1 i apart there)))
    ]
  ]

Outcome-Advanced :
    (s : Scheduler) (c : ℕ) (own : RunQueue) (r : Option (Option Task × Scheduler))
    → Inv s
    → get_elem? s.run_queues c ≡ some own
    → Outcome s c own r
    → (core i : ℕ) {t : Task} → QueuedAt s core i t
    → (out : Option Task) × (s' : Scheduler) × (r ≡ some (out, s'))
      × Advanced core i t (core == c) out s'
Outcome-Advanced s c own r inv at (own_task first q e v res) core i there =
    (some first, with_queue s c q, res, own_task-Advanced s c own q first at e core i there)
Outcome-Advanced s c own r inv at (nothing empty none_busy idle res) core i {t} there = (
  none,
  s,
  res,
  elim (ℕ_discrete c core) [
    | no other ↦ inr (stays s i other there)
    | yes same ↦
        let here : QueuedAt s c i t = rw (same) there in
        let gone =
          ap (λ (l : List Task). get_elem? l i) (sym empty) ∙ QueuedAt-here s c own at i here in
        cc
  ],
)
Outcome-Advanced s c own r inv at (raided victim vq busy chosen raid b res) core i there = (
  some b.first,
  robbed s c victim own vq raid b inv,
  res ∙ b.result,
  raid-Advanced s c victim own vq raid b inv core i there,
)

-- A task that waits is returned by a call of `schedule`, or has moved nearer to the front of a queue, or is
-- where it was and the call was another core's.
pub schedule-Advanced :
    (s : Scheduler) (c : ℕ)
    → Inv s
    → c < s.num_cores
    → (core i : ℕ) {t : Task} → QueuedAt s core i t
    → (out : Option Task) × (s' : Scheduler) × (schedule s c ≡ some (out, s'))
      × Advanced core i t (core == c) out s'
schedule-Advanced s c inv h core i there =
    let (own, at, outcome) = schedule-cases s c inv h in
    Outcome-Advanced s c own (schedule s c) inv at outcome core i there

-- A task that waits stays where it is when another one is enqueued.
pub Enqueued-Advanced :
    (s : Scheduler) (c : ℕ) (added : Task) (r : Option Scheduler)
    → (e : Enqueued s c added r) → (core i : ℕ) {t : Task} → QueuedAt s core i t
    → QueuedAt (with_queue s c e.longer) core i t
Enqueued-Advanced s c added r e core i {t} there = elim (ℕ_discrete c core) [
  | no other ↦ QueuedAt-set_ne s e.longer i other there
  | yes same ↦
      let here : QueuedAt s c i t = rw (same) there in
      let longer : get_elem? e.longer.queue i ≡ some t =
        ap (λ (l : List Task). get_elem? l i) e.appended
        ∙ get_elem?-append e.queue.queue (added ∷ []) i (QueuedAt-here s c e.queue e.at i here) in
      rw (sym same) (QueuedAt-set_self s c e.queue e.at e.longer i longer)
]
