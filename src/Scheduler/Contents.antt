-- ===== src/Scheduler/Contents.antt =====
-- The tasks that a scheduler holds, its invariant, and what a change of one queue does to both.
use mathlib.Core.List.{append_assoc, append-nil}
use smp_nostd.Base.{
  ℕ, zero, suc, ◌+◌, ◌^◌, ◌≤◌, ◌<◌, ◌≡◌, sym, ◌∙◌, ap, Bool, some, List, [], ◌∷◌, ◌++◌, length,
  length-append, length-set, get_elem?, set, arith, ℕ_discrete, get_elem?-set_self,
  get_elem?-set_ne, get_elem?-lt, count, count-append, count-true, true,
}
use smp_nostd.Task.{Task}
use smp_nostd.RunQueue.{RunQueue, push}
use smp_nostd.RunQueue.Laws.{IsValid, push-IsValid}
use smp_nostd.Scheduler.{Scheduler, push_all}

-- The queued tasks, queue by queue.
abbrev pub held : List RunQueue → List Task
held [] = []
held (q ∷ qs) = q.queue ++ held qs

pub record Inv (s : Scheduler) : Type 0 where
  pub cores : length s.run_queues ≡ s.num_cores
  pub few : s.num_cores < 2 ^ 32
  pub total : length (held s.run_queues) < 2 ^ 64
  pub valid : (j : ℕ) (q : RunQueue) → get_elem? s.run_queues j ≡ some q → IsValid q

-- Replacing queue `i` exchanges its tasks, and only those.
pub count-held-set :
    (p : Task → Bool) (qs : List RunQueue) (i : ℕ) (q q' : RunQueue)
    → get_elem? qs i ≡ some q
    → count p (held (set qs i q')) + count p q.queue ≡ count p (held qs) + count p q'.queue
count-held-set p [] i q q' e = cc
count-held-set p (x ∷ qs) zero q q' e = ground (
  arith,
  count-append p q.queue (held qs),
  count-append p x.queue (held qs),
  count-append p q'.queue (held qs),
)
count-held-set p (x ∷ qs) (suc i) q q' e = omega (
  arith,
  count-append p x.queue (held (set qs i q')),
  count-append p x.queue (held qs),
  count-held-set p qs i q q' e,
)

pub length-held-set :
    (qs : List RunQueue) (i : ℕ) (q q' : RunQueue)
    → get_elem? qs i ≡ some q
    → length (held (set qs i q')) + length q.queue ≡ length (held qs) + length q'.queue
length-held-set qs i q q' at = omega (
  arith,
  count-held-set (λ _. true) qs i q q' at,
  count-true (held qs),
  count-true (held (set qs i q')),
  count-true q.queue,
  count-true q'.queue,
)

pub set-IsValid :
    (qs : List RunQueue) (i : ℕ) (q' : RunQueue)
    → ((j : ℕ) (q : RunQueue) → get_elem? qs j ≡ some q → IsValid q)
    → IsValid q'
    → (j : ℕ) (q : RunQueue) → get_elem? (set qs i q') j ≡ some q
    → IsValid q
set-IsValid qs i q' all v j q e = elim (ℕ_discrete i j) [
  | yes same ↦
      let lt : i < length qs = omega (arith, get_elem?-lt (set qs i q') j e, length-set qs i q') in
      ground (arith, get_elem?-set_self qs i q' lt)
  | no other ↦ all j q (sym (get_elem?-set_ne qs q' other) ∙ e)
]

-- Pushing a list of tasks appends them in their order.
pub push_all-IsValid :
    (ts : List Task) (q : RunQueue)
    → IsValid q
    → length q.queue + length ts < 2 ^ 64
    → IsValid (push_all q ts) × ((push_all q ts).queue ≡ q.queue ++ ts)
unfolding push_all
push_all-IsValid [] q v h = (v, sym (append-nil q.queue))
push_all-IsValid (t ∷ ts) q v h =
    let (v', e) = push-IsValid q t v (omega arith) in
    let fits : length (push q t).queue + length ts < 2 ^ 64 =
      omega (arith, ap length e, length-append q.queue (t ∷ [])) in
    let (w, e') = push_all-IsValid ts (push q t) v' fits in
    (w, e' ∙ ap (λ (l : List Task). l ++ ts) e ∙ append_assoc q.queue (t ∷ []) ts)

-- A queue holds no more tasks than there are.
pub length-queue-le :
    (qs : List RunQueue) (i : ℕ) (q : RunQueue)
    → get_elem? qs i ≡ some q
    → length q.queue ≤ length (held qs)
length-queue-le [] i q e = cc
length-queue-le (x ∷ qs) zero q e = ground (arith, length-append x.queue (held qs))
length-queue-le (x ∷ qs) (suc i) q e =
    omega (arith, length-append x.queue (held qs), length-queue-le qs i q e)
