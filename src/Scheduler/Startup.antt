-- ===== src/Scheduler/Startup.antt =====
-- `Scheduler::new`, the counts for diagnostics, and what holds after any sequence of calls.
use mathlib.Core.List.{append_assoc, append-nil}
use smp_nostd.Base.{
  ℕ, zero, suc, ◌+◌, ◌^◌, ◌<◌, ◌≡◌, refl, sym, ◌∙◌, ap, Option, none, some, List, [], ◌∷◌, ◌++◌,
  map, length, length-append, get_elem?, arith, Profile, add_word_fits,
}
use smp_nostd.Task.{Task}
use smp_nostd.RunQueue.{RunQueue, len, new as new_queue}
use smp_nostd.RunQueue.Laws.{IsValid}
use smp_nostd.Scheduler.{Scheduler, new_loop, new, sum_from, total_queued}
use smp_nostd.Scheduler.Contents.{held, Inv}

-- The queues of the cores `i .. i + n`, all empty.
abbrev fresh : ℕ → ℕ → List RunQueue
fresh i zero = []
fresh i (suc n) = new_queue i ∷ fresh (i + 1) n

abbrev no_tasks : ℕ → List (Option Task)
no_tasks zero = []
no_tasks (suc n) = none ∷ no_tasks n

new_loop-fresh :
    (n i : ℕ) (rqs : List RunQueue) (cts : List (Option Task))
    → new_loop n i rqs cts ≡ (rqs ++ fresh i n, cts ++ no_tasks n)
unfolding new_loop
new_loop-fresh zero i rqs cts = ground (arith, append-nil rqs, append-nil cts)
new_loop-fresh (suc n) i rqs cts =
    new_loop-fresh n (i + 1) (rqs ++ new_queue i ∷ []) (cts ++ none ∷ [])
    ∙ ground (
      arith,
      append_assoc rqs (new_queue i ∷ []) (fresh (i + 1) n),
      append_assoc cts (none ∷ []) (no_tasks n),
    )

length-fresh : (i n : ℕ) → (length (fresh i n) ≡ n) × (length (no_tasks n) ≡ n)
length-fresh i zero = (refl, refl)
length-fresh i (suc n) = omega (arith, length-fresh (i + 1) n)

held-fresh : (i n : ℕ) → held (fresh i n) ≡ []
unfolding new_queue
held-fresh i zero = refl
held-fresh i (suc n) = held-fresh (i + 1) n

get_elem?-fresh :
    (i n j : ℕ) (q : RunQueue) → get_elem? (fresh i n) j ≡ some q → q ≡ new_queue (i + j)
get_elem?-fresh i zero j q e = cc
get_elem?-fresh i (suc n) zero q e = ground arith
get_elem?-fresh i (suc n) (suc j) q e = get_elem?-fresh (i + 1) n j q e ∙ ap new_queue (omega arith)

new_queue-IsValid : (i : ℕ) → IsValid (new_queue i)
unfolding new_queue
new_queue-IsValid i = omega arith

fresh-IsValid :
    (n j : ℕ) (q : RunQueue) → get_elem? (fresh 0 n) j ≡ some q → IsValid q × (q.core_id ≡ j)
unfolding new_queue
fresh-IsValid n j q e = ground (arith, get_elem?-fresh 0 n j q e)

new_fields : (n : ℕ) → (new n).run_queues ≡ fresh 0 n × (new n).current_tasks ≡ no_tasks n
unfolding new
new_fields n = ground (arith, new_loop-fresh n 0 [] [])

-- A new scheduler for fewer than 2^32 cores is valid and has one empty queue for each core, with the
-- core's index, and no current task.
pub new-Inv :
    (n : ℕ)
    → n < 2 ^ 32
    → Inv (new n)
      × ((new n).num_cores ≡ n)
      × (length (new n).current_tasks ≡ n)
      × (held (new n).run_queues ≡ [])
      × ((j : ℕ) (q : RunQueue) → get_elem? (new n).run_queues j ≡ some q → q.core_id ≡ j)
unfolding new
new-Inv n h = (
  record {
    cores = ap length (new_fields n).0 ∙ (length-fresh 0 n).0;
    few = h;
    total = omega (arith, ap length no_held);
    valid = λ j q e. (fresh-IsValid n j q (ap (λ l. get_elem? l j) (sym (new_fields n).0) ∙ e)).0;
  },
  refl,
  ap length (new_fields n).1 ∙ (length-fresh 0 n).1,
  no_held,
  λ j q e. (fresh-IsValid n j q (ap (λ l. get_elem? l j) (sym (new_fields n).0) ∙ e)).1,
)
  where
    no_held : held (new n).run_queues ≡ []
    no_held = ap held (new_fields n).0 ∙ held-fresh 0 n

sum_from-held :
    (p : Profile) (acc : ℕ) (qs : List RunQueue)
    → ((j : ℕ) (q : RunQueue) → get_elem? qs j ≡ some q → IsValid q)
    → acc + length (held qs) < 2 ^ 64
    → sum_from p acc (map len qs) ≡ some (acc + length (held qs))
unfolding sum_from len
sum_from-held p acc [] v h = ground arith
sum_from-held p acc (q ∷ qs) v h =
    rw (add_word_fits p 64 acc q.len (omega (arith, counted, split)), sum_from)
      (sum_from-held p (acc + q.len) qs (λ j. v (suc j)) (omega (arith, counted, split))
        ∙ ap some (omega (arith, counted, split)))
  where
    counted : q.len ≡ length q.queue
    counted = (v 0 q refl).counted

    split : length (held (q ∷ qs)) ≡ length q.queue + length (held qs)
    split = length-append q.queue (held qs)

-- On a valid scheduler `total_queued` does not overflow and is the number of queued tasks.
pub total_queued-length :
    (p : Profile) (s : Scheduler) → Inv s → total_queued p s ≡ some (length (held s.run_queues))
unfolding total_queued
total_queued-length p s inv =
    sum_from-held p 0 s.run_queues inv.valid (omega (arith, inv.total)) ∙ ap some (omega arith)
