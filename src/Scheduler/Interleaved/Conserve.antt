-- ===== src/Scheduler/Interleaved/Conserve.antt =====
-- No interleaving of the calls loses or copies a task.
use smp_nostd.Base.{
  ℕ, ◌+◌, ◌^◌, ◌<◌, ◌≡◌, refl, sym, ap, subst, if◌then◌else◌, Bool, true, Option, none, some, List,
  [], ◌∷◌, length, length-append, count, count-append, count-true, get_elem?, arith,
}
use smp_nostd.Base.Threads.{System, Step, pick, Reach, here, next, weigh, weigh-update, weight-le}
use smp_nostd.Task.{Task, set_state, ready}
use smp_nostd.RunQueue.{RunQueue, push, pop}
use smp_nostd.RunQueue.Laws.{
  IsValid, Popped, push-IsValid, pop-Popped, steal_half-splits, steal_half-SameItems,
}
use smp_nostd.Scheduler.Contents.{held, set-IsValid, count-held-set, length-queue-le}
use smp_nostd.Scheduler.Interleaved.{
  Pc, hand, Move, enqueue, requeue, take, miss, give_up, choose, rob_nothing, rob, keep, finish,
}

abbrev pub AllValid : List RunQueue → Type 0
AllValid qs = (j : ℕ) (q : RunQueue) → get_elem? qs j ≡ some q → IsValid q

-- The counted tasks among the queues and the hand of a processor.
abbrev tally : (Task → Bool) → List RunQueue → Pc → ℕ
tally p qs a = count p (held qs) + count p (hand a)

-- What `pop` has left of a queue.
pop-taken :
    (q q' : RunQueue) (t : Task)
    → IsValid q
    → pop q ≡ (some t, q')
    → (q.queue ≡ t ∷ q'.queue) × IsValid q'
pop-taken q q' t v e =
    let (v', popped) =
      subst (λ (r : Option Task × RunQueue). IsValid r.1 × Popped q r) e (pop-Popped q v) in
    (popped, v')

pop-missed : (q q' : RunQueue) → IsValid q → pop q ≡ (none, q') → q' ≡ q
pop-missed q q' v e =
    let (v', popped) =
      subst (λ (r : Option Task × RunQueue). IsValid r.1 × Popped q r) e (pop-Popped q v) in
    popped.1

Move-tally :
    (p : Task → Bool) {qs qs' : List RunQueue} {a b : Pc}
    → ((t : Task) → p (set_state t ready) ≡ p t)
    → AllValid qs
    → Move qs a qs' b
    → tally p qs' b ≡ tally p qs a
unfolding push
Move-tally p {qs} stable v (enqueue core q before after t at) = omega (
  arith,
  count-held-set p qs core q (push q t) at,
  count-append p q.queue (t ∷ []),
  count-append p before (t ∷ after),
  count-append p before after,
)
Move-tally p {qs} stable v (requeue core q before after t at) = omega (
  arith,
  count-held-set p qs core q (push q (set_state t ready)) at,
  count-append p q.queue (set_state t ready ∷ []),
  count-append p before (t ∷ after),
  count-append p before after,
  ap {B = ℕ} (λ (b : Bool). if b then 1 else 0) (stable t),
)
Move-tally p {qs} stable v (take core q q' {t} {ts} at e) =
    omega
      (arith, count-held-set p qs core q q' at, ap (count p) (pop-taken q q' t (v core q at) e).0)
Move-tally p {qs} stable v (miss {core} q q' {ts} at e) = omega (
  arith,
  count-held-set p qs core q q' at,
  ap (λ (r : RunQueue). count p r.queue) (pop-missed q q' (v core q at) e),
)
Move-tally p stable v give_up = refl
Move-tally p stable v (choose ne) = refl
Move-tally p {qs} stable v (rob_nothing {core} {victim} q q' {ts} at e) = omega (
  arith,
  count-held-set p qs victim q q' at,
  steal_half-SameItems q p (v victim q at),
  ap (λ (r : List Task × RunQueue). count p r.0) e,
  ap (λ (r : List Task × RunQueue). count p r.1.queue) e,
)
Move-tally p {qs} stable v (rob {core} {victim} q q' {first} {others} {ts} at e) = omega (
  arith,
  count-held-set p qs victim q q' at,
  steal_half-SameItems q p (v victim q at),
  ap (λ (r : List Task × RunQueue). count p r.0) e,
  ap (λ (r : List Task × RunQueue). count p r.1.queue) e,
  count-append p others ts,
)
Move-tally p {qs} stable v (keep {core} q {first} {t} {others} {ts} at) =
    omega (arith, count-held-set p qs core q (push q t) at, count-append p q.queue (t ∷ []))
Move-tally p stable v finish = refl

Move-valid :
    {qs qs' : List RunQueue} {a b : Pc}
    → AllValid qs
    → length (held qs) + length (hand a) < 2 ^ 64
    → Move qs a qs' b
    → AllValid qs'
Move-valid {qs} v room (enqueue core q before after t at) =
    set-IsValid qs core (push q t) v
      (push-IsValid q t (v core q at)
        (omega (arith, length-queue-le qs core q at, length-append before (t ∷ after)))).0
Move-valid {qs} v room (requeue core q before after t at) =
    set-IsValid qs core (push q (set_state t ready)) v
      (push-IsValid q (set_state t ready) (v core q at)
        (omega (arith, length-queue-le qs core q at, length-append before (t ∷ after)))).0
Move-valid {qs} v room (take core q q' {t} at e) =
    set-IsValid qs core q' v (pop-taken q q' t (v core q at) e).1
Move-valid {qs} v room (miss {core} q q' at e) =
    set-IsValid qs core q' v (subst IsValid (sym (pop-missed q q' (v core q at) e)) (v core q at))
Move-valid v room give_up = v
Move-valid v room (choose ne) = v
Move-valid {qs} v room (rob_nothing {core} {victim} q q' at e) =
    set-IsValid qs victim q' v
      (subst (λ (r : List Task × RunQueue). IsValid r.1) e (steal_half-splits q (v victim q at)).2)
Move-valid {qs} v room (rob {core} {victim} q q' at e) =
    set-IsValid qs victim q' v
      (subst (λ (r : List Task × RunQueue). IsValid r.1) e (steal_half-splits q (v victim q at)).2)
Move-valid {qs} v room (keep {core} q {first} {t} at) =
    set-IsValid qs core (push q t) v
      (push-IsValid q t (v core q at) (omega (arith, length-queue-le qs core q at))).0
Move-valid v room finish = v

-- The counted tasks of all queues and all processors.
abbrev pub total : (Task → Bool) → (n : ℕ) → System (List RunQueue) Pc → ℕ
total p n s = count p (held s.mem) + weigh (λ a. count p (hand a)) n s.pc

-- The queues are valid, and each task is where it was or elsewhere, once for each time it was there.
pub record Kept (n : ℕ) (s0 s : System (List RunQueue) Pc) : Type 0 where
  pub valid : AllValid s.mem
  pub same :
      (p : Task → Bool) → ((t : Task) → p (set_state t ready) ≡ p t) → total p n s ≡ total p n s0

Step-Kept :
    {n : ℕ} {s0 s s' : System (List RunQueue) Pc}
    → total (λ _. true) n s0 < 2 ^ 64
    → Kept n s0 s
    → Step Move n s s'
    → Kept n s0 s'
Step-Kept {n} {s0} {s} room k (pick i {m = m} {p = b} lt mv) = record {
  valid =
      Move-valid k.valid
        (omega (
          arith,
          k.same (λ _. true) (λ t. refl),
          weight-le (λ a. count (λ _. true) (hand a)) n s.pc i lt,
          count-true (held s.mem),
          count-true (hand (s.pc i)),
        ))
        mv;
  same = λ p stable. omega (
    arith,
    k.same p stable,
    Move-tally p stable k.valid mv,
    weigh-update (λ a. count p (hand a)) n s.pc i b lt,
  );
}

-- In any interleaving of any number of calls on any number of processors, from valid queues and fewer
-- than 2^64 tasks in all: the queues stay valid, and no task is lost or copied. However the tasks are
-- told apart, except by their state, as many of a kind are queued or in the hands of the processors as
-- at the start.
pub interleaved-Kept :
    {n : ℕ} {s0 : System (List RunQueue) Pc} {k : ℕ} {s : System (List RunQueue) Pc}
    → AllValid s0.mem
    → total (λ _. true) n s0 < 2 ^ 64
    → Reach Move n s0 k s
    → Kept n s0 s
interleaved-Kept valid room here = record { valid = valid; same = λ p stable. refl }
interleaved-Kept valid room (next r st) = Step-Kept room (interleaved-Kept valid room r) st
