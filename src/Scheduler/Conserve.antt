-- ===== src/Scheduler/Conserve.antt =====
-- No call loses a task or runs one twice: the tasks held before are those held after, with the one
-- that goes in or comes out.
use smp_nostd.Base.{
  ℕ, suc, ◌+◌, ◌^◌, ◌<◌, ◌≡◌, refl, ◌∙◌, ap, Bool, true, Option, none, some, List, [], ◌∷◌, ◌++◌,
  length, length-set, count, count-true, SameItems, get_elem?, set, arith, get_elem?-set_ne,
}
use smp_nostd.Task.{Task}
use smp_nostd.RunQueue.{RunQueue, steal_half}
use smp_nostd.RunQueue.Laws.{IsValid, steal_half-splits, steal_half-SameItems}
use smp_nostd.Scheduler.{Scheduler, push_all, schedule}
use smp_nostd.Scheduler.Contents.{
  held, Inv, count-held-set, length-held-set, set-IsValid, push_all-IsValid,
}
use smp_nostd.Scheduler.Stealing.{
  with_queue, Raid, Robbed, Outcome, own_task, nothing, raided, schedule-cases,
}

-- A queue may be replaced by a valid one that leaves the total below 2^64.
pub with_queue-Inv :
    {s : Scheduler} (i : ℕ) {q q' : RunQueue}
    → Inv s
    → get_elem? s.run_queues i ≡ some q
    → IsValid q'
    → length (held s.run_queues) + length q'.queue < 2 ^ 64 + length q.queue
    → Inv (with_queue s i q')
with_queue-Inv {s} i {q} {q'} inv at v room = record {
  cores = length-set s.run_queues i q' ∙ inv.cores;
  few = inv.few;
  total = omega (arith, length-held-set s.run_queues i q q' at);
  valid = set-IsValid s.run_queues i q' inv.valid v;
}

-- The task that comes out of a call, as a list.
abbrev pub returned : Option Task → List Task
returned none = []
returned (some t) = t ∷ []

-- `r` is a state and a task that together hold what `s` held.
pub record Conserved (s : Scheduler) (r : Option (Option Task × Scheduler)) : Type 0 where
  pub task : Option Task
  pub after : Scheduler
  pub result : r ≡ some (task, after)
  pub inv : Inv after
  pub same : SameItems (returned task ++ held after.run_queues) (held s.run_queues)
  pub cores : after.num_cores ≡ s.num_cores

-- What a raid does to the victim's queue and to the own one.
pub record Shares (own vq : RunQueue) (first : Task) (others : List Task) : Type 0 where
  pub victim_valid : IsValid (steal_half vq).1
  pub own_valid : IsValid (push_all own others)
  pub own_queue : (push_all own others).queue ≡ others
  split :
      (p : Task → Bool)
      → count p vq.queue ≡ count p (steal_half vq).1.queue + count p (first ∷ others)

pub Raid-Shares :
    {s : Scheduler} {core_id victim : ℕ} {own vq : RunQueue}
    → Inv s
    → Raid s core_id victim own vq
    → (b : Robbed s core_id victim own vq) → Shares own vq b.first b.others
Raid-Shares {core_id = core_id} {own = own} {vq = vq} inv raid b = record {
  victim_valid = (steal_half-splits vq raid.valid).2;
  own_valid = pushed.0;
  own_queue = pushed.1 ∙ ap (λ (l : List Task). l ++ b.others) raid.own_empty;
  split = parts;
}
  where
    parts :
        (p : Task → Bool)
        → count p vq.queue ≡ count p (steal_half vq).1.queue + count p (b.first ∷ b.others)
    parts p =
        steal_half-SameItems vq p raid.valid
        ∙ ap (λ (l : List Task). count p (steal_half vq).1.queue + count p l) b.taken

    fits : length own.queue + length b.others < 2 ^ 64
    fits = omega (
      arith,
      ap length raid.own_empty,
      parts (λ _. true),
      count-true vq.queue,
      count-true b.others,
      raid.valid.fits,
    )

    pushed :
        IsValid (push_all own b.others) × ((push_all own b.others).queue ≡ own.queue ++ b.others)
    pushed = push_all-IsValid b.others own (inv.valid core_id own raid.own_at) fits

Outcome-Conserved :
    {s : Scheduler} {core_id : ℕ} {own : RunQueue} {r : Option (Option Task × Scheduler)}
    → Inv s
    → get_elem? s.run_queues core_id ≡ some own
    → Outcome s core_id own r
    → Conserved s r
Outcome-Conserved {s} {core_id} {own} inv at (own_task t q e v res) = record {
  task = some t;
  after = with_queue s core_id q;
  result = res;
  inv = with_queue-Inv core_id inv at v (omega (arith, inv.total, ap length e));
  same = λ p. omega (arith, ap (count p) e, count-held-set p s.run_queues core_id own q at);
  cores = refl;
}
Outcome-Conserved {s} inv at (nothing empty found v res) = record {
  task = none;
  after = s;
  result = res;
  inv = inv;
  same = λ p. refl;
  cores = refl;
}
Outcome-Conserved {s} {core_id} {own} inv at (raided victim vq found v raid b res) = record {
  task = some b.first;
  after = with_queue (with_queue s victim vq') core_id own';
  result = res ∙ b.result;
  inv = with_queue-Inv core_id inv' at' shares.own_valid (
      omega (
        arith,
        inv.total,
        lengths,
        ap length raid.own_empty,
        ap length shares.own_queue,
        length-held-set s.run_queues victim vq vq' raid.victim_at,
      ));
  same = λ p. omega (
    arith,
    ap (count p) raid.own_empty,
    ap (count p) shares.own_queue,
    shares.split p,
    count-held-set p s.run_queues victim vq vq' raid.victim_at,
    count-held-set p (set s.run_queues victim vq') core_id own own' at',
  );
  cores = refl;
}
  where
    vq' : RunQueue
    vq' = (steal_half vq).1

    own' : RunQueue
    own' = push_all own b.others

    shares : Shares own vq b.first b.others
    shares = Raid-Shares inv raid b

    lengths : length vq.queue ≡ length vq'.queue + suc (length b.others)
    lengths = omega (
      arith,
      shares.split (λ _. true),
      count-true vq.queue,
      count-true vq'.queue,
      count-true b.others,
    )

    at' : get_elem? (set s.run_queues victim vq') core_id ≡ some own
    at' = get_elem?-set_ne s.run_queues vq' raid.distinct ∙ at

    inv' : Inv (with_queue s victim vq')
    inv' =
        with_queue-Inv victim inv raid.victim_at shares.victim_valid
          (omega (arith, inv.total, lengths))

-- On a valid scheduler, `schedule` at a core that exists does not panic; the scheduler stays valid,
-- and the task that it returns with those still queued are the tasks that were queued before.
pub schedule-Conserved :
    (s : Scheduler) (core_id : ℕ) → Inv s → core_id < s.num_cores → Conserved s (schedule s core_id)
schedule-Conserved s core_id inv h =
    let (own, at, out) = schedule-cases s core_id inv h in Outcome-Conserved inv at out
