-- ===== src/Scheduler/Service.antt =====
-- What the scheduler promises its callers: a bag of tasks. The queues, their order and the stealing are
-- forgotten.
use mathlib.Core.Quot
use mathlib.Core.Quot.{Quot, Quot-set}
use smp_nostd.Base.{ℕ, ◌≡◌, Option, none, some, List, [], ◌∷◌, SameItems, arith}
use smp_nostd.Task.{Task, set_state, ready}
use smp_nostd.Scheduler.{Scheduler}
use smp_nostd.Scheduler.Contents.{held}

abbrev pub Bag : Type 0
Bag = Quot (λ (xs ys : List Task). SameItems xs ys)

SameItems-cons : (t : Task) (xs ys : List Task) → SameItems xs ys → SameItems (t ∷ xs) (t ∷ ys)
SameItems-cons t xs ys h p = omega (arith, h p)

unfoldable pub insert : Task → Bag → Bag
unfolding SameItems-cons
insert t =
    Quot.lift Quot-set (λ xs. Quot.mk (t ∷ xs)) (λ xs ys h. Quot.sound (SameItems-cons t xs ys h))

-- The queued tasks of a scheduler.
abbrev pub bag : Scheduler → Bag
bag s = Quot.mk (held s.run_queues)

-- The calls of the scheduler that change it.
pub data Call : Type 0 where
  spawning : Task → Call
  spawning_on : (core_id : ℕ) → Task → Call
  waking : Task → (target_core : ℕ) → Call
  preempting : (core_id : ℕ) → Task → Call
  scheduling : (core_id : ℕ) → Call
  blocking : (core_id : ℕ) → Call

-- The task that a call brings, as it is queued; none where the call asks for one.
abbrev pub incoming : Call → Option Task
incoming (spawning t) = some t
incoming (spawning_on core_id t) = some t
incoming (waking t target_core) = some (set_state t ready)
incoming (preempting core_id t) = some (set_state t ready)
incoming (scheduling core_id) = none
incoming (blocking core_id) = none

-- One call on a bag: a task that comes in is put in it, and a request is given a task of the bag, which
-- leaves it, or none.
pub data Served : Bag → Call → Option Task → Bag → Type 0 where
  put : {b : Bag} {c : Call} {t : Task} → incoming c ≡ some t → Served b c none (insert t b)
  give : {b : Bag} {c : Call} {t : Task} → incoming c ≡ none → Served (insert t b) c (some t) b
  pass : {b : Bag} {c : Call} → incoming c ≡ none → Served b c none b

-- A sequence of calls, with what each returned.
pub data Serves : Bag → List Call → List (Option Task) → Bag → Type 0 where
  stop : {b : Bag} → Serves b [] [] b
  next :
      {b b' b'' : Bag} {c : Call} {cs : List Call} {out : Option Task} {outs : List (Option Task)}
      → Served b c out b'
      → Serves b' cs outs b''
      → Serves b (c ∷ cs) (out ∷ outs) b''
