-- ===== src/RunQueue.antt =====
-- src/scheduler.rs, `RunQueue`. Every operation holds the queue's lock from its first access to its
-- last, so each is one step; the head of the list is the front of the deque.
pub mod Laws
pub mod Positions
mod Tests
use smp_nostd.Base.{
  ℕ, zero, suc, ◌/◌, Bool, Option, none, some, List, [], ◌∷◌, ◌++◌, length, ◌==◌, if◌then◌else◌,
  fetch_add, fetch_sub,
}
use smp_nostd.Task.{Task}

pub record RunQueue : Type 0 where
  pub core_id : ℕ
  pub queue : List Task
  pub len : ℕ

-- `RunQueue::new`
unfoldable pub new : ℕ → RunQueue
new core_id = record { core_id = core_id; queue = []; len = 0 }

-- `push`, at the back
unfoldable pub push : RunQueue → Task → RunQueue
push q task = record q { queue = q.queue ++ task ∷ []; len = fetch_add q.len 1 }

pop_front : RunQueue → List Task → Option Task × RunQueue
pop_front q [] = (none, q)
pop_front q (task ∷ rest) = (some task, record q { queue = rest; len = fetch_sub q.len 1 })

-- `pop`, from the front
unfoldable pub pop : RunQueue → Option Task × RunQueue
unfolding pop_front
pop q = pop_front q q.queue

-- `VecDeque::pop_back`
pub pop_back {ℓ} : {A : Type ℓ} → List A → Option (A × List A)
pop_back [] = none
pop_back (x ∷ xs) = elim (pop_back xs) [ none ↦ some (x, []) | some (y, ys) ↦ some (y, x ∷ ys) ]

-- The loop of `steal_half`, with the rounds left: `stolen.push(q.pop_back())`.
pub steal_loop : ℕ → List Task → List Task → List Task × List Task
unfolding pop_back
steal_loop zero q stolen = (q, stolen)
steal_loop (suc n) q stolen = elim (pop_back q) [
  | none ↦ steal_loop n q stolen
  | some (task, rest) ↦ steal_loop n rest (stolen ++ task ∷ [])
]

-- `steal_half`
unfoldable pub steal_half : RunQueue → List Task × RunQueue
unfolding steal_loop
steal_half q =
    let steal_count = length q.queue / 2 in
    if steal_count == 0
    then ([], q)
    else let (rest, stolen) = steal_loop steal_count q.queue [] in
      (stolen, record q { queue = rest; len = fetch_sub q.len (length stolen) })

-- `len`
unfoldable pub len : RunQueue → ℕ
len q = q.len

-- `is_empty`
unfoldable pub is_empty : RunQueue → Bool
unfolding len
is_empty q = len q == 0
