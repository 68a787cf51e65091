-- ===== src/RunQueue/Laws.antt =====
-- The run queue is a FIFO queue with a faithful length counter; stealing takes the back half.
use smp_nostd.Base.{
  ℕ, ◌+◌, ◌-◌, ◌/◌, ◌^◌, ◌<◌, ◌≡◌, refl, ap, ap₂, sym, ◌∙◌, Bool, Option, none, some, List, [], ◌∷◌,
  ◌++◌, reverse, length, count, count-append, count-reverse, length-append, length-reverse,
  length-take, length-drop, take-append-drop, take-all, Bool-cases, inl, inr, take, drop, arith,
  ◌==◌,
}
use mathlib.Core.List.{append_assoc, append-nil, reverse-cons, reverse-reverse}
use smp_nostd.Task.{Task}
use smp_nostd.RunQueue.{RunQueue, push, pop, pop_front, pop_back, steal_loop, steal_half}

-- The counter is the length of the deque, which fits the word.
pub record IsValid (q : RunQueue) : Type 0 where
  pub counted : q.len ≡ length q.queue
  pub fits : length q.queue < 2 ^ 64

-- `pop_back` of a list that ends in `x`.
pub pop_back-snoc {ℓ} : {A : Type ℓ} (xs : List A) (x : A) → pop_back (xs ++ x ∷ []) ≡ some (x, xs)
unfolding pop_back
pop_back-snoc [] x = refl
pop_back-snoc (y ∷ xs) x = rw (pop_back-snoc xs x)

-- The loop takes the last elements, the last one first.
steal_loop_lem :
    (ys xs : List Task) (stolen : List Task)
    → steal_loop (length ys) (xs ++ reverse ys) stolen ≡ (xs, stolen ++ ys)
unfolding steal_loop
steal_loop_lem [] xs stolen = ground (arith, append-nil xs, append-nil stolen)
steal_loop_lem (y ∷ ys) xs stolen =
    rw (last_apart, pop_back-snoc, steal_loop)
      (steal_loop_lem ys xs (stolen ++ y ∷ [])
        ∙ ap (λ (l : List Task). (xs, l)) (append_assoc stolen (y ∷ []) ys))
  where
    last_apart : xs ++ reverse (y ∷ ys) ≡ (xs ++ reverse ys) ++ y ∷ []
    last_apart = ap (◌++◌ xs) (reverse-cons y ys) ∙ sym (append_assoc xs (reverse ys) (y ∷ []))

steal_loop-splits :
    (n m : ℕ) (q : List Task)
    → length q ≡ m + n
    → steal_loop n q [] ≡ (take m q, reverse (drop m q))
steal_loop-splits n m q h =
    ap₂ (λ k l. steal_loop k l []) count whole ∙ steal_loop_lem back (take m q) []
  where
    back : List Task
    back = reverse (drop m q)

    count : n ≡ length back
    count = omega (arith, length-reverse (drop m q), length-drop m q)

    whole : q ≡ take m q ++ reverse back
    whole = sym (ap (◌++◌ (take m q)) (reverse-reverse (drop m q)) ∙ take-append-drop m q)

-- What `steal_half` leaves: the front half, rounded up.
abbrev pub kept : RunQueue → ℕ
kept q = length q.queue - length q.queue / 2

-- On a valid queue with room `push` appends one task, and keeps the counter right.
pub push-IsValid :
    (q : RunQueue) (t : Task)
    → IsValid q
    → length q.queue + 1 < 2 ^ 64
    → IsValid (push q t) × ((push q t).queue ≡ q.queue ++ t ∷ [])
unfolding push
push-IsValid q t v h = (omega (arith, length-append q.queue (t ∷ [])), refl)

-- `pop` takes the first task of the deque, or finds it empty and changes nothing.
abbrev pub Popped : RunQueue → Option Task × RunQueue → Type 0
Popped q (none, r) = (q.queue ≡ []) × (r ≡ q)
Popped q (some t, r) = q.queue ≡ t ∷ r.queue

pop_front-Popped :
    (q : RunQueue) (ts : List Task)
    → q.queue ≡ ts
    → IsValid q
    → IsValid (pop_front q ts).1 × Popped q (pop_front q ts)
unfolding pop
pop_front-Popped q [] e v = (v, (e, refl))
pop_front-Popped q (t ∷ ts) e v = (omega (arith, ap length e), e)

-- On a valid queue `pop` is first in, first out, and keeps the counter right.
pub pop-Popped : (q : RunQueue) → IsValid q → IsValid (pop q).1 × Popped q (pop q)
unfolding pop
pop-Popped q v = pop_front-Popped q q.queue refl v

-- `steal_half` of a valid queue takes the back half, rounded down, its last task first; the front
-- half stays in order, with the right counter.
pub steal_half-splits :
    (q : RunQueue)
    → IsValid q
    → ((steal_half q).0 ≡ reverse (drop (kept q) q.queue))
      × ((steal_half q).1.queue ≡ take (kept q) q.queue)
      × IsValid (steal_half q).1
unfolding steal_half
steal_half-splits q v = elim (Bool-cases (length q.queue / 2 == 0)) [
  | inl few ↦
      let whole : kept q ≡ length q.queue = ground arith in
      rw (few, whole, (take-all q.queue).0, (take-all q.queue).1) (refl, refl, v)
  | inr more ↦
      rw (more, steal_loop-splits (length q.queue / 2) (kept q) q.queue (omega arith))
        (
          refl,
          refl,
          omega (
            arith,
            length-take (kept q) q.queue (omega arith),
            length-drop (kept q) q.queue,
            length-reverse (drop (kept q) q.queue),
          ),
        )
]

-- Stealing loses no task and copies none.
pub steal_half-SameItems :
    (q : RunQueue) (p : Task → Bool)
    → IsValid q
    → count p q.queue ≡ count p (steal_half q).1.queue + count p (steal_half q).0
steal_half-SameItems q p v = omega (
  arith,
  ap (count p) (take-append-drop (kept q) q.queue),
  count-append p (take (kept q) q.queue) (drop (kept q) q.queue),
  count-reverse p (drop (kept q) q.queue),
  ap (count p) (steal_half-splits q v).0,
  ap (count p) (steal_half-splits q v).1,
)
