-- ===== src/Scheduler/Placement.antt =====
-- Where `spawn` places a task and which core `schedule` robs: the two scans over the queues.
use smp_nostd.Base.{
  ℕ, zero, suc, ◌+◌, ◌^◌, ◌≤◌, ◌<◌, ◌≡◌, ◌≢◌, refl, ◌⊎◌, inl, inr, Option, none, some, not, ◌&&◌,
  List, [], ◌∷◌, length, get_elem?, arith, ltb, ◌==◌, u32, u64_max, Bool-cases, ltb→lt, ltb→le,
  get_elem?-some,
}
use smp_nostd.RunQueue.{RunQueue, len}
use smp_nostd.Scheduler.{Scheduler, least_loop, least_loaded_core, busiest_loop, busiest_core}

-- `q` stands at index `k`, no queue is shorter, and those before it are longer.
record Shortest (rqs : List RunQueue) (k : ℕ) (q : RunQueue) : Type 0 where
  at : get_elem? rqs k ≡ some q
  least :
      (j : ℕ) (q' : RunQueue)
      → get_elem? rqs j ≡ some q'
      → (len q ≤ len q') × (j < k → len q < len q')

-- What the scan from index `i` returns.
abbrev Scanned : List RunQueue → (i min_load min_core r : ℕ) → Type 0
Scanned rqs i min_load min_core r =
    ((r ≡ min_core) × ((j : ℕ) (q' : RunQueue) → get_elem? rqs j ≡ some q' → min_load ≤ len q'))
    ⊎ ((k : ℕ) × (q : RunQueue) × (r ≡ i + k) × (len q < min_load) × Shortest rqs k q)

Scanned-better :
    (rq : RunQueue) (rqs : List RunQueue) (i min_load min_core r : ℕ)
    → len rq < min_load
    → Scanned rqs (i + 1) (len rq) i r
    → Scanned (rq ∷ rqs) i min_load min_core r
Scanned-better rq rqs i min_load min_core r h (inl (e, all)) = inr (
  0,
  rq,
  omega arith,
  h,
  record {
    at = refl;
    least = elim [
      | zero ↦ λ q' e'. ground arith
      | suc j ↦ λ q' e'. (all j q' e', λ lt. absurd (omega arith))
    ];
  },
)
Scanned-better rq rqs i min_load min_core r h (inr (k, q, e, lt, s)) = inr (
  suc k,
  q,
  omega arith,
  omega arith,
  record {
    at = s.at;
    least = elim [ zero ↦ λ q' e'. ground arith | suc j ↦ λ q' e'. ground (arith, s.least j q') ];
  },
)

Scanned-worse :
    (rq : RunQueue) (rqs : List RunQueue) (i min_load min_core r : ℕ)
    → min_load ≤ len rq
    → Scanned rqs (i + 1) min_load min_core r
    → Scanned (rq ∷ rqs) i min_load min_core r
Scanned-worse rq rqs i min_load min_core r h (inl (e, all)) =
    inl (e, elim [ zero ↦ λ q' e'. ground arith | suc j ↦ λ q' e'. all j q' e' ])
Scanned-worse rq rqs i min_load min_core r h (inr (k, q, e, lt, s)) = inr (
  suc k,
  q,
  omega arith,
  lt,
  record {
    at = s.at;
    least = elim [ zero ↦ λ q' e'. ground arith | suc j ↦ λ q' e'. ground (arith, s.least j q') ];
  },
)

least_loop-Scanned :
    (rqs : List RunQueue) (i min_load min_core : ℕ)
    → i + length rqs ≤ 2 ^ 32
    → Scanned rqs i min_load min_core (least_loop rqs i min_load min_core)
unfolding least_loop
least_loop-Scanned [] i min_load min_core h = inl (refl, λ j q' e. cc)
least_loop-Scanned (rq ∷ rqs) i min_load min_core h = elim (Bool-cases (ltb (len rq) min_load)) [
  | inl lt ↦
      rw (lt, core_fits)
        (Scanned-better rq rqs i min_load min_core _ (ltb→lt _ _ lt)
          (least_loop-Scanned rqs (i + 1) (len rq) i (omega arith)))
  | inr ge ↦ rw ge (
      Scanned-worse rq rqs i min_load min_core _ (ltb→le _ _ ge)
        (least_loop-Scanned rqs (i + 1) min_load min_core (omega arith)))
]
  where
    core_fits : u32 i ≡ i
    core_fits = omega arith

-- The core that `least_loaded_core` names has a queue, no queue is shorter, and it is the first of
-- the shortest: for a scheduler with at least one queue and at most 2^32, with counters below 2^64 - 1.
pub least_loaded_core-least :
    (s : Scheduler)
    → 0 < length s.run_queues
    → length s.run_queues ≤ 2 ^ 32
    → ((j : ℕ) (q : RunQueue) → get_elem? s.run_queues j ≡ some q → len q < u64_max)
    → (q : RunQueue) × (get_elem? s.run_queues (least_loaded_core s) ≡ some q)
      × ((j : ℕ) (q' : RunQueue)
          → get_elem? s.run_queues j ≡ some q'
          → (len q ≤ len q') × (j < least_loaded_core s → len q < len q'))
unfolding least_loaded_core
least_loaded_core-least s some_core few small =
    elim (least_loop-Scanned s.run_queues 0 u64_max 0 (omega arith)) [
      | inl (e, all) ↦
          let (q, at) = get_elem?-some s.run_queues 0 some_core in
          absurd (omega (arith, all 0 q at, small 0 q at))
      | inr (k, q, e, lt, best) ↦
          let e' : least_loop s.run_queues 0 u64_max 0 ≡ k = omega arith in
          rw e' (q, best.at, best.least)
    ]

-- `q` is longer than `max_load` at a core `k` that is not excluded, and no such queue is longer.
record Longest (rqs : List RunQueue) (exclude_core i k : ℕ) (q : RunQueue) : Type 0 where
  at : get_elem? rqs k ≡ some q
  other : i + k ≢ exclude_core
  most : (j : ℕ) (q' : RunQueue) → get_elem? rqs j ≡ some q' → i + j ≢ exclude_core → len q' ≤ len q

abbrev Robbed : List RunQueue → (exclude_core i max_load : ℕ) → (max_core r : Option ℕ) → Type 0
Robbed rqs exclude_core i max_load max_core r =
    ((r ≡ max_core)
      × ((j : ℕ) (q' : RunQueue)
          → get_elem? rqs j ≡ some q'
          → i + j ≢ exclude_core
          → len q' ≤ max_load))
    ⊎ ((k : ℕ) × (q : RunQueue) × (r ≡ some (i + k))
        × (max_load < len q)
        × Longest rqs exclude_core i k q)

Robbed-better :
    (rq : RunQueue) (rqs : List RunQueue) (ex i max_load : ℕ) (max_core r : Option ℕ)
    → i ≢ ex
    → max_load < len rq
    → Robbed rqs ex (i + 1) (len rq) (some i) r
    → Robbed (rq ∷ rqs) ex i max_load max_core r
Robbed-better rq rqs ex i max_load max_core r ne h (inl (e, all)) = inr (
  0,
  rq,
  ground arith,
  h,
  record {
    at = refl;
    other = omega arith;
    most = elim [ zero ↦ λ q' e' n'. ground arith | suc j ↦ λ q' e' n'. all j q' e' (omega arith) ];
  },
)
Robbed-better rq rqs ex i max_load max_core r ne h (inr (k, q, e, lt, s)) = inr (
  suc k,
  q,
  ground arith,
  omega arith,
  record {
    at = s.at;
    other = omega (arith, s.other);
    most = elim [
      | zero ↦ λ q' e' n'. ground arith
      | suc j ↦ λ q' e' n'. s.most j q' e' (omega arith)
    ];
  },
)

Robbed-worse :
    (rq : RunQueue) (rqs : List RunQueue) (ex i max_load : ℕ) (max_core r : Option ℕ)
    → (i ≢ ex → len rq ≤ max_load)
    → Robbed rqs ex (i + 1) max_load max_core r
    → Robbed (rq ∷ rqs) ex i max_load max_core r
Robbed-worse rq rqs ex i max_load max_core r h (inl (e, all)) = inl (
  e,
  elim [ zero ↦ λ q' e' n'. ground (arith, h) | suc j ↦ λ q' e' n'. all j q' e' (omega arith) ],
)
Robbed-worse rq rqs ex i max_load max_core r h (inr (k, q, e, lt, s)) = inr (
  suc k,
  q,
  ground arith,
  lt,
  record {
    at = s.at;
    other = omega (arith, s.other);
    most = elim [
      | zero ↦ λ q' e' n'. ground (arith, h)
      | suc j ↦ λ q' e' n'. s.most j q' e' (omega arith)
    ];
  },
)

busiest_loop-Robbed :
    (ex : ℕ) (rqs : List RunQueue) (i max_load : ℕ) (max_core : Option ℕ)
    → i + length rqs ≤ 2 ^ 32
    → Robbed rqs ex i max_load max_core (busiest_loop ex rqs i max_load max_core)
unfolding busiest_loop
busiest_loop-Robbed ex [] i max_load max_core h = inl (refl, λ j q' e. cc)
busiest_loop-Robbed ex (rq ∷ rqs) i max_load max_core h =
    elim (Bool-cases (not (u32 i == ex) && ltb max_load (len rq))) [
      | inl better ↦
          rw (better, core_fits)
            (Robbed-better rq rqs ex i max_load max_core _ (ground arith) (ground arith)
              (busiest_loop-Robbed ex rqs (i + 1) (len rq) (some i) (omega arith)))
      | inr worse ↦ rw worse (
          Robbed-worse rq rqs ex i max_load max_core _ (λ ne. ground arith)
            (busiest_loop-Robbed ex rqs (i + 1) max_load max_core (omega arith)))
    ]
  where
    core_fits : u32 i ≡ i
    core_fits = omega arith

-- What `busiest_core` answers: no core, when every other queue holds at most one task, or another
-- core whose queue holds at least two tasks and is not shorter than that of any other core.
abbrev pub Victim : Scheduler → (exclude_core : ℕ) → Option ℕ → Type 0
Victim s exclude_core none =
    (j : ℕ) (q : RunQueue) → get_elem? s.run_queues j ≡ some q → j ≢ exclude_core → len q ≤ 1
Victim s exclude_core (some v) =
    (q : RunQueue) × (get_elem? s.run_queues v ≡ some q)
    × (v ≢ exclude_core)
    × (1 < len q)
    × ((j : ℕ) (q' : RunQueue)
        → get_elem? s.run_queues j ≡ some q'
        → j ≢ exclude_core
        → len q' ≤ len q)

Robbed-Victim :
    (s : Scheduler) (ex : ℕ) (r : Option ℕ) → Robbed s.run_queues ex 0 1 none r → Victim s ex r
Robbed-Victim s ex none (inl (e, all)) = λ j q at ne. all j q at (omega arith)
Robbed-Victim s ex (some v) (inl (e, all)) = cc
Robbed-Victim s ex none (inr (k, q, e, lt, best)) = cc
Robbed-Victim s ex (some v) (inr (k, q, e, lt, best)) =
    let e' : v ≡ k = ground arith in
    rw e' (q, best.at, omega (arith, best.other), lt, λ j q' at ne. best.most j q' at (omega arith))

-- For a scheduler with at most 2^32 queues, the core that `busiest_core` picks is a `Victim`.
pub busiest_core-Victim :
    (s : Scheduler) (ex : ℕ) → length s.run_queues ≤ 2 ^ 32 → Victim s ex (busiest_core s ex)
unfolding busiest_core
busiest_core-Victim s ex few =
    Robbed-Victim s ex _ (busiest_loop-Robbed ex s.run_queues 0 1 none (omega arith))
