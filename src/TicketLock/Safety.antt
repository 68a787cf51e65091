-- ===== src/TicketLock/Safety.antt =====
-- What the ticket lock promises: one holder, no deadlock, first come first served.
use smp_nostd.Base.{ℕ, ◌^◌, ◌<◌, ◌≡◌, ◌≢◌, ◌↔◌, ◌⊎◌, true, some, arith}
use smp_nostd.Base.Threads.{System, Reach}
use smp_nostd.TicketLock.{TicketLock, Pc, waiting, compared, holding, Move, init, is_locked}
use smp_nostd.TicketLock.Invariant.{ticket_of, Reach-Inv}

-- In a run of fewer than 2^64 moves, of any number of threads, no two threads hold the lock.
pub mutual_exclusion :
    {n k : ℕ} {s : System TicketLock Pc}
    → Reach Move n init k s
    → k < 2 ^ 64
    → (i j : ℕ) → s.pc i ≡ holding
    → s.pc j ≡ holding
    → i ≡ j
mutual_exclusion {s = s} r h i j hi hj =
    (Reach-Inv r h).unique i j s.mem.now_serving (ground arith) (ground arith)

-- In such a run, whenever a thread waits, some thread either holds the lock or waits with the ticket
-- that is being served, so that its next load lets it in: the lock is never stuck.
pub no_deadlock :
    {n k : ℕ} {s : System TicketLock Pc} (i t : ℕ)
    → Reach Move n init k s
    → k < 2 ^ 64
    → s.pc i ≡ waiting t
    → (j : ℕ) × ((s.pc j ≡ holding) ⊎ (s.pc j ≡ waiting s.mem.now_serving))
no_deadlock {s = s} i t r h e =
    let inv = Reach-Inv r h in
    let (lo, hi) = inv.range i t (ground arith) in
    let (j, has) = inv.covered s.mem.now_serving (omega arith) (omega arith) in (j, ground arith)

-- In such a run, while a thread waits with ticket `t`, a thread that waits with ticket `u` can enter
-- only if `u` is smaller, every thread that holds the lock was served before `t`, new tickets are larger
-- than `t`, and no `try_lock` succeeds: waiting threads are served in the order of their tickets.
pub first_come_first_served :
    {n k : ℕ} {s : System TicketLock Pc} (i t : ℕ)
    → Reach Move n init k s
    → k < 2 ^ 64
    → s.pc i ≡ waiting t
    → ((j u : ℕ) → j ≢ i → s.pc j ≡ waiting u → s.mem.now_serving ≡ u → u < t)
      × ((j : ℕ) → s.pc j ≡ holding → s.mem.now_serving < t)
      × (t < s.mem.next_ticket)
      × ((j u : ℕ) → s.pc j ≡ compared u → s.mem.next_ticket ≢ u)
first_come_first_served {s = s} i t r h e =
    let inv = Reach-Inv r h in
    (
      λ j u ne w g. ground (arith, inv.range i t, inv.unique i j t),
      λ j w. ground (arith, inv.range i t, inv.unique i j t),
      ground (arith, inv.range i t),
      λ j u w. ground (arith, inv.range i t, inv.past j),
    )

-- In such a run, the lock reads as locked exactly when some thread waits for it or holds it.
pub is_locked_iff :
    {n k : ℕ} {s : System TicketLock Pc}
    → Reach Move n init k s
    → k < 2 ^ 64
    → (is_locked s.mem ≡ true) ↔ ((i t : ℕ) × (ticket_of s.mem (s.pc i) ≡ some t))
unfolding is_locked
is_locked_iff {s = s} r h =
    let inv = Reach-Inv r h in
    (
      λ e.
          let (i, has) = inv.covered s.mem.now_serving (omega arith) (ground arith) in
          (i, s.mem.now_serving, has),
      λ (i, t, has). ground (arith, inv.range i t),
    )
