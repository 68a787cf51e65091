-- ===== src/TicketLock.antt =====
-- src/spinlock.rs, `TicketLock`: the two counters, and what a thread does with them, an atomic
-- access at a time. The logging and the count of spins are left out.
pub mod Invariant
pub mod Safety
mod Tests
use smp_nostd.Base.{ℕ, ◌+◌, ◌≡◌, ◌≢◌, Bool, not, ◌==◌, fetch_add}
use smp_nostd.Base.Threads.{System, Step, Reach}

-- The counters of `TicketLock`.
pub record TicketLock : Type 0 where
  pub next_ticket : ℕ
  pub now_serving : ℕ

-- `TicketLock::new`
abbrev pub new : TicketLock
new = record { next_ticket = 0; now_serving = 0 }

-- Where a thread stands, with its live local variables.
pub data Pc : Type 0 where
  idle : Pc
  waiting : (ticket : ℕ) → Pc  -- the loop of `lock`
  loaded : (current : ℕ) → Pc  -- `try_lock`, after the first load
  compared : (next : ℕ) → Pc  -- `try_lock`, before the compare-exchange
  holding : Pc  -- a guard is alive

-- One access of one thread. From `idle` a thread may call `lock` or `try_lock`; dropping the guard
-- leads from `holding` back to `idle`.
pub data Move (l : TicketLock) : Pc → TicketLock → Pc → Type 0 where
  take : Move l idle (record l { next_ticket = fetch_add l.next_ticket 1 }) (waiting l.next_ticket)
  spin : {ticket : ℕ} → l.now_serving ≢ ticket → Move l (waiting ticket) l (waiting ticket)
  enter : {ticket : ℕ} → l.now_serving ≡ ticket → Move l (waiting ticket) l holding
  load : Move l idle l (loaded l.now_serving)
  differ : {current : ℕ} → current ≢ l.next_ticket → Move l (loaded current) l idle
  agree :
      {current : ℕ} → current ≡ l.next_ticket → Move l (loaded current) l (compared l.next_ticket)
  win :
      {next : ℕ}
      → l.next_ticket ≡ next
      → Move l (compared next) (record l { next_ticket = fetch_add next 1 }) holding
  lose : {next : ℕ} → l.next_ticket ≢ next → Move l (compared next) l idle
  unlock : Move l holding (record l { now_serving = fetch_add l.now_serving 1 }) idle

-- `is_locked`, with both loads in one state.
pub is_locked : TicketLock → Bool
is_locked l = not (l.now_serving == l.next_ticket)

-- `n` threads that have not called the lock yet.
abbrev pub init : System TicketLock Pc
init = record { mem = new; pc = λ _. idle }
