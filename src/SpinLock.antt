-- ===== src/SpinLock.antt =====
-- src/spinlock.rs, `SpinLock`: the flag that the CPUs share and the flags register of each CPU, an
-- access at a time, where a CPU uses one lock; SpinLock/Nesting.antt has the flags of a CPU with guards of
-- several locks. The logging and the count of spins are left out.
pub mod Safety
pub mod Nesting
pub mod Ordering
mod Tests
use smp_nostd.Base.{ℕ, ◌≡◌, Bool, true, false}
use smp_nostd.Base.Threads.{System}
use smp_nostd.Interrupts.{disable_interrupts, restore_interrupts}

pub record SpinLock : Type 0 where
  pub locked : Bool

-- `SpinLock::new`
abbrev pub new : SpinLock
new = record { locked = false }

-- Where a CPU stands; what `disable_interrupts` returned is kept in a local, then in the guard.
pub data Pc : Type 0 where
  idle : Pc
  acquiring : (was_enabled : Bool) → Pc  -- `lock`, before the compare-exchange
  watching : (was_enabled : Bool) → Pc  -- `lock`, the inner loop
  trying : (was_enabled : Bool) → Pc  -- `try_lock`, before the compare-exchange
  failed : (was_enabled : Bool) → Pc  -- `try_lock`, before the interrupts are restored
  holding : (was_enabled : Bool) → Pc  -- a guard is alive
  released : (was_enabled : Bool) → Pc  -- `drop`, before the interrupts are restored

pub record Cpu : Type 0 where
  pub at : Pc
  pub rflags : ℕ

abbrev pub cpu : Pc → ℕ → Cpu
cpu p r = record { at = p; rflags = r }

pub data Move (l : SpinLock) : Cpu → SpinLock → Cpu → Type 0 where
  lock :
      {r : ℕ}
      → Move l (cpu idle r) l (cpu (acquiring (disable_interrupts r).0) (disable_interrupts r).1)
  acquire :
      {w : Bool} {r : ℕ}
      → l.locked ≡ false
      → Move l (cpu (acquiring w) r) (record l { locked = true }) (cpu (holding w) r)
  -- The weak compare-exchange fails when the lock is taken, or spuriously.
  miss : {w : Bool} {r : ℕ} → Move l (cpu (acquiring w) r) l (cpu (watching w) r)
  watch : {w : Bool} {r : ℕ} → l.locked ≡ true → Move l (cpu (watching w) r) l (cpu (watching w) r)
  retry :
      {w : Bool} {r : ℕ} → l.locked ≡ false → Move l (cpu (watching w) r) l (cpu (acquiring w) r)
  try_lock :
      {r : ℕ}
      → Move l (cpu idle r) l (cpu (trying (disable_interrupts r).0) (disable_interrupts r).1)
  win :
      {w : Bool} {r : ℕ}
      → l.locked ≡ false
      → Move l (cpu (trying w) r) (record l { locked = true }) (cpu (holding w) r)
  lose : {w : Bool} {r : ℕ} → l.locked ≡ true → Move l (cpu (trying w) r) l (cpu (failed w) r)
  give_up : {w : Bool} {r : ℕ} → Move l (cpu (failed w) r) l (cpu idle (restore_interrupts w r))
  unlock :
      {w : Bool} {r : ℕ}
      → Move l (cpu (holding w) r) (record l { locked = false }) (cpu (released w) r)
  restore : {w : Bool} {r : ℕ} → Move l (cpu (released w) r) l (cpu idle (restore_interrupts w r))

-- `is_locked`
pub is_locked : SpinLock → Bool
is_locked l = l.locked

-- A free lock and CPUs outside it, with any flags.
abbrev pub init : (ℕ → ℕ) → System SpinLock Cpu
init rflags = record { mem = new; pc = λ i. cpu idle (rflags i) }
