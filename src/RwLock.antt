-- ===== src/RwLock.antt =====
-- src/spinlock.rs, `RwLock`: the state word, and what a thread does with it, an atomic access at a
-- time. The logging and the count of spins are left out.
pub mod Safety
mod Tests
use smp_nostd.Base.{ℕ, ◌+◌, ◌-◌, ◌%◌, ◌^◌, ◌≡◌, ◌≢◌, u32, u32_max}
use smp_nostd.Base.Threads.{System}

abbrev pub writer_bit : ℕ
writer_bit = u32_max

pub record RwLock : Type 0 where
  pub state : ℕ

-- `RwLock::new`
abbrev pub new : RwLock
new = record { state = 0 }

pub data Pc : Type 0 where
  idle : Pc
  wanting_read : Pc  -- the loop of `read`
  joining : (current : ℕ) → Pc  -- `read`, before the compare-exchange
  trying : (current : ℕ) → Pc  -- `try_read`, before the compare-exchange
  reading : Pc  -- a read guard is alive
  wanting_write : Pc  -- the loop of `write`
  writing : Pc  -- a write guard is alive

abbrev at : ℕ → RwLock
at state = record { state = state }

-- A weak compare-exchange may fail at any time.
pub data Move (l : RwLock) : Pc → RwLock → Pc → Type 0 where
  read : Move l idle l wanting_read
  read_busy : l.state ≡ writer_bit → Move l wanting_read l wanting_read
  read_load : l.state ≢ writer_bit → Move l wanting_read l (joining l.state)
  read_win : {current : ℕ} → l.state ≡ current → Move l (joining current) (at (current + 1)) reading
  read_retry : {current : ℕ} → Move l (joining current) l wanting_read
  try_read_busy : l.state ≡ writer_bit → Move l idle l idle
  try_read_load : l.state ≢ writer_bit → Move l idle l (trying l.state)
  try_read_win :
      {current : ℕ} → l.state ≡ current → Move l (trying current) (at (current + 1)) reading
  try_read_lose : {current : ℕ} → l.state ≢ current → Move l (trying current) l idle
  write : Move l idle l wanting_write
  write_win : l.state ≡ 0 → Move l wanting_write (at writer_bit) writing
  write_retry : Move l wanting_write l wanting_write
  try_write_win : l.state ≡ 0 → Move l idle (at writer_bit) writing
  try_write_lose : l.state ≢ 0 → Move l idle l idle
  drop_read : Move l reading (at (u32 (l.state + 2 ^ 32 - 1))) idle
  drop_write : Move l writing (at 0) idle

abbrev pub init : System RwLock Pc
init = record { mem = new; pc = λ _. idle }
