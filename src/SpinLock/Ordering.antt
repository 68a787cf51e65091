-- ===== src/SpinLock/Ordering.antt =====
-- src/spinlock.rs, `SpinLock` on processors with store buffers: the data that the lock guards, one word, is
-- written through a guard with plain stores, and dropping the guard is a store with release ordering, which
-- is a plain store there. A compare-exchange, with the lock prefix, waits until the buffer of its processor
-- is empty. The interrupt flag is left out.
pub mod Buffers
pub mod Visible
mod Tests
use smp_nostd.Base.{ℕ, ◌≡◌, ◌⊎◌, Bool, true, false, List, [], ◌∷◌, ◌++◌}
use smp_nostd.Base.Threads.{System}
use smp_nostd.Fences.{Fence, drains}

pub data Pc : Type 0 where
  outside : Pc
  holding : Pc  -- a guard is alive

-- A store that has not reached the memory.
pub data Write : Type 0 where
  set_data : (value : ℕ) → Write
  set_unlocked : Write

pub record Cpu : Type 0 where
  pub at : Pc
  pub buffer : List Write

abbrev pub cpu : Pc → List Write → Cpu
cpu p ws = record { at = p; buffer = ws }

-- The two words, and the value that was last written through a guard by any processor.
pub record Memory : Type 0 where
  pub locked : Bool
  pub data_word : ℕ
  pub latest : ℕ

unfoldable pub commit_write : Write → Memory → Memory
commit_write (set_data v) m = record m { data_word = v }
commit_write set_unlocked m = record m { locked = false }

-- What a load of the data gives: the youngest store in the own buffer, or else the word in memory.
unfoldable pub read_data : List Write → (data_word : ℕ) → ℕ
read_data [] d = d
read_data (set_data v ∷ ws) d = read_data ws v
read_data (set_unlocked ∷ ws) d = read_data ws d

pub data Move (m : Memory) : Cpu → Memory → Cpu → Type 0 where
  acquire : m.locked ≡ false → Move m (cpu outside []) (record m { locked = true }) (cpu holding [])
  miss : Move m (cpu outside []) m (cpu outside [])
  write :
      {ws : List Write} (v : ℕ)
      → Move m (cpu holding ws) (record m { latest = v }) (cpu holding (ws ++ set_data v ∷ []))
  unlock : {ws : List Write} → Move m (cpu holding ws) m (cpu outside (ws ++ set_unlocked ∷ []))
  fence :
      {p : Pc} {ws : List Write} (f : Fence)
      → (drains f ≡ false) ⊎ (ws ≡ [])
      → Move m (cpu p ws) m (cpu p ws)
  commit :
      {p : Pc} {w : Write} {ws : List Write} → Move m (cpu p (w ∷ ws)) (commit_write w m) (cpu p ws)

-- The lock is free, its data is `d`, and no processor has called it.
abbrev pub init : (d : ℕ) → System Memory Cpu
init d = record {
  mem = record { locked = false; data_word = d; latest = d };
  pc = λ i. cpu outside [];
}
