-- ===== src/Hardware.antt =====
-- The hardware that the drivers reach, as functions on the state of the devices: memory-mapped
-- registers, model-specific registers and the CPUID instruction.
use smp_nostd.Base.{ℕ}

-- `ptr::write_volatile` and `ptr::read_volatile` of 32 bits.
pub record Bus (Dev : Type 0) : Type 0 where
  pub write_volatile : Dev → (address value : ℕ) → Dev
  pub read_volatile : Dev → (address : ℕ) → ℕ × Dev

-- `rdmsr` and `wrmsr` of 64 bits on the processor that runs the code, and ECX after `cpuid`.
pub record Hardware (Dev : Type 0) : Type 0 where
  pub bus : Bus Dev
  pub rdmsr : Dev → (msr : ℕ) → ℕ × Dev
  pub wrmsr : Dev → (msr value : ℕ) → Dev
  pub cpuid_ecx : Dev → (eax : ℕ) → ℕ
