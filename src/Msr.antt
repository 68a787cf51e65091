-- ===== src/Msr.antt =====
-- src/apic.rs and src/percpu.rs, `rdmsr` and `wrmsr`: a model-specific register is read and written in two
-- halves of 32 bits, EAX and EDX, with its number in ECX.
use smp_nostd.Base.{ℕ, ◌*◌, ◌/◌, ◌^◌, ◌<◌, ◌≡◌, ◌∙◌, ap, bit_or, u32, arith}
use smp_nostd.Base.Bits.{bit_or_high}
use smp_nostd.Hardware.{Bus, Hardware}

-- The two instructions, on the state of the devices; a read gives EAX and EDX.
pub record MsrPort (Dev : Type 0) : Type 0 where
  pub read : Dev → (ecx : ℕ) → (ℕ × ℕ) × Dev
  pub write : Dev → (ecx eax edx : ℕ) → Dev

module _ {Dev : Type 0} (port : MsrPort Dev) where
  unfoldable pub rdmsr : Dev → (msr : ℕ) → ℕ × Dev
  rdmsr d msr = let ((low, high), d') = port.read d msr in (bit_or (high * 2 ^ 32) low, d')

  unfoldable pub wrmsr : Dev → (msr value : ℕ) → Dev
  wrmsr d msr value = port.write d msr (u32 value) (u32 (value / 2 ^ 32))

  -- The hardware with these instructions.
  abbrev pub hardware : Bus Dev → (cpuid_ecx : Dev → ℕ → ℕ) → Hardware Dev
  unfolding rdmsr wrmsr
  hardware bus cpuid_ecx = record { bus = bus; rdmsr = rdmsr; wrmsr = wrmsr; cpuid_ecx = cpuid_ecx }

  -- A register that gives back the halves that were written to it gives back the word.
  pub rdmsr-wrmsr :
      (d : Dev) (msr value : ℕ)
      → ((eax edx : ℕ) → (port.read (port.write d msr eax edx) msr).0 ≡ (eax, edx))
      → value < 2 ^ 64
      → (rdmsr (wrmsr d msr value) msr).0 ≡ value
  unfolding rdmsr wrmsr
  rdmsr-wrmsr d msr value law h =
      ap (λ (w : ℕ × ℕ). bit_or (w.1 * 2 ^ 32) w.0) (law (u32 value) (u32 (value / 2 ^ 32)))
      ∙ bit_or_high 32 (u32 (value / 2 ^ 32)) (u32 value) (omega arith)
      ∙ omega arith
