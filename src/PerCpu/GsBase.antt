-- ===== src/PerCpu/GsBase.antt =====
-- src/percpu.rs, IA32_GS_BASE: the register of a CPU in which `register_percpu` leaves the pointer that
-- `get_current_cpu` follows.
use smp_nostd.Base.{ℕ, ◌^◌, ◌<◌, ◌≡◌, ◌∙◌, some, arith}
use smp_nostd.Msr.{MsrPort, rdmsr, wrmsr, rdmsr-wrmsr}
use smp_nostd.PerCpu.{PerCpu, Registry, register_percpu}

abbrev pub ia32_gs_base : ℕ
ia32_gs_base = 0xC0000101

module _ {Dev : Type 0} (port : MsrPort Dev) where
  -- The write of `register_percpu`, and the read of `get_current_cpu`, in percpu.rs's own copies of
  -- `wrmsr` and `rdmsr`.
  abbrev pub set_gs_base : Dev → (ptr : ℕ) → Dev
  set_gs_base d ptr = wrmsr port d ia32_gs_base ptr

  abbrev pub gs_base : Dev → ℕ
  gs_base d = (rdmsr port d ia32_gs_base).0

  -- On the CPU `here`, the register holds what the table says.
  pub set_gs_base-register :
      (r r' : Registry) (here ptr : ℕ) (c : PerCpu) (d : Dev)
      → ((eax edx : ℕ)
          → (port.read (port.write d ia32_gs_base eax edx) ia32_gs_base).0 ≡ (eax, edx))
      → ptr < 2 ^ 64
      → register_percpu r here ptr c ≡ some r'
      → gs_base (set_gs_base d ptr) ≡ r'.gs_base here
  unfolding register_percpu
  set_gs_base-register r r' here ptr c d law h registered =
      rdmsr-wrmsr port d ia32_gs_base ptr law h ∙ ground (arith, registered)
