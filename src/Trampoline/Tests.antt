-- ===== src/Trampoline/Tests.antt =====
-- The identity-mapped page, in a memory of ones.
use smp_nostd.Base.{ℕ, ◌+◌, ◌≤◌, ◌<◌, ◌≡◌, ◌⊎◌, false, arith}
use smp_nostd.Trampoline.{
  trampoline_phys, Memory, load_word, ApTrampoline, set_ap_data, is_ap_ready,
}
use smp_nostd.Trampoline.Offset
use smp_nostd.Trampoline.Layout.{set_ap_data-fields}

abbrev identity : ApTrampoline
identity = record { trampoline_vaddr = trampoline_phys }

abbrev ones : Memory
ones _ = 1

abbrev prepared : Memory
prepared = set_ap_data identity 0x1000 0x9000 0x100000 2 ones

set_ap_data-fields_example :
    (load_word 8 (0x8F00 + Offset.pml4_addr) prepared ≡ 0x1000)
    × (load_word 8 (0x8F00 + Offset.stack_top) prepared ≡ 0x9000)
    × (load_word 8 (0x8F00 + Offset.entry_point) prepared ≡ 0x100000)
    × (load_word 4 (0x8F00 + Offset.cpu_index) prepared ≡ 2)
    × (is_ap_ready identity prepared ≡ false)
    × ((j : ℕ) → (j < 0x8F00) ⊎ (0x8F00 + 32 ≤ j) → prepared j ≡ ones j)
set_ap_data-fields_example =
    set_ap_data-fields identity 0x1000 0x9000 0x100000 2 ones (omega arith) (omega arith)
      (omega arith) (omega arith)
