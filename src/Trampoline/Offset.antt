-- ===== src/Trampoline/Offset.antt =====
-- The offsets of the fields of `TrampolineData`, `repr(C)`.
use Prim.Native.Nat.{ℕ}

abbrev pub pml4_addr : ℕ
pml4_addr = 0x00

abbrev pub stack_top : ℕ
stack_top = 0x08

abbrev pub entry_point : ℕ
entry_point = 0x10

abbrev pub cpu_index : ℕ
cpu_index = 0x18

abbrev pub ap_ready : ℕ
ap_ready = 0x1C
