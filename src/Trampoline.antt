-- ===== src/Trampoline.antt =====
-- src/trampoline.rs: the page that starts the application processors, in a memory of bytes. The
-- logging is left out.
pub mod Offset
pub mod Words
pub mod Layout
pub mod Handshake
pub mod Machine
pub mod Instructions
pub mod Decode
pub mod Startup
mod Tests
use smp_nostd.Base.{
  ℕ, zero, suc, ◌+◌, ◌*◌, ◌/◌, ◌%◌, ◌^◌, Bool, true, false, not, List, [], ◌∷◌, ◌==◌, if◌then◌else◌,
}

abbrev pub trampoline_page : ℕ
trampoline_page = 0x08

abbrev pub trampoline_phys : ℕ
trampoline_phys = trampoline_page * 2 ^ 12

abbrev pub trampoline_data_offset : ℕ
trampoline_data_offset = 0xF00

abbrev pub trampoline_data_phys : ℕ
trampoline_data_phys = trampoline_phys + trampoline_data_offset

-- TRAMPOLINE_CODE
abbrev pub trampoline_code : List ℕ
trampoline_code =
    0xFA ∷ 0x31 ∷ 0xC0 ∷ 0x8E ∷ 0xD8 ∷ 0x8E ∷ 0xC0 ∷ 0x8E ∷ 0xD0 ∷ 0x0F ∷ 0x01 ∷ 0x16 ∷ 0x80 ∷ 0x80
    ∷ 0x0F ∷ 0x20 ∷ 0xC0 ∷ 0x0C ∷ 0x01 ∷ 0x0F ∷ 0x22 ∷ 0xC0 ∷ 0x66 ∷ 0xEA ∷ 0x20 ∷ 0x80 ∷ 0x00
    ∷ 0x00 ∷ 0x08 ∷ 0x00 ∷ 0x90 ∷ 0x90 ∷ 0x66 ∷ 0xB8 ∷ 0x10 ∷ 0x00 ∷ 0x8E ∷ 0xD8 ∷ 0x8E ∷ 0xC0
    ∷ 0x8E ∷ 0xE0 ∷ 0x8E ∷ 0xE8 ∷ 0x8E ∷ 0xD0 ∷ 0x0F ∷ 0x20 ∷ 0xE0 ∷ 0x83 ∷ 0xC8 ∷ 0x20 ∷ 0x0F
    ∷ 0x22 ∷ 0xE0 ∷ 0xA1 ∷ 0x00 ∷ 0x8F ∷ 0x00 ∷ 0x00 ∷ 0x0F ∷ 0x22 ∷ 0xD8 ∷ 0xB9 ∷ 0x80 ∷ 0x00
    ∷ 0x00 ∷ 0xC0 ∷ 0x0F ∷ 0x32 ∷ 0x0D ∷ 0x00 ∷ 0x01 ∷ 0x00 ∷ 0x00 ∷ 0x0F ∷ 0x30 ∷ 0x0F ∷ 0x20
    ∷ 0xC0 ∷ 0x0D ∷ 0x00 ∷ 0x00 ∷ 0x00 ∷ 0x80 ∷ 0x0F ∷ 0x22 ∷ 0xC0 ∷ 0xEA ∷ 0x60 ∷ 0x80 ∷ 0x00
    ∷ 0x00 ∷ 0x18 ∷ 0x00 ∷ 0x90 ∷ 0x66 ∷ 0xB8 ∷ 0x20 ∷ 0x00 ∷ 0x8E ∷ 0xD8 ∷ 0x8E ∷ 0xC0 ∷ 0x8E
    ∷ 0xD0 ∷ 0x66 ∷ 0x31 ∷ 0xC0 ∷ 0x8E ∷ 0xE0 ∷ 0x8E ∷ 0xE8 ∷ 0x48 ∷ 0x8B ∷ 0x24 ∷ 0x25 ∷ 0x08
    ∷ 0x8F ∷ 0x00 ∷ 0x00 ∷ 0xC7 ∷ 0x04 ∷ 0x25 ∷ 0x18 ∷ 0x8F ∷ 0x00 ∷ 0x00 ∷ 0x01 ∷ 0x00 ∷ 0x00
    ∷ 0x00 ∷ 0x48 ∷ 0x8B ∷ 0x3C ∷ 0x25 ∷ 0x14 ∷ 0x8F ∷ 0x00 ∷ 0x00 ∷ 0x48 ∷ 0x8B ∷ 0x04 ∷ 0x25
    ∷ 0x10 ∷ 0x8F ∷ 0x00 ∷ 0x00 ∷ 0xFF ∷ 0xD0 ∷ 0xFA ∷ 0xF4 ∷ 0xEB ∷ 0xFD ∷ []

-- TRAMPOLINE_GDT
abbrev pub trampoline_gdt : List ℕ
trampoline_gdt =
    0x00 ∷ 0x00 ∷ 0x00 ∷ 0x00 ∷ 0x00 ∷ 0x00 ∷ 0x00 ∷ 0x00 ∷ 0xFF ∷ 0xFF ∷ 0x00 ∷ 0x00 ∷ 0x00 ∷ 0x9A
    ∷ 0xCF ∷ 0x00 ∷ 0xFF ∷ 0xFF ∷ 0x00 ∷ 0x00 ∷ 0x00 ∷ 0x92 ∷ 0xCF ∷ 0x00 ∷ 0x00 ∷ 0x00 ∷ 0x00
    ∷ 0x00 ∷ 0x00 ∷ 0x9A ∷ 0x20 ∷ 0x00 ∷ 0x00 ∷ 0x00 ∷ 0x00 ∷ 0x00 ∷ 0x00 ∷ 0x92 ∷ 0x00 ∷ 0x00 ∷ []

-- TRAMPOLINE_GDT_DESC
abbrev pub trampoline_gdt_desc : List ℕ
trampoline_gdt_desc = 0x27 ∷ 0x00 ∷ 0x88 ∷ 0x80 ∷ 0x00 ∷ 0x00 ∷ []

abbrev pub Memory : Type 0
Memory = ℕ → ℕ

abbrev pub store : Memory → ℕ → ℕ → Memory
store m address byte j = if address == j then byte else m j

-- `ptr::write_bytes(base, 0, n)`
pub zero_bytes : Memory → (base n : ℕ) → Memory
zero_bytes m base zero = m
zero_bytes m base (suc n) = store (zero_bytes m base n) (base + n) 0

-- `ptr::copy_nonoverlapping` from a constant
pub copy : List ℕ → (base : ℕ) → Memory → Memory
copy [] base m = m
copy (b ∷ bs) base m = store (copy bs (base + 1) m) base b

-- Little-endian words of `n` bytes.
unfoldable pub store_word : (n address value : ℕ) → Memory → Memory
store_word zero address value m = m
store_word (suc n) address value m =
    store (store_word n (address + 1) (value / 2 ^ 8) m) address (value % 2 ^ 8)

unfoldable pub load_word : (n address : ℕ) → Memory → ℕ
load_word zero address m = 0
load_word (suc n) address m = m address + load_word n (address + 1) m * 2 ^ 8

pub record ApTrampoline : Type 0 where
  pub trampoline_vaddr : ℕ

-- `install`
unfoldable pub install : ApTrampoline → Memory → Memory
unfolding copy zero_bytes
install t m =
    let zeroed = zero_bytes m t.trampoline_vaddr 4096 in
    let coded = copy trampoline_code t.trampoline_vaddr zeroed in
    let described = copy trampoline_gdt_desc (t.trampoline_vaddr + 0x80) coded in
    copy trampoline_gdt (t.trampoline_vaddr + 0x88) described

-- `set_ap_data`
unfoldable pub set_ap_data :
    ApTrampoline → (pml4_addr stack_top entry_point cpu_index : ℕ) → Memory → Memory
unfolding store_word
set_ap_data t pml4_addr stack_top entry_point cpu_index m =
    let block = t.trampoline_vaddr + trampoline_data_offset in
    let m1 = store_word 8 (block + Offset.pml4_addr) pml4_addr m in
    let m2 = store_word 8 (block + Offset.stack_top) stack_top m1 in
    let m3 = store_word 8 (block + Offset.entry_point) entry_point m2 in
    let m4 = store_word 4 (block + Offset.cpu_index) cpu_index m3 in
    store_word 4 (block + Offset.ap_ready) 0 m4

-- `is_ap_ready`
unfoldable pub is_ap_ready : ApTrampoline → Memory → Bool
unfolding load_word
is_ap_ready t m =
    not (load_word 4 (t.trampoline_vaddr + trampoline_data_offset + Offset.ap_ready) m == 0)

-- `wait_ap_ready`; `seen i` is the memory at the load of iteration `i`.
unfoldable pub wait_from : ApTrampoline → (n i : ℕ) → (ℕ → Memory) → Bool
unfolding is_ap_ready
wait_from t zero i seen = false
wait_from t (suc n) i seen = if is_ap_ready t (seen i) then true else wait_from t n (i + 1) seen

unfoldable pub wait_ap_ready : ApTrampoline → (max_iterations : ℕ) → (ℕ → Memory) → Bool
unfolding wait_from
wait_ap_ready t max_iterations seen = wait_from t max_iterations 0 seen
