-- ===== src/Trampoline/Startup.antt =====
pub mod Faulting
pub mod Bytes
pub mod Overwritten
pub mod Outcome
mod Tests
-- src/trampoline.rs: an application processor that starts in the page that `install` and `set_ap_data` have
-- written.
use smp_nostd.Base.{
  ℕ, ◌+◌, ◌*◌, ◌/◌, ◌%◌, ◌^◌, ◌≤◌, ◌<◌, ◌≡◌, ◌⊎◌, inl, inr, refl, Bool, true, false, Option, none,
  some, if◌then◌else◌, leb, ltb, ◌&&◌, List, [], ◌∷◌, arith,
}
use smp_nostd.Trampoline.{
  Memory, ApTrampoline, trampoline_page, trampoline_phys, install, set_ap_data, is_ap_ready,
  load_word, store_word, copy, zero_bytes,
}
use smp_nostd.Trampoline.Machine.{
  CodeSize, code16, code32, code64, Core, paging, Step, go, stop, End, fault, halt, unknown, call,
  translate, load_operand, store_operand,
}
use smp_nostd.Trampoline.Instructions.{descriptor, load_segment_register, jump_far, exec}
use smp_nostd.Trampoline.Decode.{
  encodings, after_opcode, word_of, decode_one, decode, window, execute, step, run,
}

-- A processor after STARTUP with the page as its vector, its caches on or off.
abbrev pub started : (caches_off : Bool) → Memory → Core
started caches_off m = record {
  size = code16;
  code_base = trampoline_page * 2 ^ 12;
  ds_base = 0;
  rip = 0;
  rax = 0;
  rcx = 0;
  rdx = 0;
  rdi = 0;
  rsp = 0;
  cr0 = if caches_off then 0x60000010 else 0x10;
  cr3 = 0;
  cr4 = 0;
  efer = 0;
  gdt_base = 0;
  gdt_limit = 0xFFFF;
  tables = λ address. some address;
  memory = m;
}

abbrev pub at_page : ApTrampoline
at_page = record { trampoline_vaddr = trampoline_phys }

-- The memory that the boot processor has prepared.
abbrev pub prepared : (pml4_addr stack_top entry_point cpu_index : ℕ) → Memory → Memory
prepared pml4_addr stack_top entry_point cpu_index m =
    set_ap_data at_page pml4_addr stack_top entry_point cpu_index (install at_page m)

module _ (paged : (value address : ℕ) → Option ℕ) (pml4_addr stack_top entry_point cpu_index : ℕ)
    (m : Memory) where
  abbrev page : Memory
  page = prepared pml4_addr stack_top entry_point cpu_index m

  -- Paging has just been switched on.
  abbrev pub with_paging : (caches_off : Bool) → (tables : ℕ) → Core
  with_paging caches_off value = record {
    size = code32;
    code_base = 0;
    ds_base = 0;
    rip = 0x8058;
    rax = if caches_off then 0xE0000011 else 0x80000011;
    rcx = 0xC0000080;
    rdx = 0;
    rdi = 0;
    rsp = 0;
    cr0 = if caches_off then 0xE0000011 else 0x80000011;
    cr3 = value;
    cr4 = 0x20;
    efer = 0x100;
    gdt_base = 0x8088;
    gdt_limit = 0x27;
    tables = paged value;
    memory = page;
  }

  pub run-with_paging :
      (caches_off : Bool)
      → run paged 28 (started caches_off page)
        ≡ go (with_paging caches_off (load_word 4 0x8F00 page % 2 ^ 32))
  unfolding run step execute window encodings after_opcode word_of decode_one decode exec translate
      load_operand store_operand descriptor load_segment_register jump_far install set_ap_data copy
      zero_bytes load_word store_word
  run-with_paging true = refl
  run-with_paging false = refl

  pub low_word : load_word 4 0x8F00 page % 2 ^ 32 ≡ pml4_addr % 2 ^ 32
  unfolding set_ap_data load_word store_word
  low_word = omega arith

  -- The tables at `value` leave the page where it is.
  unfoldable pub identity_in_page : (value : ℕ) → ℕ → Option ℕ
  identity_in_page value address =
      if leb trampoline_phys address && ltb address (trampoline_phys + 4096)
      then some address
      else paged value address

  pub identity_in_page_lem :
      (value : ℕ)
      → ((address : ℕ)
          → trampoline_phys ≤ address
          → address < trampoline_phys + 4096
          → paged value address ≡ some address)
      → identity_in_page value ≡ paged value
  unfolding identity_in_page
  identity_in_page_lem value identity i address = pointwise address i
    where
      pointwise : (address : ℕ) → identity_in_page value address ≡ paged value address
      pointwise address = ground (arith, identity address)

  -- The stack pointer is loaded, and what is left of the ready store is done.
  abbrev pub in_long_mode : (caches_off : Bool) → (value : ℕ) → Core
  in_long_mode caches_off value = record {
    size = code64;
    code_base = 0;
    ds_base = 0;
    rip = 0x8084;
    rax = if caches_off then 0xE0000000 else 0x80000000;
    rcx = 0xC0000080;
    rdx = 0;
    rdi = 0;
    rsp = load_word 8 0x8F08 page;
    cr0 = if caches_off then 0xE0000011 else 0x80000011;
    cr3 = value;
    cr4 = 0x20;
    efer = 0x100;
    gdt_base = 0x8088;
    gdt_limit = 0x27;
    tables = identity_in_page value;
    memory = store_word 4 0x8F18 0x80880027 page;
  }

  pub run-in_long_mode :
      (caches_off : Bool) (value : ℕ)
      → run paged 10 (record (with_paging caches_off value) { tables = identity_in_page value })
        ≡ go (in_long_mode caches_off value)
  unfolding run step execute window encodings after_opcode word_of decode_one decode exec translate
      load_operand store_operand descriptor load_segment_register jump_far install set_ap_data copy
      zero_bytes load_word store_word identity_in_page
  run-in_long_mode true value = refl
  run-in_long_mode false value = refl
