-- ===== src/Trampoline/Instructions.antt =====
-- src/trampoline.rs, TRAMPOLINE_CODE: what its instructions do, the loads of the segment registers with the
-- descriptors of TRAMPOLINE_GDT among them.
use smp_nostd.Base.{
  ℕ, ◌+◌, ◌-◌, ◌*◌, ◌/◌, ◌%◌, ◌^◌, Bool, true, false, not, ◌&&◌, ◌||◌, Option, none, some, ltb,
  ◌==◌, if◌then◌else◌, bit_or, u64,
}
use smp_nostd.Trampoline.Machine.{
  CodeSize, code16, code32, code64, Core, Segment, ds, ss, other, Control, cr0, cr3, cr4, Instr,
  cli, nop, hlt, rdmsr, wrmsr, xor_ax, call_rax, add_mem_al, undefined, load_segment, lgdt,
  read_control, write_control, or_al, or_eax, mov_ax, mov_ecx, cmp_al, far_jump, short_jump,
  load_eax, load, store_dword, fault, halt, call, Step, go, stop, bit, protected, paging, long,
  set_ax, control, control_fits, with_register, load_operand, store_operand, linear, or_fault,
  checked,
}

-- The fields of a descriptor.
abbrev pub descriptor_base : (word : ℕ) → ℕ
descriptor_base word = word / 2 ^ 16 % 2 ^ 24 + word / 2 ^ 56 * 2 ^ 24

-- Present, and a code or data segment; then code, or data that can be written.
abbrev pub is_present : (word : ℕ) → Bool
is_present word = bit 47 word && bit 44 word

abbrev pub is_code : (word : ℕ) → Bool
is_code word = is_present word && bit 43 word

abbrev pub is_data : (word : ℕ) → Bool
is_data word = is_present word && not (bit 43 word)

abbrev pub segment_fits : Segment → (word : ℕ) → Bool
segment_fits ss word = is_data word && bit 41 word
segment_fits ds word = is_data word || (is_code word && bit 41 word)
segment_fits other word = is_data word || (is_code word && bit 41 word)

abbrev pub with_base : Segment → (base : ℕ) → Core → Core
with_base ds base c = record c { ds_base = base }
with_base ss base c = c
with_base other base c = c

abbrev pub null_fits : Segment → CodeSize → Bool
null_fits ss code64 = true
null_fits ss code32 = false
null_fits ss code16 = false
null_fits ds size = true
null_fits other size = true

abbrev pub code_size : (in_long : Bool) → (word : ℕ) → CodeSize
code_size in_long word =
    if in_long && bit 53 word then code64 else if bit 54 word then code32 else code16

-- A descriptor of the table, if the selector is within its limit.
unfoldable pub descriptor : (selector : ℕ) → Core → Option ℕ
unfolding load_operand
descriptor selector c =
    if ltb c.gdt_limit (selector / 8 * 8 + 7)
    then none
    else load_operand 8 (c.gdt_base + selector / 8 * 8) c

-- In real mode a segment starts at 16 times its selector. A null selector fits no stack segment
-- outside of 64-bit code.
unfoldable pub load_segment_register : Segment → (selector : ℕ) → Core → Step
unfolding descriptor
load_segment_register s selector c =
    if not (protected c)
    then go (with_base s (selector * 16) c)
    else if ltb selector 4
    then checked c (null_fits s c.size) (with_base s 0 c)
    else elim (descriptor selector c) [
      | none ↦ stop fault c
      | some word ↦ checked c (segment_fits s word) (with_base s (descriptor_base word) c)
    ]

unfoldable pub jump_far : (selector offset : ℕ) → Core → Step
unfolding descriptor
jump_far selector offset c =
    if not (protected c)
    then go (record c { code_base = selector * 16; rip = offset })
    else if ltb selector 4
    then stop fault c
    else elim (descriptor selector c) [
      | none ↦ stop fault c
      | some word ↦ checked c (is_code word) (record c {
        size = code_size (long c && paging c) word;
        code_base = descriptor_base word;
        rip = offset;
      })
    ]

-- `paged value` is what the page tables at `value` say.
module _ (paged : (value address : ℕ) → Option ℕ) where
  abbrev pub with_control : Control → (value : ℕ) → Core → Core
  with_control cr0 value c = record c { cr0 = value }
  with_control cr3 value c = record c { cr3 = value; tables = paged value }
  with_control cr4 value c = record c { cr4 = value }

  -- An instruction, with rip at the next one.
  unfoldable pub exec : Instr → Core → Step
  unfolding load_operand store_operand load_segment_register jump_far
  exec cli c = go c
  exec nop c = go c
  exec hlt c = stop halt c
  exec undefined c = stop fault c
  exec rdmsr c =
      checked c (c.rcx == 0xC0000080) (record c { rax = c.efer % 2 ^ 32; rdx = c.efer / 2 ^ 32 })
  exec wrmsr c =
      checked c (c.rcx == 0xC0000080) (record c { efer = c.rdx % 2 ^ 32 * 2 ^ 32 + c.rax % 2 ^ 32 })
  exec xor_ax c = go (set_ax c 0)
  exec call_rax c = elim (store_operand 8 (u64 (c.rsp + (2 ^ 64 - 8))) c.rip c) [
    | none ↦ stop fault c
    | some c' ↦ stop (call c.rax) (record c' { rsp = u64 (c.rsp + (2 ^ 64 - 8)); rip = c.rax })
  ]
  exec add_mem_al c = elim (load_operand 1 c.rax c) [
    | none ↦ stop fault c
    | some value ↦ or_fault c (store_operand 1 c.rax ((value + c.rax % 2 ^ 8) % 2 ^ 8) c)
  ]
  exec (load_segment s) c = load_segment_register s (c.rax % 2 ^ 16) c
  exec (lgdt address) c = elim (load_operand 6 (linear c address) c) [
    | none ↦ stop fault c
    | some word ↦ go (record c { gdt_limit = word % 2 ^ 16; gdt_base = word / 2 ^ 16 % 2 ^ 24 })
  ]
  exec (read_control r) c = go (record c { rax = control r c })
  exec (write_control r) c =
      checked c (control_fits r (c.rax % 2 ^ 32) c) (with_control r (c.rax % 2 ^ 32) c)
  exec (or_al value) c =
      go (record c { rax = c.rax / 2 ^ 8 * 2 ^ 8 + bit_or (c.rax % 2 ^ 8) value })
  exec (or_eax value) c = go (record c { rax = bit_or (c.rax % 2 ^ 32) value })
  exec (mov_ax value) c = go (set_ax c value)
  exec (mov_ecx value) c = go (record c { rcx = value })
  exec (cmp_al value) c = go c
  exec (far_jump selector offset) c = jump_far selector offset c
  exec (short_jump d) c =
      go (record c { rip = if ltb d 0x80 then c.rip + d else c.rip + d - 0x100 })
  exec (load_eax address) c = elim (load_operand 4 (linear c address) c) [
    | none ↦ stop fault c
    | some value ↦ go (record c { rax = value })
  ]
  exec (load r address) c = elim (load_operand 8 (linear c address) c) [
    | none ↦ stop fault c
    | some value ↦ go (with_register r value c)
  ]
  exec (store_dword address value) c = or_fault c (store_operand 4 (linear c address) value c)
