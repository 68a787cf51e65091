-- ===== src/Trampoline/Decode.antt =====
-- src/trampoline.rs, TRAMPOLINE_CODE: the encodings that its bytes use, for each size of code, and the
-- steps of a processor that fetches, decodes and executes them.
use smp_nostd.Base.{
  ℕ, zero, suc, ◌+◌, ◌*◌, ◌/◌, ◌%◌, ◌^◌, Option, none, some, List, [], ◌∷◌, ◌++◌, length, ◌==◌,
  if◌then◌else◌,
}
use smp_nostd.Trampoline.Machine.{
  CodeSize, code16, code32, code64, Core, ds, ss, other, rax, rsp, rdi, cr0, cr3, cr4, Instr, cli,
  nop, hlt, rdmsr, wrmsr, xor_ax, call_rax, add_mem_al, load_segment, lgdt, read_control,
  write_control, or_al, or_eax, mov_ax, mov_ecx, cmp_al, far_jump, short_jump, load_eax, load,
  store_dword, undefined, unknown, fault, Step, go, stop, translate,
}
use smp_nostd.Trampoline.Instructions.{exec}

-- The bytes of an opcode, how many bytes of operands follow, and the instruction for their word.
pub record Encoding : Type 0 where
  pub opcode : List ℕ
  pub operands : ℕ
  pub instr : ℕ → Instr

abbrev plain : List ℕ → Instr → Encoding
plain opcode i = record { opcode = opcode; operands = 0; instr = λ _. i }

abbrev taking : (operands : ℕ) → List ℕ → (ℕ → Instr) → Encoding
taking operands opcode i = record { opcode = opcode; operands = operands; instr = i }

-- The encodings that do not depend on the size of the code.
abbrev common : List Encoding
common =
    plain (0xFA ∷ []) cli
    ∷ plain (0x90 ∷ []) nop
    ∷ plain (0xF4 ∷ []) hlt
    ∷ plain (0x8E ∷ 0xD8 ∷ []) (load_segment ds)
    ∷ plain (0x8E ∷ 0xD0 ∷ []) (load_segment ss)
    ∷ plain (0x8E ∷ 0xC0 ∷ []) (load_segment other)
    ∷ plain (0x8E ∷ 0xE0 ∷ []) (load_segment other)
    ∷ plain (0x8E ∷ 0xE8 ∷ []) (load_segment other)
    ∷ taking 1 (0x0C ∷ []) or_al
    ∷ taking 1 (0x3C ∷ []) cmp_al
    ∷ taking 1 (0xEB ∷ []) short_jump
    ∷ plain (0xFF ∷ 0xFF ∷ []) undefined
    ∷ []

abbrev controls : List Encoding
controls =
    plain (0x0F ∷ 0x20 ∷ 0xC0 ∷ []) (read_control cr0)
    ∷ plain (0x0F ∷ 0x20 ∷ 0xE0 ∷ []) (read_control cr4)
    ∷ plain (0x0F ∷ 0x22 ∷ 0xC0 ∷ []) (write_control cr0)
    ∷ plain (0x0F ∷ 0x22 ∷ 0xE0 ∷ []) (write_control cr4)
    ∷ plain (0x0F ∷ 0x22 ∷ 0xD8 ∷ []) (write_control cr3)
    ∷ []

-- A far pointer: the offset, and the selector above it.
abbrev pointer : (word : ℕ) → Instr
pointer word = far_jump (word / 2 ^ 32) (word % 2 ^ 32)

-- The encodings of each size; immediates and displacements that are extended have their sign bit clear.
unfoldable pub encodings : CodeSize → List Encoding
encodings code16 =
    plain (0x31 ∷ 0xC0 ∷ []) xor_ax
      ∷ taking 2 (0x0F ∷ 0x01 ∷ 0x16 ∷ []) lgdt
      ∷ taking 6 (0x66 ∷ 0xEA ∷ []) pointer
      ∷ controls
    ++ common
encodings code32 =
    taking 2 (0x66 ∷ 0xB8 ∷ []) mov_ax
      ∷ taking 1 (0x83 ∷ 0xC8 ∷ []) or_eax
      ∷ taking 4 (0xA1 ∷ []) load_eax
      ∷ taking 4 (0xB9 ∷ []) mov_ecx
      ∷ plain (0x0F ∷ 0x32 ∷ []) rdmsr
      ∷ plain (0x0F ∷ 0x30 ∷ []) wrmsr
      ∷ taking 4 (0x0D ∷ []) or_eax
      ∷ taking 6 (0xEA ∷ []) pointer
      ∷ controls
    ++ common
encodings code64 =
    taking 2 (0x66 ∷ 0xB8 ∷ []) mov_ax
    ∷ plain (0x66 ∷ 0x31 ∷ 0xC0 ∷ []) xor_ax
    ∷ taking 4 (0x48 ∷ 0x8B ∷ 0x24 ∷ 0x25 ∷ []) (load rsp)
    ∷ taking 4 (0x48 ∷ 0x8B ∷ 0x3C ∷ 0x25 ∷ []) (load rdi)
    ∷ taking 4 (0x48 ∷ 0x8B ∷ 0x04 ∷ 0x25 ∷ []) (load rax)
    ∷ taking 8 (0xC7 ∷ 0x04 ∷ 0x25 ∷ []) (λ word. store_dword (word % 2 ^ 32) (word / 2 ^ 32))
    ∷ plain (0xFF ∷ 0xD0 ∷ []) call_rax
    ∷ plain (0x00 ∷ 0x00 ∷ []) add_mem_al
    ∷ common

-- What follows the opcode, if the bytes begin with it.
unfoldable pub after_opcode : (opcode bytes : List ℕ) → Option (List ℕ)
after_opcode [] bs = some bs
after_opcode (o ∷ os) [] = none
after_opcode (o ∷ os) (b ∷ bs) = let rest = after_opcode os bs in if o == b then rest else none

-- The little-endian word of the first `n` bytes.
unfoldable pub word_of : (n : ℕ) → List ℕ → Option ℕ
word_of zero bs = some 0
word_of (suc n) [] = none
word_of (suc n) (b ∷ bs) = elim (word_of n bs) [ none ↦ none | some w ↦ some (b + w * 2 ^ 8) ]

-- An instruction and its length.
unfoldable pub decode_one : Encoding → List ℕ → Option (Instr × ℕ)
unfolding after_opcode word_of
decode_one e bytes = elim (after_opcode e.opcode bytes) [
  | none ↦ none
  | some rest ↦ elim (word_of e.operands rest) [
    | none ↦ none
    | some word ↦ some (e.instr word, length e.opcode + e.operands)
  ]
]

unfoldable pub decode : List Encoding → List ℕ → Option (Instr × ℕ)
unfolding decode_one
decode [] bytes = none
decode (e ∷ es) bytes = elim (decode_one e bytes) [
  | none ↦ decode es bytes
  | some found ↦ some found
]

-- Up to `n` bytes from an address, as far as its pages are there.
unfoldable pub window : (n address : ℕ) → Core → List ℕ
unfolding translate
window zero address c = []
window (suc n) address c = elim (translate c address) [
  | none ↦ []
  | some a ↦ c.memory a ∷ window n (address + 1) c
]

-- Where the next instruction is.
abbrev pub code_address : Core → ℕ
code_address c = elim c.size [ code64 ↦ c.rip | _ ↦ c.code_base + c.rip ]

module _ (paged : (value address : ℕ) → Option ℕ) where
  -- A fault leaves the processor as it was. No instruction here is longer than 11 bytes.
  unfoldable pub execute : Core → Option (Instr × ℕ) → Step
  unfolding exec
  execute c none = stop unknown c
  execute c (some (i, length)) = elim (exec paged i (record c { rip = c.rip + length })) [
    | stop fault c' ↦ stop fault c
    | done ↦ done
  ]

  unfoldable pub step : Core → Step
  unfolding window encodings decode execute
  step c = elim (window 11 (code_address c) c) [
    | [] ↦ stop fault c
    | b ∷ bs ↦ execute c (decode (encodings c.size) (b ∷ bs))
  ]

  -- At most `n` steps.
  unfoldable pub run : (n : ℕ) → Core → Step
  unfolding step
  run zero c = go c
  run (suc n) c = elim (step c) [ go c' ↦ run n c' | stop e c' ↦ stop e c' ]
