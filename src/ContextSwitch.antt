-- ===== src/ContextSwitch.antt =====
-- src/scheduler.rs, `context_switch`: the assembly as a list of instructions, on the registers, the flags
-- and the memory of one processor. The trace message is left out.
pub mod Slots
pub mod Frame
pub mod Save
pub mod Restore
pub mod Switch
pub mod Resume
pub mod Operands
mod Tests
use smp_nostd.Base.{ℕ, ◌+◌, ◌-◌, ◌*◌, ◌^◌, List, [], ◌∷◌, ◌++◌, ◌==◌, if◌then◌else◌, u64}
use smp_nostd.Trampoline.{Memory, store_word, load_word}

-- The general registers, by their number in the instruction encoding.
abbrev pub rax : ℕ
rax = 0

abbrev pub rbx : ℕ
rbx = 3

abbrev pub rsp : ℕ
rsp = 4

abbrev pub rbp : ℕ
rbp = 5

abbrev pub rdi : ℕ
rdi = 7

abbrev pub r12 : ℕ
r12 = 12

abbrev pub r13 : ℕ
r13 = 13

abbrev pub r14 : ℕ
r14 = 14

abbrev pub r15 : ℕ
r15 = 15

-- The instructions that the block uses. `lea` is of the label at its end.
pub data Instr : Type 0 where
  store : (base offset src : ℕ) → Instr  -- mov [base + offset], src
  load : (dst base offset : ℕ) → Instr  -- mov dst, [base + offset]
  lea : (dst : ℕ) → Instr  -- lea dst, [rip + 2f]
  push : (src : ℕ) → Instr
  pop : (dst : ℕ) → Instr
  pushfq popfq : Instr
  jmp : (src : ℕ) → Instr

pub record Cpu : Type 0 where
  pub regs : ℕ → ℕ
  pub rflags : ℕ
  pub rip : ℕ
  pub memory : Memory

-- What `pushfq` stores of the flags, and what flags `popfq` makes of a word.
pub record FlagsImage : Type 0 where
  pub pushed : ℕ → ℕ
  pub popped : ℕ → ℕ

abbrev pub set_reg : (ℕ → ℕ) → (reg value : ℕ) → ℕ → ℕ
set_reg regs reg value j = if reg == j then value else regs j

-- A word on top of the stack, which grows down.
abbrev pub push_word : (value : ℕ) → Cpu → Cpu
push_word value c =
    let top = u64 (c.regs rsp + (2 ^ 64 - 8)) in
    record c { regs = set_reg c.regs rsp top; memory = store_word 8 top value c.memory }

abbrev pub drop_word : Cpu → Cpu
drop_word c = record c { regs = set_reg c.regs rsp (u64 (c.regs rsp + 8)) }

module _ (flags : FlagsImage) (label : ℕ) where
  -- An instruction other than a jump.
  unfoldable pub exec : Instr → Cpu → Cpu
  exec (store base offset src) c = record c {
    memory = store_word 8 (u64 (c.regs base + offset)) (c.regs src) c.memory;
  }
  exec (load dst base offset) c = record c {
    regs = set_reg c.regs dst (load_word 8 (u64 (c.regs base + offset)) c.memory);
  }
  exec (lea dst) c = record c { regs = set_reg c.regs dst label }
  exec (push src) c = push_word (c.regs src) c
  exec (pop dst) c =
      let value = load_word 8 (c.regs rsp) c.memory in
      let c' = drop_word c in record c' { regs = set_reg c'.regs dst value }
  exec pushfq c = push_word (flags.pushed c.rflags) c
  exec popfq c =
      let value = load_word 8 (c.regs rsp) c.memory in
      record (drop_word c) { rflags = flags.popped value }
  exec (jmp src) c = c

  -- The instructions up to a jump.
  unfoldable pub run : List Instr → Cpu → Cpu
  unfolding exec
  run [] c = c
  run (jmp src ∷ is) c = record c { rip = c.regs src }
  run (i ∷ is) c = run is (exec i c)

-- "Save callee-saved registers", the return address and the flags.
abbrev pub save : (old : ℕ) → List Instr
save old =
    store old 0x00 rsp
    ∷ store old 0x08 rbp
    ∷ store old 0x10 rbx
    ∷ store old 0x18 r12
    ∷ store old 0x20 r13
    ∷ store old 0x28 r14
    ∷ store old 0x30 r15
    ∷ lea rax
    ∷ store old 0x38 rax
    ∷ pushfq
    ∷ pop rax
    ∷ store old 0x40 rax
    ∷ []

abbrev pub restore : (new : ℕ) → List Instr
restore new =
    load rsp new 0x00
    ∷ load rbp new 0x08
    ∷ load rbx new 0x10
    ∷ load r12 new 0x18
    ∷ load r13 new 0x20
    ∷ load r14 new 0x28
    ∷ load r15 new 0x30
    ∷ load rax new 0x40
    ∷ push rax
    ∷ popfq
    ∷ load rdi new 0x68
    ∷ load rax new 0x38
    ∷ jmp rax
    ∷ []

-- `context_switch`, with its arguments in the registers `old` and `new`.
unfoldable pub context_switch : FlagsImage → (label old new : ℕ) → Cpu → Cpu
unfolding run
context_switch flags label old new c = run flags label (save old ++ restore new) c
