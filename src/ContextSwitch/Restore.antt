-- ===== src/ContextSwitch/Restore.antt =====
-- The second half of `context_switch`: the registers that it loads, and the jump.
use smp_nostd.Base.{ℕ, ◌+◌, ◌-◌, ◌^◌, ◌≤◌, ◌<◌, ◌≡◌, inl, inr, refl, false, ◌==◌, u64, arith}
use smp_nostd.Task.{CpuContext}
use smp_nostd.Trampoline.{Memory, store_word, load_word}
use smp_nostd.Trampoline.Words.{load-store_word, load-store_word_apart}
use smp_nostd.ContextSwitch.{
  Cpu, FlagsImage, exec, run, restore, set_reg, rax, rbx, rsp, rbp, rdi, r12, r13, r14, r15,
}
use smp_nostd.ContextSwitch.Frame.{context_at}
use smp_nostd.ContextSwitch.Slots.{Apart}

-- A register that the block does not write before it has read the new context through it.
pub record Unclobbered (new : ℕ) : Type 0 where
  pub not_rax : (rax == new) ≡ false
  pub not_rbx : (rbx == new) ≡ false
  pub not_rsp : (rsp == new) ≡ false
  pub not_rbp : (rbp == new) ≡ false
  pub not_rdi : (rdi == new) ≡ false
  pub not_r12 : (r12 == new) ≡ false
  pub not_r13 : (r13 == new) ≡ false
  pub not_r14 : (r14 == new) ≡ false
  pub not_r15 : (r15 == new) ≡ false

abbrev pub pushed_memory : (new : ℕ) → Cpu → Memory
pushed_memory new c =
    let x : CpuContext = context_at (c.regs new) c.memory in
    store_word 8 (x.rsp - 8) x.rflags c.memory

abbrev pub restored : FlagsImage → (new : ℕ) → Cpu → Cpu
restored flags new c =
    let x : CpuContext = context_at (c.regs new) c.memory in
    let loaded =
      set_reg
        (set_reg
          (set_reg
            (set_reg (set_reg (set_reg (set_reg c.regs rsp x.rsp) rbp x.rbp) rbx x.rbx) r12 x.r12)
            r13 x.r13)
          r14 x.r14)
        r15 x.r15 in
    let popped = set_reg (set_reg (set_reg loaded rax x.rflags) rsp (x.rsp - 8)) rsp x.rsp in
    record {
      regs = set_reg (set_reg popped rdi x.rdi) rax x.rip;
      rflags = flags.popped x.rflags;
      rip = x.rip;
      memory = pushed_memory new c;
    }

module _ (flags : FlagsImage) (label new : ℕ) (c : Cpu) (free : Unclobbered new)
    (fits : c.regs new + 0xA0 ≤ 2 ^ 64) (stack : 8 ≤ (context_at (c.regs new) c.memory).rsp)
    (below : (context_at (c.regs new) c.memory).rsp < 2 ^ 64)
    (narrow : (context_at (c.regs new) c.memory).rflags < 2 ^ 64)
    (apart : Apart ((context_at (c.regs new) c.memory).rsp - 8) 8 (c.regs new) 0xA0) where
  abbrev x : CpuContext
  x = context_at (c.regs new) c.memory

  top_lem : u64 (x.rsp + (2 ^ 64 - 8)) ≡ x.rsp - 8
  top_lem = omega arith

  back_lem : u64 (x.rsp - 8 + 8) ≡ x.rsp
  back_lem = omega arith

  -- The address that the code computes for a slot.
  slot_address : (offset : ℕ) → offset < 0xA0 → u64 (c.regs new + offset) ≡ c.regs new + offset
  slot_address offset lt = omega arith

  -- A slot is read as before after the push.
  slot_pushed :
      (offset : ℕ)
      → offset + 8 ≤ 0xA0
      → load_word 8 (c.regs new + offset) (pushed_memory new c)
        ≡ load_word 8 (c.regs new + offset) c.memory
  slot_pushed offset lt =
      load-store_word_apart 8 (c.regs new + offset) 8 (x.rsp - 8) x.rflags c.memory
        (elim apart [ inl before ↦ inr (omega arith) | inr after ↦ inl (omega arith) ])

  pub run-restored : run flags label (restore new) c ≡ restored flags new c
  unfolding run exec context_at
  run-restored =
      rw
        (
          free.not_rax,
          free.not_rbx,
          free.not_rsp,
          free.not_rbp,
          free.not_rdi,
          free.not_r12,
          free.not_r13,
          free.not_r14,
          free.not_r15,
          slot_address 0x00 (omega arith),
          slot_address 0x08 (omega arith),
          slot_address 0x10 (omega arith),
          slot_address 0x18 (omega arith),
          slot_address 0x20 (omega arith),
          slot_address 0x28 (omega arith),
          slot_address 0x30 (omega arith),
          slot_address 0x38 (omega arith),
          slot_address 0x40 (omega arith),
          slot_address 0x68 (omega arith),
          top_lem,
          back_lem,
          load-store_word 8 (x.rsp - 8) x.rflags c.memory narrow,
          slot_pushed 0x68 (omega arith),
          slot_pushed 0x38 (omega arith),
        )
        refl
