-- ===== src/ContextSwitch/Operands.antt =====
-- `context_switch`, src/scheduler.rs: its operand `new` in r12. The asm block declares only rax and rdi as
-- outputs, and so leaves the other registers that it writes to its inputs.
use smp_nostd.Base.{ℕ, ◌+◌, ◌^◌, ◌≤◌, ◌≡◌, ◌≢◌, ◌∙◌, sym, refl, ap, arith, u64}
use smp_nostd.Task.{CpuContext}
use smp_nostd.Trampoline.{load_word}
use smp_nostd.ContextSwitch.{Cpu, FlagsImage, context_switch, run, exec, restore, rsp, r12}
use smp_nostd.ContextSwitch.Frame.{context_at}
use smp_nostd.ContextSwitch.Save.{halfway, run-save, halfway-regs}
use smp_nostd.ContextSwitch.Switch.{Valid, halfway-incoming_at}

-- The address that is jumped to is read after r12 has been loaded.
restore_jump :
    (flags : FlagsImage) (label : ℕ) (c : Cpu)
    → (run flags label (restore r12) c).rip
      ≡ load_word 8
          (u64 (load_word 8 (u64 (c.regs r12 + 0x18)) c.memory + 0x38))
          (run flags label (restore r12) c).memory
unfolding run exec
restore_jump flags label c = refl

module _ (flags : FlagsImage) (label old : ℕ) (c : Cpu) (v : Valid flags label old r12 c) where
  abbrev final : Cpu
  final = context_switch flags label old r12 c

  halfway-r12 : (halfway flags label old c).regs r12 ≡ c.regs r12
  halfway-r12 =
      halfway-regs flags label old c v.old_rax v.old_rsp v.old_fits v.old_stack (v.wide rsp)
        v.pushed_fits r12 (ground arith)

  -- The context that the processor takes the instruction pointer from: the one at the new task's r12.
  abbrev pub mistaken : CpuContext
  mistaken = context_at (context_at (c.regs r12) c.memory).r12 final.memory

  jump-mistaken : (context_at (c.regs r12) c.memory).r12 + 0x40 ≤ 2 ^ 64 → final.rip ≡ mistaken.rip
  unfolding context_switch context_at
  jump-mistaken fits =
      let loaded : load_word 8 (c.regs r12 + 0x18) (halfway flags label old c).memory
          ≡ (context_at (c.regs r12) c.memory).r12 =
        ap (λ (x : CpuContext). x.r12) (halfway-incoming_at flags label old r12 c v) in
      let slot : u64 (c.regs r12 + 0x18) ≡ c.regs r12 + 0x18 = omega (arith, v.new_fits) in
      let base : load_word 8 (u64 ((halfway flags label old c).regs r12 + 0x18))
            (halfway flags label old c).memory
          ≡ (context_at (c.regs r12) c.memory).r12 =
        rw (halfway-r12, slot) loaded in
      ap (λ (d : Cpu). d.rip) (run-save flags label old c (restore r12))
      ∙ restore_jump flags label (halfway flags label old c)
      ∙ ap
          (λ (a : ℕ).
            load_word 8 a (run flags label (restore r12) (halfway flags label old c)).memory)
          (ap (λ (b : ℕ). u64 (b + 0x38)) base ∙ omega (arith, fits))

  -- A switch between valid contexts whose `new` is in r12, which the block overwrites before it loads the
  -- instruction pointer, jumps to the instruction pointer of a context that it takes to be at the new task's r12
  -- (which is at least 64 bytes below the end of the address space). So where the word there is another one than
  -- the new task's instruction pointer, the processor does not go on where the new task is.
  pub context_switch-astray :
      (context_at (c.regs r12) c.memory).r12 + 0x40 ≤ 2 ^ 64
      → mistaken.rip ≢ (context_at (c.regs r12) c.memory).rip
      → (final.rip ≡ mistaken.rip) × (final.rip ≢ (context_at (c.regs r12) c.memory).rip)
  context_switch-astray fits other = (jump-mistaken fits, λ e. other (sym (jump-mistaken fits) ∙ e))
