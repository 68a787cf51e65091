-- ===== src/ContextSwitch/Resume.antt =====
-- `context_switch`, src/scheduler.rs: a task that was switched away from goes on where it was, and a new
-- task, `Task::new`, starts at its entry function.
use smp_nostd.Base.{ℕ, ◌+◌, ◌/◌, ◌%◌, ◌^◌, ◌≤◌, ◌<◌, ◌≡◌, ◌∙◌, ap}
use Prim.Native.String.{String}
use smp_nostd.Task.{CpuContext, Task, new as create}
use smp_nostd.ContextSwitch.{
  Cpu, FlagsImage, context_switch, rbx, rsp, rbp, rdi, r12, r13, r14, r15,
}
use smp_nostd.ContextSwitch.Frame.{context_at, context_at-same}
use smp_nostd.ContextSwitch.Save.{saved}
use smp_nostd.ContextSwitch.Restore.{Unclobbered}
use smp_nostd.ContextSwitch.Switch.{Valid, Running, context_switch-Running, context_switch-saved}

-- The processor `d` goes on at `label` with the stack, the callee-saved registers and the flags of `c`.
pub record Resumed (label : ℕ) (c d : Cpu) : Type 0 where
  pub at_label : d.rip ≡ label
  pub same_rsp : d.regs rsp ≡ c.regs rsp
  pub same_rbp : d.regs rbp ≡ c.regs rbp
  pub same_rbx : d.regs rbx ≡ c.regs rbx
  pub same_r12 : d.regs r12 ≡ c.regs r12
  pub same_r13 : d.regs r13 ≡ c.regs r13
  pub same_r14 : d.regs r14 ≡ c.regs r14
  pub same_r15 : d.regs r15 ≡ c.regs r15
  pub same_rflags : d.rflags ≡ c.rflags

Running-Resumed :
    (flags : FlagsImage) (label : ℕ) (c d : Cpu) (x : CpuContext)
    → flags.popped (flags.pushed c.rflags) ≡ c.rflags
    → Running flags (saved flags label c x) d
    → Resumed label c d
unfolding saved
Running-Resumed flags label c d x law is = record {
  at_label = is.at_rip;
  same_rsp = is.at_rsp;
  same_rbp = is.at_rbp;
  same_rbx = is.at_rbx;
  same_r12 = is.at_r12;
  same_r13 = is.at_r13;
  same_r14 = is.at_r14;
  same_r15 = is.at_r15;
  same_rflags = is.at_rflags ∙ law;
}

-- A task that is switched away from, at `c`, goes on where it was: a later switch, on any processor state
-- `d` whose `new` is the address of the context that `c` was saved in and whose memory has that context as the
-- first switch left it, goes on at the label with the stack pointer, the callee-saved registers and the flags
-- of `c`. Both switches are between valid contexts with `new` in a register that the block does not write,
-- and `popfq` gives back the flags of `c` that `pushfq` stored.
pub context_switch-Resumed :
    (flags : FlagsImage) (label old new : ℕ) (c : Cpu)
    → Valid flags label old new c
    → Unclobbered new
    → (label' old' new' : ℕ) (d : Cpu) → Valid flags label' old' new' d
    → Unclobbered new'
    → d.regs new' ≡ c.regs old
    → ((j : ℕ)
        → c.regs old ≤ j
        → j < c.regs old + 0xA0
        → d.memory j ≡ (context_switch flags label old new c).memory j)
    → flags.popped (flags.pushed c.rflags) ≡ c.rflags
    → Resumed label c (context_switch flags label' old' new' d)
context_switch-Resumed flags label old new c v free label' old' new' d v' free' same_address same
      law =
    let kept : context_at (d.regs new') d.memory
        ≡ saved flags label c (context_at (c.regs old) c.memory) =
      ap (λ (a : ℕ). context_at a d.memory) same_address
      ∙ context_at-same (c.regs old) (context_switch flags label old new c).memory d.memory same
      ∙ context_switch-saved flags label old new c v free in
    Running-Resumed flags label c (context_switch flags label' old' new' d)
      (context_at (c.regs old) c.memory) law
      (rw (← kept) (context_switch-Running flags label' old' new' d v' free'))

-- The processor starts a task at `entry` with `arg`, on a stack inside the allocation from `ptr`.
pub record Entered (ptr entry arg stack_size : ℕ) (d : Cpu) : Type 0 where
  pub at_entry : d.rip ≡ entry
  pub argument : d.regs rdi ≡ arg
  pub frame : d.regs rbp ≡ d.regs rsp
  pub aligned : d.regs rsp % 16 ≡ 0
  pub below_end : d.regs rsp ≤ ptr + stack_size
  pub near_end : ptr + stack_size < d.regs rsp + 16
  pub interrupts : d.rflags / 2 ^ 9 % 2 ≡ 1
