-- ===== src/ContextSwitch/Tests.antt =====
-- `context_switch` on a machine whose flags word has its second bit always set.
use smp_nostd.Base.{
  ℕ, ◌+◌, ◌*◌, ◌/◌, ◌%◌, ◌^◌, ◌<◌, ◌≡◌, inl, inr, refl, none, ◌-◌, ◌≢◌, false, [], ◌∷◌, ◌==◌,
  if◌then◌else◌, arith,
}
use smp_nostd.Task.{Task, new_task, new as create}
use smp_nostd.Trampoline.{store_word, load_word}
use smp_nostd.ContextSwitch.{Cpu, FlagsImage, context_switch, rax}
use smp_nostd.ContextSwitch.Slots.{fill}
use smp_nostd.ContextSwitch.Frame.{context_at}
use smp_nostd.ContextSwitch.Restore.{Unclobbered}
use smp_nostd.ContextSwitch.Switch.{
  Valid, Running, context_switch-Running, context_switch-saved, context_switch-outside,
}
use smp_nostd.ContextSwitch.Save.{saved}
use smp_nostd.ContextSwitch.Resume.{Resumed, context_switch-Resumed}
use smp_nostd.ContextSwitch.Operands.{mistaken, context_switch-astray}

abbrev image : FlagsImage
image = record { pushed = λ f. f; popped = λ w. w / 4 * 4 + 2 + w % 2 }

-- rsi has the old context, rdx and r12 the new one.
abbrev regs : ℕ → ℕ
regs r =
    if r == 4
    then 0x9000
    else if r == 6
    then 0x1000
    else if r == 2
    then 0x2000
    else if r == 12
    then 0x2000
    else if r == 13
    then 77
    else 5

-- A new task's context at 0x2000.
abbrev before : Cpu
before = record {
  regs = regs;
  rflags = 0x202;
  rip = 0x100;
  memory =
      fill
        (0x8000 ∷ 0x8000 ∷ 0 ∷ 0 ∷ 0 ∷ 0 ∷ 0 ∷ 0x400000 ∷ 0x200 ∷ 0 ∷ 0 ∷ 0 ∷ 0 ∷ 7 ∷ 0 ∷ 0 ∷ 0 ∷ 0
          ∷ 8 ∷ 16 ∷ [])
        0x2000 (λ j. 0);
}

at_new : context_at 0x2000 before.memory ≡ new_task 0x400000 0x8000 7
unfolding context_at fill store_word load_word new_task
at_new = refl

rdx_free : Unclobbered 2
rdx_free = record {
  not_rax = refl;
  not_rbx = refl;
  not_rsp = refl;
  not_rbp = refl;
  not_rdi = refl;
  not_r12 = refl;
  not_r13 = refl;
  not_r14 = refl;
  not_r15 = refl;
}

regs_fit : (r : ℕ) → regs r < 2 ^ 64
regs_fit r = ground arith

module _ (new : ℕ) (not_rax : (rax == new) ≡ false) (address : regs new ≡ 0x2000) where
  at_operand : context_at (regs new) before.memory ≡ new_task 0x400000 0x8000 7
  at_operand = rw address at_new

  before-Valid : Valid image 0x110 6 new before
  unfolding new_task
  before-Valid = record {
    old_rax = refl;
    old_rsp = refl;
    new_rax = not_rax;
    wide = regs_fit;
    label_fits = omega arith;
    pushed_fits = omega arith;
    old_fits = omega arith;
    new_fits = omega arith;
    contexts = inl (omega arith);
    old_stack = omega arith;
    old_stack_old = inr (omega arith);
    old_stack_new = inr (omega arith);
    new_stack = rw at_operand (omega arith);
    new_stack_fits = rw at_operand (omega arith);
    new_flags_fits = rw at_operand (omega arith);
    new_stack_old = rw at_operand (inr (omega arith));
    new_stack_new = rw at_operand (inr (omega arith));
  }

rdx-Valid : Valid image 0x110 6 2 before
rdx-Valid = before-Valid 2 refl refl

r12-Valid : Valid image 0x110 6 12 before
r12-Valid = before-Valid 12 refl refl

context_switch-Running_example :
    Running image (context_at 0x2000 before.memory) (context_switch image 0x110 6 2 before)
context_switch-Running_example = context_switch-Running image 0x110 6 2 before rdx-Valid rdx_free

context_switch-saved_example :
    context_at 0x1000 (context_switch image 0x110 6 2 before).memory
    ≡ saved image 0x110 before (context_at 0x1000 before.memory)
context_switch-saved_example = context_switch-saved image 0x110 6 2 before rdx-Valid rdx_free

context_switch-outside_example :
    let after = (context_switch image 0x110 6 2 before).memory in
    (load_word 8 (0x9000 - 8) after ≡ 0x202)
    × (load_word 8 ((context_at 0x2000 before.memory).rsp - 8) after
        ≡ (context_at 0x2000 before.memory).rflags)
    × (context_at 0x1000 after ≡ saved image 0x110 before (context_at 0x1000 before.memory))
    × (after 0x5000 ≡ before.memory 0x5000)
unfolding new_task
context_switch-outside_example =
    context_switch-outside image 0x110 6 2 before rdx-Valid rdx_free (rw at_new (inr (omega arith)))
      0x5000 (inr (omega arith)) (inl (omega arith)) (rw at_new (inl (omega arith)))

-- The new task has run for a while and switches back: its context is at 0x3000.
abbrev regs_back : ℕ → ℕ
regs_back r = if r == 4 then 0x7000 else if r == 6 then 0x3000 else if r == 2 then 0x1000 else 9

abbrev back : Cpu
back = record {
  regs = regs_back;
  rflags = 0x202;
  rip = 0x400080;
  memory = (context_switch image 0x110 6 2 before).memory;
}

regs_back_fit : (r : ℕ) → regs_back r < 2 ^ 64
regs_back_fit r = ground arith

at_back : context_at 0x1000 back.memory ≡ saved image 0x110 before (context_at 0x1000 before.memory)
at_back = context_switch-saved image 0x110 6 2 before rdx-Valid rdx_free

back-Valid : Valid image 0x400090 6 2 back
unfolding saved
back-Valid = record {
  old_rax = refl;
  old_rsp = refl;
  new_rax = refl;
  wide = regs_back_fit;
  label_fits = omega arith;
  pushed_fits = omega arith;
  old_fits = omega arith;
  new_fits = omega arith;
  contexts = inr (omega arith);
  old_stack = omega arith;
  old_stack_old = inr (omega arith);
  old_stack_new = inr (omega arith);
  new_stack = rw at_back (omega arith);
  new_stack_fits = rw at_back (omega arith);
  new_flags_fits = rw at_back (omega arith);
  new_stack_old = rw at_back (inr (omega arith));
  new_stack_new = rw at_back (inr (omega arith));
}

context_switch-Resumed_example : Resumed 0x110 before (context_switch image 0x400090 6 2 back)
context_switch-Resumed_example =
    context_switch-Resumed image 0x110 6 2 before rdx-Valid rdx_free 0x400090 6 2 back back-Valid
      rdx_free refl (λ j lo hi. refl) refl

-- The task whose context is at 0x2000.
abbrev task : Task
task = record {
  id = 3;
  name = "idle";
  state = 0;
  context = new_task 0x400000 0x8000 7;
  stack = record { ptr = 0x7000; len = 0x1000 };
  affinity = none;
  assigned_core = none;
}

-- The new task's r12 is 0, and the word at 0x38 is not its entry point.
astray-other : (mistaken image 0x110 6 before r12-Valid).rip ≢ (context_at 0x2000 before.memory).rip
unfolding context_switch context_at fill store_word load_word
astray-other = omega arith

context_switch-astray_example :
    ((context_switch image 0x110 6 12 before).rip ≡ (mistaken image 0x110 6 before r12-Valid).rip)
    × ((context_switch image 0x110 6 12 before).rip ≢ (context_at 0x2000 before.memory).rip)
unfolding new_task
context_switch-astray_example =
    context_switch-astray image 0x110 6 before r12-Valid (rw at_new (omega arith)) astray-other
