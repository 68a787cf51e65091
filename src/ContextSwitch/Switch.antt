-- ===== src/ContextSwitch/Switch.antt =====
-- `context_switch`, src/scheduler.rs: the whole block.
use smp_nostd.Base.{
  ℕ, ◌+◌, ◌-◌, ◌^◌, ◌≤◌, ◌<◌, ◌≡◌, ◌∙◌, inl, inr, refl, ap, Bool, ◌||◌, false, ◌==◌, arith,
}
use smp_nostd.Task.{CpuContext}
use smp_nostd.Trampoline.{Memory, store_word, load_word}
use smp_nostd.Trampoline.Words.{store_word-outside, load-store_word, load-store_word_apart}
use smp_nostd.ContextSwitch.{
  Cpu, FlagsImage, context_switch, restore, rax, rbx, rsp, rbp, rdi, r12, r13, r14, r15,
}
use smp_nostd.ContextSwitch.Slots.{Apart}
use smp_nostd.ContextSwitch.Frame.{context_at, context_at-same}
use smp_nostd.ContextSwitch.Save.{
  saved, halfway, run-save, halfway-regs, halfway-outside, halfway-context_at, halfway-pushed,
}
use smp_nostd.ContextSwitch.Restore.{Unclobbered, restored, run-restored}

-- What the caller has to provide: "both contexts must be valid", and "the new context's stack must be
-- properly set up". The pointers are not in rax, which is declared as an output, nor is `old` in rsp; the two
-- contexts and the word below each of the two stack pointers do not meet.
pub record Valid (flags : FlagsImage) (label old new : ℕ) (c : Cpu) : Type 0 where
  pub old_rax : (rax == old) ≡ false
  pub old_rsp : (rsp == old) ≡ false
  pub new_rax : (rax == new) ≡ false
  pub wide : (r : ℕ) → c.regs r < 2 ^ 64
  pub label_fits : label < 2 ^ 64
  pub pushed_fits : flags.pushed c.rflags < 2 ^ 64
  pub old_fits : c.regs old + 0xA0 ≤ 2 ^ 64
  pub new_fits : c.regs new + 0xA0 ≤ 2 ^ 64
  pub contexts : Apart (c.regs old) 0xA0 (c.regs new) 0xA0
  pub old_stack : 8 ≤ c.regs rsp
  pub old_stack_old : Apart (c.regs rsp - 8) 8 (c.regs old) 0xA0
  pub old_stack_new : Apart (c.regs rsp - 8) 8 (c.regs new) 0xA0
  pub new_stack : 8 ≤ (context_at (c.regs new) c.memory).rsp
  pub new_stack_fits : (context_at (c.regs new) c.memory).rsp < 2 ^ 64
  pub new_flags_fits : (context_at (c.regs new) c.memory).rflags < 2 ^ 64
  pub new_stack_old : Apart ((context_at (c.regs new) c.memory).rsp - 8) 8 (c.regs old) 0xA0
  pub new_stack_new : Apart ((context_at (c.regs new) c.memory).rsp - 8) 8 (c.regs new) 0xA0

-- The registers that the block writes.
unfoldable pub is_written : ℕ → Bool
is_written r =
    rax == r
    || rbx == r
    || rsp == r
    || rbp == r
    || rdi == r
    || r12 == r
    || r13 == r
    || r14 == r
    || r15 == r

-- The processor runs the context `x`.
pub record Running (flags : FlagsImage) (x : CpuContext) (c : Cpu) : Type 0 where
  pub at_rip : c.rip ≡ x.rip
  pub at_rsp : c.regs rsp ≡ x.rsp
  pub at_rbp : c.regs rbp ≡ x.rbp
  pub at_rbx : c.regs rbx ≡ x.rbx
  pub at_r12 : c.regs r12 ≡ x.r12
  pub at_r13 : c.regs r13 ≡ x.r13
  pub at_r14 : c.regs r14 ≡ x.r14
  pub at_r15 : c.regs r15 ≡ x.r15
  pub at_rdi : c.regs rdi ≡ x.rdi
  pub at_rflags : c.rflags ≡ flags.popped x.rflags

module _ (flags : FlagsImage) (label old new : ℕ) (c : Cpu) (v : Valid flags label old new c) where
  abbrev incoming : CpuContext
  incoming = context_at (c.regs new) c.memory

  halfway-new : (halfway flags label old c).regs new ≡ c.regs new
  halfway-new =
      halfway-regs flags label old c v.old_rax v.old_rsp v.old_fits v.old_stack (v.wide rsp)
        v.pushed_fits new (ground (arith, v.new_rax))

  pub halfway-incoming_at : context_at (c.regs new) (halfway flags label old c).memory ≡ incoming
  halfway-incoming_at =
      context_at-same (c.regs new) c.memory (halfway flags label old c).memory (λ j lo hi.
        halfway-outside flags label old c v.old_rax v.old_rsp v.old_fits v.old_stack (v.wide rsp)
          v.pushed_fits j
          (elim v.contexts [ inl h ↦ inr (omega arith) | inr h ↦ inl (omega arith) ])
          (elim v.old_stack_new [ inl h ↦ inr (omega arith) | inr h ↦ inl (omega arith) ]))

  halfway-incoming :
      context_at ((halfway flags label old c).regs new) (halfway flags label old c).memory
      ≡ incoming
  halfway-incoming =
      ap (λ (a : ℕ). context_at a (halfway flags label old c).memory) halfway-new
      ∙ halfway-incoming_at

  module _ (free : Unclobbered new) where
    arrived : context_switch flags label old new c ≡ restored flags new (halfway flags label old c)
    unfolding context_switch
    arrived =
        run-save flags label old c (restore new)
        ∙ run-restored flags label new (halfway flags label old c) free (rw halfway-new v.new_fits)
            (rw halfway-incoming v.new_stack) (rw halfway-incoming v.new_stack_fits)
            (rw halfway-incoming v.new_flags_fits)
            (rw (halfway-incoming, halfway-new) v.new_stack_new)

    -- After a switch between valid contexts, with `new` in a register that the block does not write, the
    -- processor runs the context that `new` pointed to when the block was entered: the stack pointer, the
    -- callee-saved registers, rdi and the instruction pointer are those of its fields, and the flags are what
    -- `popfq` makes of its flags field.
    pub context_switch-Running : Running flags incoming (context_switch flags label old new c)
    context_switch-Running =
        rw (arrived, halfway-incoming)
          (record {
            at_rip = refl;
            at_rsp = refl;
            at_rbp = refl;
            at_rbx = refl;
            at_r12 = refl;
            at_r13 = refl;
            at_r14 = refl;
            at_r15 = refl;
            at_rdi = refl;
            at_rflags = refl;
          })

    arrived-memory :
        (context_switch flags label old new c).memory
        ≡ store_word 8 (incoming.rsp - 8) incoming.rflags (halfway flags label old c).memory
    arrived-memory = rw (arrived, halfway-incoming) refl

    -- After a switch between valid contexts, with `new` in a register that the block does not write, the
    -- context at `old` has the stack pointer, the callee-saved registers and the flags from before the switch
    -- and the address of the label at the block's end; its other eleven words are as before.
    pub context_switch-saved :
        context_at (c.regs old) (context_switch flags label old new c).memory
        ≡ saved flags label c (context_at (c.regs old) c.memory)
    context_switch-saved =
        context_at-same (c.regs old) (halfway flags label old c).memory
          (context_switch flags label old new c).memory
          (λ j lo hi.
            ap (λ (m : Memory). m j) arrived-memory
            ∙ store_word-outside 8 (incoming.rsp - 8) incoming.rflags _ j
                (elim v.new_stack_old [ inl h ↦ inr (omega arith) | inr h ↦ inl (omega arith) ]))
        ∙ halfway-context_at flags label old c v.old_rax v.old_rsp v.old_fits v.old_stack
            (v.wide rsp) v.pushed_fits v.old_stack_old v.wide v.label_fits

    -- A byte that is neither in the first nine words of the old context nor in the word below a stack pointer.
    context_switch-kept :
        (j : ℕ)
        → Apart j 1 (c.regs old) 0x48
        → Apart j 1 (c.regs rsp - 8) 8
        → Apart j 1 (incoming.rsp - 8) 8
        → (context_switch flags label old new c).memory j ≡ c.memory j
    context_switch-kept j off_context off_stack off_new =
        ap (λ (m : Memory). m j) arrived-memory
        ∙ store_word-outside 8 (incoming.rsp - 8) incoming.rflags _ j
            (elim off_new [ inl h ↦ inl (omega arith) | inr h ↦ inr (omega arith) ])
        ∙ halfway-outside flags label old c v.old_rax v.old_rsp v.old_fits v.old_stack (v.wide rsp)
            v.pushed_fits j off_context off_stack

    -- A switch between valid contexts, with `new` in a register that the block does not write and the words below
    -- the two stack pointers apart, writes to both stacks: the word below the stack pointer of the caller has
    -- the flags that `pushfq` stored, the word below the new stack pointer has the new context's flags. The
    -- context at `old` has the stack pointer, the callee-saved registers, the flags and the address of the label,
    -- with its other eleven words as before, and memory outside of these places is as before.
    pub context_switch-outside :
        Apart (c.regs rsp - 8) 8 (incoming.rsp - 8) 8
        → (j : ℕ) → Apart j 1 (c.regs old) 0x48
        → Apart j 1 (c.regs rsp - 8) 8
        → Apart j 1 (incoming.rsp - 8) 8
        → let after = (context_switch flags label old new c).memory in
          (load_word 8 (c.regs rsp - 8) after ≡ flags.pushed c.rflags)
          × (load_word 8 (incoming.rsp - 8) after ≡ incoming.rflags)
          × (context_at (c.regs old) after ≡ saved flags label c (context_at (c.regs old) c.memory))
          × (after j ≡ c.memory j)
    context_switch-outside apart j off_context off_stack off_new = (
      ap (load_word 8 (c.regs rsp - 8)) arrived-memory
          ∙ load-store_word_apart 8 (c.regs rsp - 8) 8 (incoming.rsp - 8) incoming.rflags _ apart
          ∙ halfway-pushed flags label old c v.old_rax v.old_rsp v.old_fits v.old_stack (v.wide rsp)
              v.pushed_fits v.old_stack_old,
      ap (load_word 8 (incoming.rsp - 8)) arrived-memory
          ∙ load-store_word 8 (incoming.rsp - 8) incoming.rflags _
              (omega (arith, v.new_flags_fits)),
      context_switch-saved,
      context_switch-kept j off_context off_stack off_new,
    )

    -- The other registers keep their values.
    context_switch-regs :
        (r : ℕ) → is_written r ≡ false → (context_switch flags label old new c).regs r ≡ c.regs r
    unfolding is_written
    context_switch-regs r other =
        let kept : (halfway flags label old c).regs r ≡ c.regs r =
          halfway-regs flags label old c v.old_rax v.old_rsp v.old_fits v.old_stack (v.wide rsp)
            v.pushed_fits r (ground arith) in
        ap (λ (d : Cpu). d.regs r) arrived ∙ (ground (arith, kept))
