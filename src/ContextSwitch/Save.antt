-- ===== src/ContextSwitch/Save.antt =====
-- The first half of `context_switch`: what it stores, and what it leaves alone.
use smp_nostd.Base.{
  ℕ, ◌+◌, ◌-◌, ◌*◌, ◌^◌, ◌≤◌, ◌<◌, ◌≡◌, ◌≢◌, ◌∙◌, inl, inr, refl, ap, some, get_elem?, false, List,
  [], ◌∷◌, ◌++◌, ◌==◌, u64, arith,
}
use smp_nostd.Task.{CpuContext}
use smp_nostd.Trampoline.{Memory, store_word, load_word}
use smp_nostd.Trampoline.Words.{
  load-store_word, load-store_word_apart, store_word-outside, load_word-same,
}
use smp_nostd.ContextSwitch.{
  Cpu, FlagsImage, Instr, exec, run, save, set_reg, rax, rbx, rsp, rbp, r12, r13, r14, r15,
}
use smp_nostd.ContextSwitch.Frame.{context_at}
use smp_nostd.ContextSwitch.Slots.{Apart, fill, fill-outside, load-fill}

-- The registers that are stored, with the return address, in the order of the context's fields.
abbrev pub kept_words : (label : ℕ) → Cpu → List ℕ
kept_words label c =
    c.regs rsp
    ∷ c.regs rbp
    ∷ c.regs rbx
    ∷ c.regs r12
    ∷ c.regs r13
    ∷ c.regs r14
    ∷ c.regs r15
    ∷ label
    ∷ []

-- The context that is kept: the callee-saved registers, the return address and the flags.
unfoldable pub saved : FlagsImage → (label : ℕ) → Cpu → CpuContext → CpuContext
saved flags label c x = record x {
  rsp = c.regs rsp;
  rbp = c.regs rbp;
  rbx = c.regs rbx;
  r12 = c.regs r12;
  r13 = c.regs r13;
  r14 = c.regs r14;
  r15 = c.regs r15;
  rip = label;
  rflags = flags.pushed c.rflags;
}

-- The state between the two halves.
abbrev pub halfway : FlagsImage → (label old : ℕ) → Cpu → Cpu
halfway flags label old c = run flags label (save old) c

pub run-save :
    (flags : FlagsImage) (label old : ℕ) (c : Cpu) (rest : List Instr)
    → run flags label (save old ++ rest) c ≡ run flags label rest (halfway flags label old c)
unfolding run
run-save flags label old c rest = refl

-- The writes to rax and rsp, of which the last one to rsp is of its old value.
twice_set :
    (regs : ℕ → ℕ) (r v w x : ℕ)
    → r ≢ rax
    → set_reg (set_reg (set_reg (set_reg regs rax v) rsp w) rsp (regs rsp)) rax x r ≡ regs r
twice_set regs r v w x ne = ground arith

module _ (flags : FlagsImage) (label old : ℕ) (c : Cpu) (old_rax : (rax == old) ≡ false)
    (old_rsp : (rsp == old) ≡ false) (fits : c.regs old + 0xA0 ≤ 2 ^ 64) (stack : 8 ≤ c.regs rsp)
    (below : c.regs rsp < 2 ^ 64) (small : flags.pushed c.rflags < 2 ^ 64) where
  abbrev after_save : Cpu
  after_save = halfway flags label old c

  top_lem : u64 (c.regs rsp + (2 ^ 64 - 8)) ≡ c.regs rsp - 8
  top_lem = omega arith

  back_lem : u64 (c.regs rsp - 8 + 8) ≡ c.regs rsp
  back_lem = omega arith

  abbrev pub image : ℕ
  image = flags.pushed c.rflags

  abbrev pub saved_memory : Memory
  saved_memory =
      store_word 8 (c.regs old + 0x40) image
        (store_word 8 (c.regs rsp - 8) image (fill (kept_words label c) (c.regs old) c.memory))

  pub halfway-memory : after_save.memory ≡ saved_memory
  unfolding run exec fill
  halfway-memory =
      let a = c.regs old in
      let s0 : u64 (a + 0x00) ≡ a = omega arith in
      let s1 : u64 (a + 0x08) ≡ a + 8 = omega arith in
      let s2 : u64 (a + 0x10) ≡ a + 8 + 8 = omega arith in
      let s3 : u64 (a + 0x18) ≡ a + 8 + 8 + 8 = omega arith in
      let s4 : u64 (a + 0x20) ≡ a + 8 + 8 + 8 + 8 = omega arith in
      let s5 : u64 (a + 0x28) ≡ a + 8 + 8 + 8 + 8 + 8 = omega arith in
      let s6 : u64 (a + 0x30) ≡ a + 8 + 8 + 8 + 8 + 8 + 8 = omega arith in
      let s7 : u64 (a + 0x38) ≡ a + 8 + 8 + 8 + 8 + 8 + 8 + 8 = omega arith in
      let s8 : u64 (a + 0x40) ≡ a + 0x40 = omega arith in
      rw
        (
          old_rax,
          old_rsp,
          top_lem,
          s0,
          s1,
          s2,
          s3,
          s4,
          s5,
          s6,
          s7,
          s8,
          load-store_word 8 (c.regs rsp - 8) image (fill (kept_words label c) a c.memory)
              (ground arith),
        )
        refl

  pub halfway-regs : (r : ℕ) → r ≢ rax → after_save.regs r ≡ c.regs r
  unfolding run exec
  halfway-regs r ne = rw (top_lem, back_lem) (twice_set c.regs r label (c.regs rsp - 8) _ ne)

  pub halfway-outside :
      (j : ℕ)
      → Apart j 1 (c.regs old) 0x48
      → Apart j 1 (c.regs rsp - 8) 8
      → after_save.memory j ≡ c.memory j
  halfway-outside j off_context off_stack =
      ap (λ (m : Memory). m j) halfway-memory
      ∙ store_word-outside 8 (c.regs old + 0x40) image _ j
          (elim off_context [ inl h ↦ inl (omega arith) | inr h ↦ inr (omega arith) ])
      ∙ store_word-outside 8 (c.regs rsp - 8) image _ j
          (elim off_stack [ inl h ↦ inl (omega arith) | inr h ↦ inr (omega arith) ])
      ∙ fill-outside (kept_words label c) (c.regs old) c.memory j
          (elim off_context [ inl h ↦ inl (omega arith) | inr h ↦ inr (omega arith) ])

  module _ (off_stack : Apart (c.regs rsp - 8) 8 (c.regs old) 0xA0) where
    -- A word below the flags.
    kept_slot :
        (k v : ℕ)
        → k < 8
        → get_elem? (kept_words label c) k ≡ some v
        → v < 2 ^ 64
        → load_word 8 (c.regs old + 8 * k) after_save.memory ≡ v
    kept_slot k v lt at h =
        ap (load_word 8 (c.regs old + 8 * k)) halfway-memory
        ∙ load-store_word_apart 8 (c.regs old + 8 * k) 8 (c.regs old + 0x40) image _
            (inl (omega arith))
        ∙ load-store_word_apart 8 (c.regs old + 8 * k) 8 (c.regs rsp - 8) image _
            (elim off_stack [ inl before ↦ inr (omega arith) | inr after ↦ inl (omega arith) ])
        ∙ load-fill (kept_words label c) (c.regs old) k v c.memory at h

    flags_slot : load_word 8 (c.regs old + 0x40) after_save.memory ≡ image
    flags_slot =
        ap (load_word 8 (c.regs old + 0x40)) halfway-memory
        ∙ load-store_word 8 (c.regs old + 0x40) image _ (ground arith)

    -- The word that `pushfq` stored stays below the stack pointer.
    pub halfway-pushed : load_word 8 (c.regs rsp - 8) after_save.memory ≡ image
    halfway-pushed =
        ap (load_word 8 (c.regs rsp - 8)) halfway-memory
        ∙ load-store_word_apart 8 (c.regs rsp - 8) 8 (c.regs old + 0x40) image _
            (elim off_stack [ inl before ↦ inl (omega arith) | inr after ↦ inr (omega arith) ])
        ∙ load-store_word 8 (c.regs rsp - 8) image _ (ground arith)

    -- A word above the flags.
    other_slot :
        (offset : ℕ)
        → 0x48 ≤ offset
        → offset + 8 ≤ 0xA0
        → load_word 8 (c.regs old + offset) after_save.memory
          ≡ load_word 8 (c.regs old + offset) c.memory
    other_slot offset above lt =
        load_word-same 8 (c.regs old + offset) c.memory after_save.memory (λ j lo hi.
          halfway-outside j (inr (omega arith))
            (elim off_stack [ inl before ↦ inr (omega arith) | inr after ↦ inl (omega arith) ]))

    pub halfway-context_at :
        (wide : (r : ℕ) → c.regs r < 2 ^ 64)
        → label < 2 ^ 64
        → context_at (c.regs old) after_save.memory
          ≡ saved flags label c (context_at (c.regs old) c.memory)
    unfolding saved context_at
    halfway-context_at wide h =
        rw
          (
            kept_slot 0 (c.regs rsp) (omega arith) refl (wide rsp),
            kept_slot 1 (c.regs rbp) (omega arith) refl (wide rbp),
            kept_slot 2 (c.regs rbx) (omega arith) refl (wide rbx),
            kept_slot 3 (c.regs r12) (omega arith) refl (wide r12),
            kept_slot 4 (c.regs r13) (omega arith) refl (wide r13),
            kept_slot 5 (c.regs r14) (omega arith) refl (wide r14),
            kept_slot 6 (c.regs r15) (omega arith) refl (wide r15),
            kept_slot 7 label (omega arith) refl h,
            flags_slot,
            other_slot 0x48 (omega arith) (omega arith),
            other_slot 0x50 (omega arith) (omega arith),
            other_slot 0x58 (omega arith) (omega arith),
            other_slot 0x60 (omega arith) (omega arith),
            other_slot 0x68 (omega arith) (omega arith),
            other_slot 0x70 (omega arith) (omega arith),
            other_slot 0x78 (omega arith) (omega arith),
            other_slot 0x80 (omega arith) (omega arith),
            other_slot 0x88 (omega arith) (omega arith),
            other_slot 0x90 (omega arith) (omega arith),
            other_slot 0x98 (omega arith) (omega arith),
          )
          refl
