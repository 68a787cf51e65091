-- ===== src/ContextSwitch/Frame.antt =====
-- `CpuContext`, src/scheduler.rs, as it lies in memory.
use smp_nostd.Base.{ℕ, ◌+◌, ◌≤◌, ◌<◌, ◌≡◌, refl, arith}
use smp_nostd.Task.{CpuContext}
use smp_nostd.Trampoline.{Memory, load_word}
use smp_nostd.Trampoline.Words.{load_word-same}

-- The twenty words of a context at `a`.
unfoldable pub context_at : (a : ℕ) → Memory → CpuContext
context_at a m = record {
  rsp = load_word 8 (a + 0x00) m;
  rbp = load_word 8 (a + 0x08) m;
  rbx = load_word 8 (a + 0x10) m;
  r12 = load_word 8 (a + 0x18) m;
  r13 = load_word 8 (a + 0x20) m;
  r14 = load_word 8 (a + 0x28) m;
  r15 = load_word 8 (a + 0x30) m;
  rip = load_word 8 (a + 0x38) m;
  rflags = load_word 8 (a + 0x40) m;
  rax = load_word 8 (a + 0x48) m;
  rcx = load_word 8 (a + 0x50) m;
  rdx = load_word 8 (a + 0x58) m;
  rsi = load_word 8 (a + 0x60) m;
  rdi = load_word 8 (a + 0x68) m;
  r8 = load_word 8 (a + 0x70) m;
  r9 = load_word 8 (a + 0x78) m;
  r10 = load_word 8 (a + 0x80) m;
  r11 = load_word 8 (a + 0x88) m;
  cs = load_word 8 (a + 0x90) m;
  ss = load_word 8 (a + 0x98) m;
}

module _ (a : ℕ) (m m' : Memory) (same : (j : ℕ) → a ≤ j → j < a + 0xA0 → m' j ≡ m j) where
  word : (offset : ℕ) → offset + 8 ≤ 0xA0 → load_word 8 (a + offset) m' ≡ load_word 8 (a + offset) m
  word offset lt =
      load_word-same 8 (a + offset) m m' (λ j lo hi. same j (omega arith) (omega arith))

  pub context_at-same : context_at a m' ≡ context_at a m
  unfolding context_at
  context_at-same =
      rw
        (
          word 0x00 (omega arith),
          word 0x08 (omega arith),
          word 0x10 (omega arith),
          word 0x18 (omega arith),
          word 0x20 (omega arith),
          word 0x28 (omega arith),
          word 0x30 (omega arith),
          word 0x38 (omega arith),
          word 0x40 (omega arith),
          word 0x48 (omega arith),
          word 0x50 (omega arith),
          word 0x58 (omega arith),
          word 0x60 (omega arith),
          word 0x68 (omega arith),
          word 0x70 (omega arith),
          word 0x78 (omega arith),
          word 0x80 (omega arith),
          word 0x88 (omega arith),
          word 0x90 (omega arith),
          word 0x98 (omega arith),
        )
        refl
