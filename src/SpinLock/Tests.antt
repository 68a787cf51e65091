-- ===== src/SpinLock/Tests.antt =====
-- Two CPUs with interrupts on: the first has the lock, the second has not called it.
use smp_nostd.Base.{ℕ, ℕ_discrete, ◌≡◌, refl, true, false, [], ◌∷◌, arith}
use smp_nostd.Base.Threads.{System, Reach, pick, here, next, update}
use smp_nostd.Interrupts.{interrupts_enabled, disable_interrupts, restore_interrupts}
use smp_nostd.SpinLock.{SpinLock, idle, acquiring, holding, Cpu, cpu, Move, lock, acquire, init}
use smp_nostd.SpinLock.Safety.{one_holder}
use smp_nostd.SpinLock.Nesting.{Nested, outside, refused, dropped, Nested-Flagged}

abbrev flags : ℕ → ℕ
flags _ = 0x202

abbrev one : System SpinLock Cpu
one = record {
  mem = record { locked = true };
  pc =
      update
        (update (λ _. cpu idle 0x202) 0
          (cpu (acquiring (disable_interrupts 0x202).0) (disable_interrupts 0x202).1))
        0 (cpu (holding (disable_interrupts 0x202).0) (disable_interrupts 0x202).1);
}

locked : Reach Move 2 (init flags) 2 one
unfolding ℕ_discrete
locked = next (next here (pick 0 (omega arith) lock)) (pick 0 (omega arith) (acquire refl))

abbrev first : ℕ
first = 0

one_holder_example : first ≡ first
unfolding ℕ_discrete
one_holder_example =
    one_holder first first (λ _. omega arith) locked (omega arith) (omega arith) refl refl

-- Two spinlocks are taken, a third is not free, and the younger guard is dropped.
nested : Nested 0x202 (true ∷ []) 2
unfolding disable_interrupts restore_interrupts
nested = dropped (refused (Nested.locked (Nested.locked outside)))

Nested-Flagged_example : interrupts_enabled 2 ≡ false
Nested-Flagged_example = Nested-Flagged (omega arith) nested
