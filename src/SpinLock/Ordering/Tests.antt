-- ===== src/SpinLock/Ordering/Tests.antt =====
-- Two processors: the first writes 7 through a guard and drops it, and the second takes the lock.
use smp_nostd.Base.{ℕ, ℕ_discrete, ◌≡◌, refl, true, [], ◌∷◌, inl, arith}
use smp_nostd.Base.Threads.{System, Reach, pick, here, next, update}
use smp_nostd.Fences.{drains, sfence}
use smp_nostd.SpinLock.Ordering.{
  outside, holding, set_data, set_unlocked, Cpu, cpu, Memory, Move, read_data, acquire, write,
  unlock, fence, commit, commit_write, init,
}
use smp_nostd.SpinLock.Ordering.Visible.{holder-reads_latest}

abbrev places : ℕ → Cpu
places =
    update
      (update
        (update
          (update
            (update
              (update (update (λ i. cpu outside []) 0 (cpu holding [])) 0
                (cpu holding (set_data 7 ∷ [])))
              0 (cpu holding (set_data 7 ∷ [])))
            0 (cpu outside (set_data 7 ∷ set_unlocked ∷ [])))
          0 (cpu outside (set_unlocked ∷ [])))
        0 (cpu outside []))
      1 (cpu holding [])

abbrev handed_over : System Memory Cpu
handed_over = record { mem = record { locked = true; data_word = 7; latest = 7 }; pc = places }

steps : Reach Move 2 (init 0) 7 handed_over
unfolding ℕ_discrete commit_write drains
steps =
    next
      (next
        (next
          (next
            (next
              (next (next here (pick 0 (omega arith) (acquire refl)))
                (pick 0 (omega arith) (write 7)))
              (pick 0 (omega arith) (fence sfence (inl refl))))
            (pick 0 (omega arith) unlock))
          (pick 0 (omega arith) commit))
        (pick 0 (omega arith) commit))
      (pick 1 (omega arith) (acquire refl))

holder-reads_latest_example : read_data (handed_over.pc 1).buffer 7 ≡ 7
unfolding ℕ_discrete
holder-reads_latest_example = holder-reads_latest 1 steps (omega arith) refl
