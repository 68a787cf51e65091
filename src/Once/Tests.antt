-- ===== src/Once/Tests.antt =====
-- Two threads call: one runs the closure while the other waits, and then returns.
use smp_nostd.Base.{ℕ, ℕ_discrete, ◌≤◌, ◌<◌, ◌≡◌, ◌⊎◌, refl, true, arith}
use smp_nostd.Base.Threads.{System, Reach, pick, here, next, update}
use smp_nostd.Once.{
  Once, Pc, outside, attempting, running, finishing, spinning, returned, Move, attempt, win, lose,
  call, finish, is_completed, init,
}
use smp_nostd.Once.Safety.{exactly_once, spinning-progress}

abbrev raced : System Once Pc
raced = record {
  mem = record { state = 1; runs = 0 };
  pc =
      update (update (update (update (λ _. outside) 0 attempting) 1 attempting) 0 running) 1
        spinning;
}

race : Reach Move 2 init 4 raced
unfolding ℕ_discrete
race =
    next
      (next
        (next (next here (pick 0 (omega arith) (attempt (omega arith))))
          (pick 1 (omega arith) (attempt (omega arith))))
        (pick 0 (omega arith) (win refl)))
      (pick 1 (omega arith) (lose (omega arith)))

abbrev over : System Once Pc
over = record {
  mem = record { state = 2; runs = 1 };
  pc = update (update raced.pc 0 finishing) 0 returned;
}

finished : Reach Move 2 init 6 over
unfolding ℕ_discrete
finished = next (next race (pick 0 (omega arith) call)) (pick 0 (omega arith) finish)

exactly_once_example :
    (1 ≤ 1)
    × ((i : ℕ) → over.pc i ≡ returned → (over.mem.runs ≡ 1) × (is_completed over.mem ≡ true))
    × (is_completed over.mem ≡ true → over.mem.runs ≡ 1)
unfolding ℕ_discrete
exactly_once_example = exactly_once finished

spinning-progress_example : (j : ℕ) × (j < 2) × ((raced.pc j ≡ running) ⊎ (raced.pc j ≡ finishing))
unfolding is_completed ℕ_discrete
spinning-progress_example = spinning-progress 1 race refl refl
