-- ===== src/TicketLock/Tests.antt =====
-- Two threads: the first holds the lock, the second waits behind it.
use smp_nostd.Base.{ℕ, ℕ_discrete, ◌<◌, ◌≡◌, ◌≢◌, ◌⊎◌, refl, arith}
use smp_nostd.Base.Threads.{System, Reach, pick, here, next, update}
use smp_nostd.TicketLock.{TicketLock, Pc, idle, waiting, compared, holding, Move, take, enter, init}
use smp_nostd.TicketLock.Safety.{mutual_exclusion, no_deadlock, first_come_first_served}

abbrev two : System TicketLock Pc
two = record {
  mem = record { next_ticket = 2; now_serving = 0 };
  pc = update (update (update (λ _. idle) 0 (waiting 0)) 1 (waiting 1)) 0 holding;
}

queued : Reach Move 2 init 3 two
unfolding ℕ_discrete
queued =
    next (next (next here (pick 0 (omega arith) take)) (pick 1 (omega arith) take))
      (pick 0 (omega arith) (enter refl))

abbrev first : ℕ
first = 0

mutual_exclusion_example : first ≡ first
unfolding ℕ_discrete
mutual_exclusion_example = mutual_exclusion queued (omega arith) first first refl refl

no_deadlock_example : (j : ℕ) × ((two.pc j ≡ holding) ⊎ (two.pc j ≡ waiting 0))
unfolding ℕ_discrete
no_deadlock_example = no_deadlock 1 1 queued (omega arith) refl

first_come_first_served_example :
    ((j u : ℕ) → j ≢ 1 → two.pc j ≡ waiting u → two.mem.now_serving ≡ u → u < 1)
    × ((j : ℕ) → two.pc j ≡ holding → 0 < 1)
    × (1 < 2)
    × ((j u : ℕ) → two.pc j ≡ compared u → 2 ≢ u)
unfolding ℕ_discrete
first_come_first_served_example = first_come_first_served 1 1 queued (omega arith) refl
