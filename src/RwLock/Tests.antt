-- ===== src/RwLock/Tests.antt =====
-- A reader and then, after its drop, a writer among two threads.
use smp_nostd.Base.{ℕ, ℕ_discrete, ◌≡◌, ◌≢◌, refl, arith}
use smp_nostd.Base.Threads.{System, Reach, pick, here, next, update}
use smp_nostd.RwLock.{
  RwLock, Pc, idle, trying, reading, writing, Move, try_read_load, try_read_win, drop_read,
  try_write_win, init, writer_bit,
}
use smp_nostd.RwLock.Safety.{writer_excludes}

abbrev reader : System RwLock Pc
reader = record {
  mem = record { state = 1 };
  pc = update (update (λ _. idle) 0 (trying 0)) 0 reading;
}

read_once : Reach Move 2 init 2 reader
unfolding ℕ_discrete
read_once =
    next (next here (pick 0 (omega arith) (try_read_load (omega arith))))
      (pick 0 (omega arith) (try_read_win refl))

abbrev second : ℕ
second = 1

abbrev writer : System RwLock Pc
writer = record {
  mem = record { state = writer_bit };
  pc = update (update reader.pc 0 idle) 1 writing;
}

write_once : Reach Move 2 init 4 writer
unfolding ℕ_discrete
write_once =
    next (next read_once (pick 0 (omega arith) drop_read))
      (pick 1 (omega arith) (try_write_win refl))

writer_excludes_example : (writer.pc 0 ≢ reading) × (writer.pc 0 ≡ writing → second ≡ 0)
unfolding ℕ_discrete
writer_excludes_example = writer_excludes 1 0 write_once (omega arith) (omega arith) refl
