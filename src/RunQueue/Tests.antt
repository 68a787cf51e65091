-- ===== src/RunQueue/Tests.antt =====
-- A queue of three tasks.
use smp_nostd.Base.{ℕ, Bool, none, [], ◌∷◌, ◌==◌, arith}
use smp_nostd.Task.{Task, new_task}
use smp_nostd.RunQueue.{RunQueue}
use smp_nostd.RunQueue.Laws.{IsValid}

abbrev task : ℕ → Task
task i = record {
  id = i;
  name = "worker";
  state = 0;
  context = new_task 0x400000 0x20000 i;
  stack = record { ptr = 0x10000; len = 0x10000 };
  affinity = none;
  assigned_core = none;
}

abbrev three : RunQueue
three = record { core_id = 0; queue = task 1 ∷ task 2 ∷ task 3 ∷ []; len = 3 }

three-IsValid : IsValid three
three-IsValid = record { counted = ground arith; fits = ground arith }

abbrev is_third : Task → Bool
is_third t = t.id == 3
