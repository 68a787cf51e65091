-- ===== src/Task/Creation.antt =====
-- `Task::new`, `get_state` and `set_state`: what a new task looks like, and that states survive
-- their byte.
use Prim.Native.String.{String}
use smp_nostd.Base.{
  ℕ, ◌+◌, ◌-◌, ◌/◌, ◌%◌, ◌^◌, ◌≤◌, ◌<◌, ◌≡◌, refl, none, some, arith, Profile, add_word_fits,
}
use smp_nostd.Base.Bits.{bit_and_not_mask}
use smp_nostd.Task.{
  TaskState, Task, ready, running, blocked, dead, align_stack, task_of, new, get_state, set_state,
}

-- Reading the state that was stored gives it back, and storing it touches nothing else.
pub get_state-set_state :
    (t : Task) (s : TaskState)
    → (get_state (set_state t s) ≡ s) × (record (set_state t s) { state = t.state } ≡ t)
unfolding get_state set_state
get_state-set_state t ready = (refl, refl)
get_state-set_state t running = (refl, refl)
get_state-set_state t blocked = (refl, refl)
get_state-set_state t dead = (refl, refl)

align_stack_lem : (a : ℕ) → a < 2 ^ 64 → align_stack a ≡ a - a % 16
unfolding align_stack
align_stack_lem a h = bit_and_not_mask 60 4 a (omega arith)

-- A new task is ready, runs from `entry` with `arg` in rdi and interrupts on; its stack pointer is
-- 16-byte aligned, inside the allocation and at most 15 bytes below its end.
pub record IsFresh (t : Task) (ptr entry arg stack_size : ℕ) : Type 0 where
  pub state : get_state t ≡ ready
  pub free : t.affinity ≡ none
  pub rip : t.context.rip ≡ entry
  pub rdi : t.context.rdi ≡ arg
  pub interrupts : t.context.rflags / 2 ^ 9 % 2 ≡ 1
  pub frame : t.context.rbp ≡ t.context.rsp
  pub aligned : t.context.rsp % 16 ≡ 0
  pub below_end : t.context.rsp ≤ ptr + stack_size
  pub near_end : ptr + stack_size < t.context.rsp + 16

-- For a stack that lies below the top of the address space `Task::new` does not panic in either
-- profile; the task has the id that the counter held and is fresh, and the counter grows by one.
pub new-IsFresh :
    (p : Profile) (next_id ptr : ℕ) (name : String) (entry arg stack_size : ℕ)
    → ptr + stack_size < 2 ^ 64
    → next_id + 1 < 2 ^ 64
    → (t : Task) × (new p next_id ptr name entry arg stack_size ≡ some (t, next_id + 1))
      × (t.id ≡ next_id)
      × IsFresh t ptr entry arg stack_size
unfolding new get_state
new-IsFresh p next_id ptr name entry arg stack_size h k = (
  task_of next_id ptr name entry arg stack_size (ptr + stack_size),
  rw (add_word_fits p 64 ptr stack_size h, new) (ground arith),
  refl,
  record {
    state = refl;
    free = refl;
    rip = refl;
    rdi = refl;
    interrupts = refl;
    frame = refl;
    aligned = omega (arith, align_stack_lem (ptr + stack_size) h);
    below_end = omega (arith, align_stack_lem (ptr + stack_size) h);
    near_end = omega (arith, align_stack_lem (ptr + stack_size) h);
  },
)
