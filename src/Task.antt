-- ===== src/Task.antt =====
-- src/scheduler.rs, the tasks: their states, saved contexts and creation.
pub mod Creation
mod Tests
use Prim.Native.String.{String}
use smp_nostd.Base.{
  ℕ, ◌+◌, ◌-◌, ◌*◌, bit_and, Option, none, some, ◌==◌, if◌then◌else◌, Profile, u64_max, fetch_add,
  add_word,
}

pub data TaskState : Type 0 where
  ready running blocked dead : TaskState

-- `state as u8`
pub as_u8 : TaskState → ℕ
as_u8 ready = 0
as_u8 running = 1
as_u8 blocked = 2
as_u8 dead = 3

-- `TaskState::from(v)`
pub from_u8 : ℕ → TaskState
from_u8 v = if v == 0 then ready else if v == 1 then running else if v == 2 then blocked else dead

pub record CpuContext : Type 0 where
  pub rsp : ℕ
  pub rbp : ℕ
  pub rbx : ℕ
  pub r12 : ℕ
  pub r13 : ℕ
  pub r14 : ℕ
  pub r15 : ℕ
  pub rip : ℕ
  pub rflags : ℕ
  pub rax : ℕ
  pub rcx : ℕ
  pub rdx : ℕ
  pub rsi : ℕ
  pub rdi : ℕ
  pub r8 : ℕ
  pub r9 : ℕ
  pub r10 : ℕ
  pub r11 : ℕ
  pub cs : ℕ
  pub ss : ℕ

-- `CpuContext::zeroed`
unfoldable pub zeroed : CpuContext
zeroed = record {
  rsp = 0;
  rbp = 0;
  rbx = 0;
  r12 = 0;
  r13 = 0;
  r14 = 0;
  r15 = 0;
  rip = 0;
  rflags = 0;
  rax = 0;
  rcx = 0;
  rdx = 0;
  rsi = 0;
  rdi = 0;
  r8 = 0;
  r9 = 0;
  r10 = 0;
  r11 = 0;
  cs = 0;
  ss = 0;
}

-- `CpuContext::new_task`
unfoldable pub new_task : (entry stack_top arg : ℕ) → CpuContext
new_task entry stack_top arg = record {
  rsp = stack_top;
  rbp = stack_top;
  rbx = 0;
  r12 = 0;
  r13 = 0;
  r14 = 0;
  r15 = 0;
  rip = entry;
  rflags = 0x200;
  rax = 0;
  rcx = 0;
  rdx = 0;
  rsi = 0;
  rdi = arg;
  r8 = 0;
  r9 = 0;
  r10 = 0;
  r11 = 0;
  cs = 0x08;
  ss = 0x10;
}

-- The boxed slice of a stack: its address and its length. The bytes are never looked at.
pub record Stack : Type 0 where
  pub ptr : ℕ
  pub len : ℕ

pub record Task : Type 0 where
  pub id : ℕ
  pub name : String
  pub state : ℕ
  pub context : CpuContext
  pub stack : Stack
  pub affinity : Option ℕ
  pub assigned_core : Option ℕ

abbrev pub default_stack_size : ℕ
default_stack_size = 64 * 1024

-- `stack_top & !0xF`
pub align_stack : ℕ → ℕ
align_stack stack_top = bit_and stack_top (u64_max - 0xf)

task_of : ℕ → ℕ → String → ℕ → ℕ → ℕ → ℕ → Task
unfolding align_stack new_task as_u8
task_of id ptr name entry arg stack_size stack_top = record {
  id = id;
  name = name;
  state = as_u8 ready;
  context = new_task entry (align_stack stack_top) arg;
  stack = record { ptr = ptr; len = stack_size };
  affinity = none;
  assigned_core = none;
}

-- `Task::new`. `next_id` is NEXT_TASK_ID, returned with its new value; `ptr` is the address that the
-- allocator gives the stack; `none` is an overflow panic.
unfoldable pub new :
    Profile → (next_id ptr : ℕ) → String → (entry arg stack_size : ℕ) → Option (Task × ℕ)
unfolding task_of
new profile next_id ptr name entry arg stack_size = elim (add_word profile 64 ptr stack_size) [
  | none ↦ none
  | some stack_top ↦
      some (task_of next_id ptr name entry arg stack_size stack_top, fetch_add next_id 1)
]

pub with_affinity : Task → ℕ → Task
with_affinity t core_id = record t { affinity = some core_id }

pub get_state : Task → TaskState
unfolding from_u8
get_state t = from_u8 t.state

unfoldable pub set_state : Task → TaskState → Task
unfolding as_u8
set_state t s = record t { state = as_u8 s }
