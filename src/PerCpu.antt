-- ===== src/PerCpu.antt =====
-- src/percpu.rs: the table of per-CPU structures and the GS base of each CPU. A structure is its
-- record at an address; the allocator's address is an argument. `none` is a panic.
pub mod Lookup
pub mod Mutation
pub mod GsBase
mod Tests
use smp_nostd.Base.{
  ℕ, zero, suc, ◌+◌, ◌≡◌, ◌<◌, ◌≤◌, Bool, true, false, Option, none, some, List, [], ◌∷◌, ◌++◌,
  length, ltb, leb, ◌==◌, if◌then◌else◌, fetch_add,
}

abbrev pub max_cpus : ℕ
max_cpus = 256

pub record PerCpu : Type 0 where
  pub self_ptr : ℕ
  pub cpu_index : ℕ
  pub apic_id : ℕ
  pub is_bsp : Bool
  pub kernel_stack_top : ℕ
  pub kernel_stack_size : ℕ
  pub current_task_id : ℕ
  pub interrupt_disable_count : ℕ
  pub local_data : ℕ

-- `PerCpu::new`; `ptr` is the address that the allocator gives the box, never null.
unfoldable pub new : (ptr cpu_index apic_id : ℕ) → Bool → PerCpu
new ptr cpu_index apic_id is_bsp = record {
  self_ptr = ptr;
  cpu_index = cpu_index;
  apic_id = apic_id;
  is_bsp = is_bsp;
  kernel_stack_top = 0;
  kernel_stack_size = 0;
  current_task_id = 0;
  interrupt_disable_count = 0;
  local_data = 0;
}

-- `set_kernel_stack`
pub set_kernel_stack : PerCpu → (stack_top stack_size : ℕ) → PerCpu
set_kernel_stack c stack_top stack_size = record c {
  kernel_stack_top = stack_top;
  kernel_stack_size = stack_size;
}

-- The leaked boxes by address, PERCPU_ARRAY with 0 for null, PERCPU_COUNT, and the MSR IA32_GS_BASE
-- of each CPU.
pub record Registry : Type 0 where
  pub heap : ℕ → Option PerCpu
  pub array : ℕ → ℕ
  pub count : ℕ
  pub gs_base : ℕ → ℕ

abbrev pub put {ℓ} : {A : Type ℓ} → (ℕ → A) → ℕ → A → ℕ → A
put f i a j = if i == j then a else f j

-- Before the first registration.
abbrev pub empty : Registry
empty = record { heap = λ _. none; array = λ _. 0; count = 0; gs_base = λ _. 0 }

-- The writes of `register_percpu`: the table, the counter and the GS base of the CPU `here`.
abbrev pub add_entry : Registry → (here ptr : ℕ) → PerCpu → Registry
add_entry r here ptr c = record {
  heap = put r.heap ptr (some c);
  array = put r.array c.cpu_index ptr;
  count = fetch_add r.count 1;
  gs_base = put r.gs_base here ptr;
}

-- `register_percpu`, called on the CPU `here` with a box at address `ptr`.
unfoldable pub register_percpu : Registry → (here ptr : ℕ) → PerCpu → Option Registry
register_percpu r here ptr c =
    if ltb c.cpu_index max_cpus then some (add_entry r here ptr c) else none

-- `get_current_cpu` on the CPU `here`; `none` is the failed debug assertion, or a pointer to nothing.
unfoldable pub get_current_cpu : Registry → (here : ℕ) → Option PerCpu
get_current_cpu r here = elim (r.heap (r.gs_base here)) [
  | none ↦ none
  | some c ↦ if c.self_ptr == r.gs_base here then some c else none
]

-- `get_current_cpu_mut` on the CPU `here`: what the reference reads, and the table after a write
-- through it.
unfoldable pub get_current_cpu_mut : Registry → (here : ℕ) → Option (PerCpu × (PerCpu → Registry))
get_current_cpu_mut r here = elim (r.heap (r.gs_base here)) [
  | none ↦ none
  | some c ↦ some (c, λ c'. record r { heap = put r.heap (r.gs_base here) (some c') })
]

-- `get_cpu`
unfoldable pub get_cpu : Registry → ℕ → Option PerCpu
get_cpu r index =
    if leb max_cpus index then none else if r.array index == 0 then none else r.heap (r.array index)

-- `cpu_count`
pub cpu_count : Registry → ℕ
cpu_count r = r.count

-- The loop of `all_cpus` over the indices `i .. i + n`; it stops when `count` CPUs are found.
pub all_loop : Registry → (count n i : ℕ) → List PerCpu → List PerCpu
all_loop r count zero i cpus = cpus
all_loop r count (suc n) i cpus = elim (get_cpu r i) [
  | none ↦ all_loop r count n (i + 1) cpus
  | some c ↦
      let more = cpus ++ c ∷ [] in
      let rest = all_loop r count n (i + 1) more in if length more == count then more else rest
]

-- `all_cpus`
pub all_cpus : Registry → List PerCpu
unfolding all_loop
all_cpus r = all_loop r (cpu_count r) max_cpus 0 []
