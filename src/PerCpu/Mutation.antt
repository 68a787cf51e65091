-- ===== src/PerCpu/Mutation.antt =====
-- Writes through the mutable reference to the current CPU's structure.
use smp_nostd.Base.{
  ℕ, ℕ_discrete, ◌∙◌, sym, ap, ◌<◌, ◌≡◌, ◌≢◌, refl, some, ◌==◌, if◌then◌else◌, arith,
}
use smp_nostd.PerCpu.{PerCpu, Registry, max_cpus, get_current_cpu, get_current_cpu_mut, get_cpu}
use smp_nostd.PerCpu.Lookup.{IsValid}

-- The CPU `here` has the structure `c`, which the table lists under its index.
pub record IsCurrent (r : Registry) (here : ℕ) (c : PerCpu) : Type 0 where
  pub pointed : r.heap (r.gs_base here) ≡ some c
  pub self : c.self_ptr ≡ r.gs_base here
  pub listed : r.array c.cpu_index ≡ r.gs_base here
  pub nonnull : r.gs_base here ≢ 0
  pub in_range : c.cpu_index < max_cpus

write-boxed :
    (r : Registry) (here : ℕ) (c c' : PerCpu)
    → IsCurrent r here c
    → IsValid r
    → c'.self_ptr ≡ c.self_ptr
    → c'.cpu_index ≡ c.cpu_index
    → (i : ℕ) → r.array i ≢ 0
    → (d : PerCpu) × ((if r.gs_base here == r.array i then some c' else r.heap (r.array i))
        ≡ some d)
      × (d.cpu_index ≡ i)
      × (d.self_ptr ≡ r.array i)
write-boxed r here c c' cur v same_ptr same_index i h =
    let (d, at, index, self) = v.boxed i h in
    elim (ℕ_discrete (r.gs_base here) (r.array i)) [
      | yes e ↦
          let one : some c ≡ some d = sym cur.pointed ∙ ap r.heap e ∙ at in
          (c', ground arith, ground arith, ground (arith, cur.self))
      | no ne ↦ (d, ground arith, index, self)
    ]

-- On a CPU whose structure the table lists, `get_current_cpu_mut` reads that structure. A write through
-- it that keeps the address and the index is seen by `get_current_cpu` on this CPU and by `get_cpu` of
-- its index, leaves what `get_cpu` gives for every other CPU at another address, and keeps a well-formed
-- table's entries leading to boxes that know their index and address.
pub get_current_cpu_mut-get :
    (r : Registry) (here : ℕ) (c c' : PerCpu)
    → IsCurrent r here c
    → IsValid r
    → c'.self_ptr ≡ c.self_ptr
    → c'.cpu_index ≡ c.cpu_index
    → (write : PerCpu → Registry) × (get_current_cpu_mut r here ≡ some (c, write))
      × (get_current_cpu (write c') here ≡ some c')
      × (get_cpu (write c') c.cpu_index ≡ some c')
      × ((i : ℕ) → r.array i ≢ r.gs_base here → get_cpu (write c') i ≡ get_cpu r i)
      × ((i : ℕ)
          → (write c').array i ≢ 0
          → (d : PerCpu) × ((write c').heap ((write c').array i) ≡ some d)
            × (d.cpu_index ≡ i)
            × (d.self_ptr ≡ (write c').array i))
unfolding get_current_cpu_mut get_current_cpu get_cpu
get_current_cpu_mut-get r here c c' cur v same_ptr same_index = (
  λ (x : PerCpu). record r { heap = λ j. if r.gs_base here == j then some x else r.heap j },
  rw (cur.pointed, get_current_cpu_mut) refl,
  ground (arith, cur.self),
  ground (arith, cur.listed, cur.nonnull, cur.in_range),
  λ i ne. ground arith,
  write-boxed r here c c' cur v same_ptr same_index,
)
