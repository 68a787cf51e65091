-- ===== src/PerCpu/Lookup.antt =====
-- What registration does to later look-ups, and that `all_cpus` lists every registered CPU.
use mathlib.Core.List.{append-nil, append_assoc}
use smp_nostd.Base.{
  ℕ, zero, suc, ◌+◌, ◌^◌, ◌≤◌, ◌<◌, ◌≡◌, ◌≢◌, ◌∙◌, sym, ap, refl, ℕ_discrete, none, some,
  Option-cases, Bool-cases, inl, inr, List, [], ◌∷◌, ◌++◌, length, length-append, ◌==◌, arith,
}
use smp_nostd.PerCpu.{
  PerCpu, max_cpus, Registry, add_entry, register_percpu, empty, get_current_cpu, get_cpu,
  cpu_count, all_loop, all_cpus,
}

-- Below `n`, how many CPUs of `i .. i + n` are registered, and their structures in order.
unfoldable pub present : Registry → (n i : ℕ) → List PerCpu
present r zero i = []
present r (suc n) i = elim (get_cpu r i) [
  | none ↦ present r n (i + 1)
  | some c ↦ c ∷ present r n (i + 1)
]

-- The table is well formed: the entries lead to boxes that know their index and their address, and
-- the counter counts them.
pub record IsValid (r : Registry) : Type 0 where
  pub boxed :
      (i : ℕ)
      → r.array i ≢ 0
      → (c : PerCpu) × (r.heap (r.array i) ≡ some c) × (c.cpu_index ≡ i) × (c.self_ptr ≡ r.array i)
  pub counted : r.count ≡ length (present r max_cpus 0)

-- Before the first registration the table is well formed.
pub empty-IsValid : IsValid empty
unfolding get_cpu present
empty-IsValid = record { boxed = λ i h. absurd (h refl); counted = ground arith }

-- A box that is new to the table: at an address that is not null and not in use, for a CPU that the
-- table has room for.
pub record IsNew (r : Registry) (ptr : ℕ) (c : PerCpu) : Type 0 where
  pub in_range : c.cpu_index < max_cpus
  pub nonnull : ptr ≢ 0
  pub self : c.self_ptr ≡ ptr
  pub fresh : r.heap ptr ≡ none
  pub unlisted : (i : ℕ) → r.array i ≢ ptr
  pub room : r.count + 1 < 2 ^ 64

-- `register_percpu` of a new box does not panic: the structure is then what the table gives for its
-- index and what the GS base gives on the CPU that registered it, the entries of all other CPUs are as
-- before, and the counter has grown by one.
pub register-get :
    (r : Registry) (here ptr : ℕ) (c : PerCpu)
    → IsNew r ptr c
    → (register_percpu r here ptr c ≡ some (add_entry r here ptr c))
      × (get_cpu (add_entry r here ptr c) c.cpu_index ≡ some c)
      × (get_current_cpu (add_entry r here ptr c) here ≡ some c)
      × ((i : ℕ) → i ≢ c.cpu_index → get_cpu (add_entry r here ptr c) i ≡ get_cpu r i)
      × (cpu_count (add_entry r here ptr c) ≡ cpu_count r + 1)
unfolding register_percpu get_cpu get_current_cpu cpu_count
register-get r here ptr c n = (
  ground (arith, n.in_range),
  ground (arith, n.in_range, n.nonnull),
  ground (arith, n.self),
  λ i ne. ground (arith, n.unlisted i),
  omega (arith, n.room),
)

-- A CPU with an index of 256 or more is refused by a panic, and no look-up finds one.
pub register-none :
    (r : Registry) (here ptr : ℕ) (c : PerCpu)
    → max_cpus ≤ c.cpu_index
    → (register_percpu r here ptr c ≡ none) × (get_cpu r c.cpu_index ≡ none)
unfolding register_percpu get_cpu
register-none r here ptr c h = ground arith

nil_of_length {ℓ} : {A : Type ℓ} (xs : List A) → length xs ≡ 0 → [] ≡ xs
nil_of_length [] h = refl
nil_of_length (x ∷ xs) h = absurd (omega arith)

all_loop-present :
    (r : Registry) (count n i : ℕ) (cpus : List PerCpu)
    → length cpus + length (present r n i) ≡ count
    → all_loop r count n i cpus ≡ cpus ++ present r n i
unfolding all_loop present
all_loop-present r count zero i cpus h = sym (append-nil cpus)
all_loop-present r count (suc n) i cpus h = elim (Option-cases (get_cpu r i)) [
  | inl e ↦
      rw (e, all_loop, present) (all_loop-present r count n (i + 1) cpus (rw (e, present) at h))
  | inr (c, e) ↦
      let left : length cpus + suc (length (present r n (i + 1))) ≡ count = rw (e, present) at h in
      let more : length (cpus ++ c ∷ []) ≡ length cpus + 1 = length-append cpus (c ∷ []) in
      rw (e, all_loop, present)
        (elim (Bool-cases (length (cpus ++ c ∷ []) == count)) [
          | inl full ↦ rw full (
              ap (λ (l : List PerCpu). cpus ++ c ∷ l)
                (nil_of_length (present r n (i + 1)) (ground arith)))
          | inr not_full ↦ rw not_full (
              all_loop-present r count n (i + 1) (cpus ++ c ∷ []) (omega arith)
              ∙ append_assoc cpus (c ∷ []) (present r n (i + 1)))
        ])
]

-- On a well-formed table `all_cpus` gives every registered CPU once, in the order of the indices,
-- although it stops at the counter.
pub all_cpus-present : (r : Registry) → IsValid r → all_cpus r ≡ present r max_cpus 0
unfolding all_cpus cpu_count
all_cpus-present r v = all_loop-present r r.count max_cpus 0 [] (omega (arith, v.counted))

-- What a table lists when one more CPU is in it.
module _ (r r' : Registry) (k : ℕ) (c : PerCpu)
    (same : (i : ℕ) → i ≢ k → get_cpu r' i ≡ get_cpu r i) (old : get_cpu r k ≡ none)
    (new : get_cpu r' k ≡ some c) where
  present-beyond : (n i : ℕ) → k < i → length (present r' n i) ≡ length (present r n i)
  unfolding present
  present-beyond zero i h = refl
  present-beyond (suc n) i h = ground (arith, same i, present-beyond n (i + 1))

  present-more :
      (n i : ℕ) → i ≤ k → k < i + n → length (present r' n i) ≡ length (present r n i) + 1
  unfolding present
  present-more zero i h h' = absurd (omega arith)
  present-more (suc n) i h h' = elim (ℕ_discrete i k) [
    | yes e ↦ ground (arith, present-beyond n (i + 1))
    | no ne ↦ ground (arith, same i, present-more n (i + 1))
  ]

put-boxed :
    (r : Registry) (here ptr : ℕ) (c : PerCpu)
    → IsValid r
    → IsNew r ptr c
    → (i : ℕ) → (add_entry r here ptr c).array i ≢ 0
    → (d : PerCpu) × ((add_entry r here ptr c).heap ((add_entry r here ptr c).array i) ≡ some d)
      × (d.cpu_index ≡ i)
      × (d.self_ptr ≡ (add_entry r here ptr c).array i)
put-boxed r here ptr c v n i h = elim (ℕ_discrete c.cpu_index i) [
  | yes e ↦ (c, ground arith, ground arith, ground (arith, n.self))
  | no ne ↦
      let (d, at, index, self) = v.boxed i (ground arith) in
      (d, ground (arith, n.unlisted i), index, ground arith)
]

-- Registering a CPU for the first time keeps the table well formed, so that `all_cpus` lists it.
pub register-IsValid :
    (r : Registry) (here ptr : ℕ) (c : PerCpu)
    → IsValid r
    → IsNew r ptr c
    → get_cpu r c.cpu_index ≡ none
    → IsValid (add_entry r here ptr c)
      × (length (all_cpus (add_entry r here ptr c)) ≡ length (all_cpus r) + 1)
register-IsValid r here ptr c v n free =
    let (done, found, current, rest, grown) = register-get r here ptr c n in
    let one_more =
      present-more r (add_entry r here ptr c) c.cpu_index c rest free found max_cpus 0 (omega arith)
        (omega (arith, n.in_range)) in
    let v' : IsValid (add_entry r here ptr c) = record {
      boxed = put-boxed r here ptr c v n;
      counted = omega (arith, v.counted, one_more, n.room);
    } in
    (
      v',
      omega (arith, ap length (all_cpus-present r v), ap length (all_cpus-present _ v'), one_more),
    )
