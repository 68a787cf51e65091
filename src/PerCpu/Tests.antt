-- ===== src/PerCpu/Tests.antt =====
-- Two CPUs, registered with the indices 0 and 2.
use smp_nostd.Base.{ℕ, ◌+◌, ◌≡◌, ◌≢◌, refl, true, false, none, some, arith}
use smp_nostd.PerCpu.{
  PerCpu, new, Registry, empty, add_entry, register_percpu, get_current_cpu, get_cpu, cpu_count,
}
use smp_nostd.PerCpu.Lookup.{IsValid, IsNew, empty-IsValid, register-get, register-IsValid}

abbrev bsp : PerCpu
bsp = new 0x1000 0 0 true

abbrev ap : PerCpu
ap = new 0x2000 2 4 false

abbrev stray : PerCpu
stray = new 0x3000 256 9 false

bsp-IsNew : IsNew empty 0x1000 bsp
unfolding new
bsp-IsNew = record {
  in_range = omega arith;
  nonnull = omega arith;
  self = refl;
  fresh = refl;
  unlisted = λ i. omega arith;
  room = omega arith;
}

bsp-free : get_cpu empty bsp.cpu_index ≡ none
unfolding get_cpu new
bsp-free = refl

abbrev one_cpu : Registry
one_cpu = add_entry empty 0 0x1000 bsp

one_cpu-IsValid : IsValid one_cpu
one_cpu-IsValid = (register-IsValid empty 0 0x1000 bsp empty-IsValid bsp-IsNew bsp-free).0

ap-IsNew : IsNew one_cpu 0x2000 ap
unfolding new
ap-IsNew = record {
  in_range = omega arith;
  nonnull = omega arith;
  self = refl;
  fresh = refl;
  unlisted = λ i. ground arith;
  room = omega arith;
}

abbrev two_cpus : Registry
two_cpus = add_entry one_cpu 1 0x2000 ap

register-get_example :
    (register_percpu one_cpu 1 0x2000 ap ≡ some two_cpus)
    × (get_cpu two_cpus ap.cpu_index ≡ some ap)
    × (get_current_cpu two_cpus 1 ≡ some ap)
    × ((i : ℕ) → i ≢ ap.cpu_index → get_cpu two_cpus i ≡ get_cpu one_cpu i)
    × (cpu_count two_cpus ≡ cpu_count one_cpu + 1)
register-get_example = register-get one_cpu 1 0x2000 ap ap-IsNew
