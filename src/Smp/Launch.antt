-- ===== src/Smp/Launch.antt =====
-- The boot of all application processors, and `init` as a whole.
use mathlib.Core.List.{append_assoc, append-nil}
use smp_nostd.Base.{
  ℕ, suc, ◌+◌, ◌^◌, ◌≤◌, ◌<◌, ◌≡◌, ◌∙◌, inl, inr, refl, sym, ap, ap₂, subst, Bool, true, false, not,
  List, [], ◌∷◌, ◌++◌, map, length, get_elem?, some, Profile, arith,
}
use smp_nostd.Base.Command.{⊤, Ends, Ends-bind, Ends-weaken}
use smp_nostd.Hardware.{Hardware}
use smp_nostd.LocalApic.Device.{IsApic}
use smp_nostd.LocalApic.Sending.{Addressable}
use smp_nostd.Trampoline.{Memory, set_ap_data, is_ap_ready, install}
use smp_nostd.Smp.{MadtLocalApic, SmpController}
use smp_nostd.Smp.World.{Machine}
use smp_nostd.Smp.Boot.{ap_stack_size, boot_ap, boot_loop, boot_aps}
use smp_nostd.Smp.Start.{startup_messages, counted, Booted, boot_ap-Booted}

-- The messages to all processors, where `again` tells which got a second STARTUP.
pub launch_messages : List MadtLocalApic → (again : List Bool) → List (ℕ × ℕ)
launch_messages [] again = []
launch_messages (la ∷ las) [] = []
launch_messages (la ∷ las) (second ∷ again) =
    startup_messages la.apic_id second ++ launch_messages las again

module _ {Dev : Type 0} {hw : Hardware Dev} (c : SmpController) (dev : IsApic hw c.local_apic) where
  -- The processors have been sent their messages in order, and those that signalled have been counted.
  pub record Launched (n : ℕ) (las : List MadtLocalApic) (m : Machine Dev) (c' : SmpController)
      (m' : Machine Dev) : Type 0 where
    pub again : List Bool
    pub all : length again ≡ length las
    pub log : dev.sent m'.dev ≡ dev.sent m.dev ++ launch_messages las again
    pub total : ℕ
    pub controller : c' ≡ counted c total
    pub at_least : n ≤ total
    pub at_most : total ≤ n + length las

module _ {Dev : Type 0} (hw : Hardware Dev) (p : Profile) (rounds : ℕ)
    (others : Machine Dev → Machine Dev) (cr3 entry : ℕ) (stacks : ℕ → ℕ) (c : SmpController)
    (fits : c.local_apic.base_addr + 0x1000 ≤ 2 ^ 64) (dev : IsApic hw c.local_apic)
    (quiet : (m : Machine Dev) → dev.sent (others m).dev ≡ dev.sent m.dev) (R : Memory → Type 0)
    (keeps : (m : Machine Dev) → R m.memory → R (others m).memory)
    (sets : (stack_top cpu_index : ℕ) (memory : Memory)
      → R (set_ap_data c.trampoline cr3 stack_top entry cpu_index memory))
    (long : dev.patience < rounds) (spaced : (i : ℕ) → stacks i + ap_stack_size < 2 ^ 64) where
  -- `R` tells that no processor has signalled.
  abbrev pub Silent : Type 0
  Silent = (memory : Memory) → R memory → is_ap_ready c.trampoline memory ≡ false

  -- If `R` excludes a signal, none has been counted and every second STARTUP has been sent.
  abbrev pub LaunchedBy :
      (n : ℕ) → List MadtLocalApic → Machine Dev → SmpController → Machine Dev → Type 0
  LaunchedBy n las m c' m' =
      (r : Launched c dev n las m c' m') × (Silent
        → (r.total ≡ n) × (r.again ≡ map (λ _. true) las))

  -- What one boot adds to the count.
  record OneMore (n apic_id : ℕ) (m : Machine Dev) (c1 : SmpController) (m1 : Machine Dev)
      : Type 0 where
    count : ℕ
    controller : c1 ≡ counted c count
    lower : n ≤ count
    upper : count ≤ n + 1
    second : Bool
    log : dev.sent m1.dev ≡ dev.sent m.dev ++ startup_messages apic_id second
    silent : Silent → (count ≡ n) × (second ≡ true)

  Booted-OneMore :
      (n apic_id : ℕ) (m : Machine Dev) (c1 : SmpController) (m1 : Machine Dev)
      → n + 1 < 2 ^ 32
      → Booted hw p rounds others cr3 entry stacks c fits dev quiet R keeps sets n apic_id m c1 m1
      → OneMore n apic_id m c1 m1
  Booted-OneMore n apic_id m c1 m1 few b = elim b.total [
    | inl same ↦ record {
      count = n;
      controller = same;
      lower = omega arith;
      upper = omega arith;
      second = not (is_ap_ready c.trampoline b.seen);
      log = b.log;
      silent = λ s. (refl, ap not (s b.seen b.seen_kept));
    }
    | inr (ready, more) ↦ record {
      count = n + 1;
      controller = more ∙ ap (counted c) (omega arith);
      lower = omega arith;
      upper = omega arith;
      second = not (is_ap_ready c.trampoline b.seen);
      log = b.log;
      silent = λ s. absurd (ground (arith, s m1.memory b.kept));
    }
  ]

  boot_loop-LaunchedBy :
      (las : List MadtLocalApic) (n i : ℕ) (m : Machine Dev)
      → ((j : ℕ) (la : MadtLocalApic)
          → get_elem? las j ≡ some la
          → Addressable hw p c.local_apic fits dev la.apic_id)
      → n + length las < 2 ^ 32
      → Ends
          (boot_loop hw p rounds others cr3 entry stacks (counted c n) i las m)
          (λ c' m'. LaunchedBy n las m c' m')
  unfolding boot_loop launch_messages
  boot_loop-LaunchedBy [] n i m fit few = (
    record {
      again = [];
      all = refl;
      log = sym (append-nil (dev.sent m.dev));
      total = n;
      controller = refl;
      at_least = omega arith;
      at_most = omega arith;
    },
    λ s. (refl, refl),
  )
  boot_loop-LaunchedBy (la ∷ las) n i m fit few =
      let all = λ (c' : SmpController) (m' : Machine Dev). LaunchedBy n (la ∷ las) m c' m' in
      Ends-bind (boot_ap hw p rounds others cr3 entry stacks (counted c n) i la m) _
        (λ c' m'.
          Booted hw p rounds others cr3 entry stacks c fits dev quiet R keeps sets n la.apic_id m c'
            m')
        all
        (boot_ap-Booted hw p rounds others cr3 entry stacks c fits dev quiet R keeps sets n i la m
          long (fit 0 la refl) (spaced i))
        (λ c1 m1 b.
          let one = Booted-OneMore n la.apic_id m c1 m1 (omega arith) b in
          subst
            (λ (x : SmpController).
              Ends (boot_loop hw p rounds others cr3 entry stacks x (i + 1) las m1) all)
            (sym one.controller)
            (Ends-weaken
              (boot_loop hw p rounds others cr3 entry stacks (counted c one.count) (i + 1) las m1)
              (λ c' m'. LaunchedBy one.count las m1 c' m') all
              (boot_loop-LaunchedBy las one.count (i + 1) m1 (λ j. fit (suc j))
                (omega (arith, one.upper)))
              (λ c' m' (rest, silent). (
                record {
                  again = one.second ∷ rest.again;
                  all = ap suc rest.all;
                  log =
                      rest.log
                      ∙ ap (λ (l : List (ℕ × ℕ)). l ++ launch_messages las rest.again) one.log
                      ∙ append_assoc (dev.sent m.dev) (startup_messages la.apic_id one.second)
                          (launch_messages las rest.again);
                  total = rest.total;
                  controller = rest.controller;
                  at_least = omega (arith, rest.at_least, one.lower);
                  at_most = omega (arith, rest.at_most, one.upper);
                },
                λ s. (
                  (silent s).0 ∙ (one.silent s).0,
                  ap₂ (λ (b : Bool) (bs : List Bool). b ∷ bs) (one.silent s).1 (silent s).1,
                ),
              ))))

  -- `boot_aps` in general.
  pub boot_aps-LaunchedBy :
      (las : List MadtLocalApic) (m : Machine Dev)
      → ((j : ℕ) (la : MadtLocalApic)
          → get_elem? las j ≡ some la
          → Addressable hw p c.local_apic fits dev la.apic_id)
      → c.total_cores + length las < 2 ^ 32
      → Ends
          (boot_aps hw p rounds others cr3 entry stacks c las m)
          (λ c' m'. LaunchedBy c.total_cores las m c' m')
  unfolding boot_aps boot_loop
  boot_aps-LaunchedBy [] m fit few = boot_loop-LaunchedBy [] c.total_cores 0 m fit few
  boot_aps-LaunchedBy (la ∷ las) m fit few =
      let m1 : Machine Dev = record m { memory = install c.trampoline m.memory } in
      Ends-weaken (boot_loop hw p rounds others cr3 entry stacks c 0 (la ∷ las) m1)
        (λ c' m'. LaunchedBy c.total_cores (la ∷ las) m1 c' m')
        (λ c' m'. LaunchedBy c.total_cores (la ∷ las) m c' m')
        (boot_loop-LaunchedBy (la ∷ las) c.total_cores 0 m1 fit few)
        (λ c' m' (r, silent). (
          record {
            again = r.again;
            all = r.all;
            log = r.log;
            total = r.total;
            controller = r.controller;
            at_least = r.at_least;
            at_most = r.at_most;
          },
          silent,
        ))

module _ {Dev : Type 0} (hw : Hardware Dev) (p : Profile) (rounds : ℕ)
    (others : Machine Dev → Machine Dev) (cr3 entry : ℕ) (stacks : ℕ → ℕ) (c : SmpController)
    (fits : c.local_apic.base_addr + 0x1000 ≤ 2 ^ 64) (dev : IsApic hw c.local_apic) where
  -- Whatever the other processors do between two steps, as long as they leave the log of this APIC
  -- alone: `boot_aps` returns for processors that can be addressed, when no stack reaches the top of
  -- memory, the count of cores cannot overflow, and the loop on the command register may poll more often
  -- than an interrupt can stay pending. It has sent each processor, in order, INIT, STARTUP for page 8
  -- and perhaps a second STARTUP, has counted at most one core for each, and changed nothing else of
  -- the controller.
  pub boot_aps-Launched :
      (las : List MadtLocalApic) (m : Machine Dev)
      → ((m : Machine Dev) → dev.sent (others m).dev ≡ dev.sent m.dev)
      → dev.patience < rounds
      → ((i : ℕ) → stacks i + ap_stack_size < 2 ^ 64)
      → ((j : ℕ) (la : MadtLocalApic)
          → get_elem? las j ≡ some la
          → Addressable hw p c.local_apic fits dev la.apic_id)
      → c.total_cores + length las < 2 ^ 32
      → Ends
          (boot_aps hw p rounds others cr3 entry stacks c las m)
          (λ c' m'. Launched c dev c.total_cores las m c' m')
  boot_aps-Launched las m quiet long spaced fit few =
      let Any = λ (memory : Memory). ⊤ in
      Ends-weaken (boot_aps hw p rounds others cr3 entry stacks c las m)
        (λ c' m'.
          LaunchedBy hw p rounds others cr3 entry stacks c fits dev quiet Any (λ m h. h)
            (λ s i memory. tt) long spaced c.total_cores las m c' m')
        (λ c' m'. Launched c dev c.total_cores las m c' m')
        (boot_aps-LaunchedBy hw p rounds others cr3 entry stacks c fits dev quiet Any (λ m h. h)
          (λ s i memory. tt) long spaced las m fit few)
        (λ c' m' r. r.0)
