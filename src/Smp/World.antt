-- ===== src/Smp/World.antt =====
-- The machine as src/driver.rs sees it: the devices, the per-CPU table, the memory of the trampoline,
-- and the static variables; and what the other processors do meanwhile.
use smp_nostd.Base.{ℕ, zero, suc, Bool, true, false, Option, none, some, if◌then◌else◌}
use smp_nostd.Base.Command.{Outcome, done, panicked, spinning, Cmd, ⊤, Ends, and_then}
use smp_nostd.PerCpu.{Registry}
use smp_nostd.Trampoline.{Memory, ApTrampoline, is_ap_ready}

pub record Machine (Dev : Type 0) : Type 0 where
  pub dev : Dev
  pub registry : Registry
  pub memory : Memory
  pub next_task_id : ℕ
  pub ap_halt : Bool
  pub aps_booted : ℕ

module _ {Dev : Type 0} where
  abbrev pub with_dev : {A : Type 0} → Machine Dev → Outcome Dev A → Outcome (Machine Dev) A
  with_dev m (done a d) = done a (record m { dev = d })
  with_dev m panicked = panicked
  with_dev m spinning = spinning

  -- A command of a driver, in the machine.
  abbrev pub on_dev : {A : Type 0} → Cmd Dev A → Cmd (Machine Dev) A
  on_dev c m = with_dev m (c m.dev)

  pub Ends-on_dev :
      {A : Type 0} (c : Cmd Dev A) (m : Machine Dev) (P : A → Dev → Type 0)
      (Q : A → Machine Dev → Type 0)
      → Ends (c m.dev) P
      → ((a : A) (d : Dev) → P a d → Q a (record m { dev = d }))
      → Ends (on_dev c m) Q
  Ends-on_dev {A} c m P Q h k = outcome (c m.dev) h
    where
      outcome : (r : Outcome Dev A) → Ends r P → Ends (with_dev m r) Q
      outcome (done a d) h = k a d h
      outcome panicked h = absurd h
      outcome spinning h = absurd h

  -- A command of a driver, and what follows it in the machine.
  pub then_dev :
      {A B : Type 0} (Q : B → Machine Dev → Type 0) (c : Cmd Dev A) (f : A → Cmd (Machine Dev) B)
      (m : Machine Dev) (P : A → Dev → Type 0)
      → Ends (c m.dev) P
      → ((a : A) (d : Dev) → P a d → Ends (f a (record m { dev = d })) Q)
      → Ends (and_then (on_dev c m) f) Q
  then_dev {A} Q c f m P h k = outcome (c m.dev) h
    where
      outcome : (r : Outcome Dev A) → Ends r P → Ends (and_then (with_dev m r) f) Q
      outcome (done a d) h = k a d h
      outcome panicked h = absurd h
      outcome spinning h = absurd h

  -- The I/O APIC driver's calls, where `none` is a panic.
  abbrev pub returning : {A : Type 0} → Option (A × Dev) → Outcome Dev A
  returning none = panicked
  returning (some (a, d)) = done a d

  abbrev pub changing : Option Dev → Outcome Dev ⊤
  changing none = panicked
  changing (some d) = done tt d

  -- `others m` is what the other processors have made of `m` in one turn of a loop.
  module _ (others : Machine Dev → Machine Dev) where
    unfoldable pub turns : ℕ → Machine Dev → Machine Dev
    turns zero m = m
    turns (suc n) m = turns n (others m)

    -- `spin_delay`
    unfoldable pub spin_delay : (iterations : ℕ) → Cmd (Machine Dev) ⊤
    unfolding turns
    spin_delay iterations m = done tt (turns iterations m)

    -- `ApTrampoline::wait_ap_ready` while the others go on.
    unfoldable pub wait_ready : ApTrampoline → (max_iterations : ℕ) → Cmd (Machine Dev) Bool
    wait_ready t zero m = done false m
    wait_ready t (suc n) m =
        let rest = wait_ready t n (others m) in if is_ap_ready t m.memory then done true m else rest
