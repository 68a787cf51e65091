-- ===== src/Smp/Silence.antt =====
-- What the boot comes to when the other processors run the trampoline's code; and the wait for them,
-- against the one of src/trampoline.rs.
use smp_nostd.Base.{
  ℕ, zero, suc, ◌+◌, ◌^◌, ◌≤◌, ◌<◌, ◌≡◌, ◌∙◌, ◌⊎◌, inl, inr, refl, sym, ap, subst, Bool, Bool-cases,
  true, false, List, ◌++◌, map, length, get_elem?, some, if◌then◌else◌, Profile, arith,
}
use smp_nostd.Base.Command.{Ends, Ends-weaken}
use smp_nostd.Hardware.{Hardware}
use smp_nostd.LocalApic.Device.{IsApic}
use smp_nostd.LocalApic.Sending.{Addressable}
use smp_nostd.Trampoline.{
  Memory, ApTrampoline, trampoline_phys, is_ap_ready, store_word, wait_from, wait_ap_ready,
}
use smp_nostd.Trampoline.Layout.{set_ap_data-unready}
use smp_nostd.Trampoline.Handshake.{signal_address, is_ap_ready-signal}
use smp_nostd.Smp.{MadtLocalApic, SmpController}
use smp_nostd.Smp.World.{Machine, turns, wait_ready}
use smp_nostd.Smp.Boot.{ap_stack_size, boot_aps}
use smp_nostd.Smp.Launch.{LaunchedBy, launch_messages, boot_aps-LaunchedBy}

-- A turn leaves the word that `is_ap_ready` reads as it is, or does the store of the trampoline's code,
-- of any value.
abbrev pub RunsCode : {Dev : Type 0} → ApTrampoline → (m m' : Machine Dev) → Type 0
RunsCode t m m' =
    (is_ap_ready t m'.memory ≡ is_ap_ready t m.memory)
    ⊎ ((v : ℕ) × (v < 2 ^ 32) × (m'.memory ≡ store_word 4 signal_address v m.memory))

abbrev at_page : ApTrampoline
at_page = record { trampoline_vaddr = trampoline_phys }

pub RunsCode-unready :
    {Dev : Type 0} (t : ApTrampoline) (m m' : Machine Dev)
    → t ≡ at_page
    → RunsCode t m m'
    → is_ap_ready t m.memory ≡ false
    → is_ap_ready t m'.memory ≡ false
RunsCode-unready t m m' placed (inl same) h = same ∙ h
RunsCode-unready t m m' placed (inr (v, small, stored)) h =
    ap (is_ap_ready t) stored
    ∙ subst
        (λ (x : ApTrampoline).
          is_ap_ready x (store_word 4 signal_address v m.memory) ≡ is_ap_ready x m.memory)
        (sym placed) (is_ap_ready-signal v m.memory small).0
    ∙ h

module _ {Dev : Type 0} (hw : Hardware Dev) (p : Profile) (rounds : ℕ)
    (others : Machine Dev → Machine Dev) (cr3 entry : ℕ) (stacks : ℕ → ℕ) (c : SmpController)
    (fits : c.local_apic.base_addr + 0x1000 ≤ 2 ^ 64) (dev : IsApic hw c.local_apic) where
  -- With the trampoline at its identity-mapped page and other processors that signal as its code does,
  -- or not at all, `boot_aps` returns without having counted any: it has sent every processor the second
  -- STARTUP and leaves the controller as it was, whatever the other processors do besides.
  pub boot_aps-uncounted :
      (las : List MadtLocalApic) (m : Machine Dev)
      → ((m : Machine Dev) → dev.sent (others m).dev ≡ dev.sent m.dev)
      → ((m : Machine Dev) → RunsCode c.trampoline m (others m))
      → c.trampoline ≡ record { trampoline_vaddr = trampoline_phys }
      → dev.patience < rounds
      → ((i : ℕ) → stacks i + ap_stack_size < 2 ^ 64)
      → ((j : ℕ) (la : MadtLocalApic)
          → get_elem? las j ≡ some la
          → Addressable hw p c.local_apic fits dev la.apic_id)
      → c.total_cores + length las < 2 ^ 32
      → Ends (boot_aps hw p rounds others cr3 entry stacks c las m) (λ c' m'.
        (c' ≡ c) × (dev.sent m'.dev ≡ dev.sent m.dev ++ launch_messages las (map (λ _. true) las)))
  boot_aps-uncounted las m quiet code placed long spaced fit few =
      let Unready = λ (memory : Memory). is_ap_ready c.trampoline memory ≡ false in
      let keeps = λ (m : Machine Dev). RunsCode-unready c.trampoline m (others m) placed (code m) in
      let sets = λ (stack_top cpu_index : ℕ) (memory : Memory).
        set_ap_data-unready c.trampoline cr3 stack_top entry cpu_index memory in
      Ends-weaken (boot_aps hw p rounds others cr3 entry stacks c las m)
        (λ c' m'.
          LaunchedBy hw p rounds others cr3 entry stacks c fits dev quiet Unready keeps sets long
            spaced c.total_cores las m c' m')
        (λ c' m'.
          (c' ≡ c)
          × (dev.sent m'.dev ≡ dev.sent m.dev ++ launch_messages las (map (λ _. true) las)))
        (boot_aps-LaunchedBy hw p rounds others cr3 entry stacks c fits dev quiet Unready keeps sets
          long spaced las m fit few)
        (λ c' m' (r, silent).
          let (none_more, all_again) = silent (λ memory h. h) in
          (
            r.controller ∙ ap (λ (n : ℕ). record c { total_cores = n }) none_more,
            r.log
                ∙ ap (λ (again : List Bool). dev.sent m.dev ++ launch_messages las again) all_again,
          ))

wait_from-shift :
    (t : ApTrampoline) (n i : ℕ) (seen : ℕ → Memory)
    → wait_from t n (i + 1) seen ≡ wait_from t n i (λ j. seen (suc j))
unfolding wait_from
wait_from-shift t zero i seen = refl
wait_from-shift t (suc n) i seen =
    ap (λ (rest : Bool). if is_ap_ready t (seen (i + 1)) then true else rest)
      (wait_from-shift t n (i + 1) seen)
    ∙ ap
        (λ (k : ℕ).
          if is_ap_ready t (seen k) then true else wait_from t n (i + 1) (λ j. seen (suc j)))
        next
  where
    next : i + 1 ≡ suc i
    next = omega arith

wait_ready-wait_from :
    {Dev : Type 0} (others : Machine Dev → Machine Dev) (t : ApTrampoline) (n : ℕ) (m : Machine Dev)
    → Ends (wait_ready others t n m) (λ b _. b ≡ wait_from t n 0 (λ i. (turns others i m).memory))
unfolding wait_ready wait_from turns
wait_ready-wait_from others t zero m = refl
wait_ready-wait_from others t (suc n) m = elim (Bool-cases (is_ap_ready t m.memory)) [
  | inl ready ↦ rw (ready, wait_from) refl
  | inr busy ↦
      rw (busy, wait_from)
        (Ends-weaken (wait_ready others t n (others m))
          (λ b _. b ≡ wait_from t n 0 (λ i. (turns others i (others m)).memory))
          (λ b _. b ≡ wait_from t n (0 + 1) (λ i. (turns others i m).memory))
          (wait_ready-wait_from others t n (others m))
          (λ b _ h. h ∙ sym (wait_from-shift t n 0 (λ i. (turns others i m).memory))))
]

-- The wait of `boot_ap` ends after at most `max_iterations` loads, whatever the other processors do, with
-- what `wait_ap_ready` gives for the memories that their turns leave.
pub wait_ready-wait_ap_ready :
    {Dev : Type 0} (others : Machine Dev → Machine Dev) (t : ApTrampoline) (max_iterations : ℕ)
    (m : Machine Dev)
    → Ends
        (wait_ready others t max_iterations m)
        (λ b _. b ≡ wait_ap_ready t max_iterations (λ i. (turns others i m).memory))
unfolding wait_ap_ready
wait_ready-wait_ap_ready others t n m = wait_ready-wait_from others t n m
