-- ===== src/Smp/Boot.antt =====
-- src/driver.rs: `init`, the boot of the application processors, and `ap_entry` up to its idle loop.
use smp_nostd.Base.{
  ℕ, ◌+◌, ◌*◌, ◌^◌, ◌&&◌, not, Bool, true, false, some, List, [], ◌∷◌, bit_and, bit_or, length,
  ◌==◌, if◌then◌else◌, u32, Profile, add_word,
}
use smp_nostd.Base.Command.{Cmd, ⊤, pure, gets, modify, or_panic, ◌>>=◌, ◌>>◌}
use smp_nostd.Hardware.{Hardware}
use smp_nostd.LocalApic.{
  LocalApic, id, enable, version, write_tpr, write_dfr, read_ldr, write_ldr, new as new_apic,
}
use smp_nostd.LocalApic.Registers.{lvt_masked}
use smp_nostd.LocalApic.Vectors.{
  write_lvt_lint0, write_lvt_lint1, write_lvt_error, write_lvt_timer, write_lvt_perf,
  write_lvt_thermal,
}
use smp_nostd.LocalApic.Ipi.{send_init_ipi, send_startup_ipi}
use smp_nostd.IoApic.{IoApic, mask_all, add, new as new_ioapic}
use smp_nostd.PerCpu.{register_percpu, new as new_percpu}
use smp_nostd.Scheduler.{new as new_scheduler}
use smp_nostd.Task.{align_stack}
use smp_nostd.Trampoline.{trampoline_page, install, set_ap_data, is_ap_ready}
use smp_nostd.Smp.{MadtLocalApic, MadtIoApic, MadtInfo, SmpController, num_cores}
use smp_nostd.Smp.World.{Machine, on_dev, returning, changing, spin_delay, wait_ready}

abbrev pub ap_stack_size : ℕ
ap_stack_size = 256 * 1024

-- `madt_info.local_apics.iter().filter(...)`
unfoldable pub enabled_aps : (bsp_apic_id : ℕ) → List MadtLocalApic → List MadtLocalApic
enabled_aps bsp [] = []
enabled_aps bsp (la ∷ las) =
    let rest = enabled_aps bsp las in
    if la.enabled && not (la.apic_id == bsp) then la ∷ rest else rest

module _ {Dev : Type 0} (hw : Hardware Dev) (p : Profile) where
  -- The registration of a processor.
  unfoldable pub register : (here ptr cpu_index apic_id : ℕ) → Bool → Cmd (Machine Dev) ⊤
  register here ptr cpu_index apic_id is_bsp = do
    registry ← gets (λ m. m.registry)
    registry' ←
        or_panic (register_percpu registry here ptr (new_percpu ptr cpu_index apic_id is_bsp))
    modify (λ m. record m { registry = registry' })

  -- `ap_entry` on the processor `here`, up to its idle loop.
  unfoldable pub ap_entry : (here ptr cpu_index : ℕ) → Cmd (Machine Dev) ⊤
  unfolding register
  ap_entry here ptr cpu_index = do
    let apic = new_apic 0xFEE00000
    apic_id ← on_dev (id hw p apic)
    on_dev (enable hw p apic)
    on_dev (write_tpr hw p apic 0)
    register here ptr (u32 cpu_index) apic_id false
    modify (λ m. record m { aps_booted = u32 (m.aps_booted + 1) })

  unfoldable pub init_bsp_apic : LocalApic → Cmd Dev ⊤
  init_bsp_apic a = do
    enable hw p a
    write_tpr hw p a 0
    write_dfr hw p a 0xFFFFFFFF
    ldr ← read_ldr hw p a
    write_ldr hw p a (bit_or (bit_and ldr 0x00FFFFFF) (2 ^ 24))
    write_lvt_lint0 hw p a lvt_masked
    write_lvt_lint1 hw p a lvt_masked
    write_lvt_error hw p a lvt_masked
    write_lvt_timer hw p a lvt_masked
    write_lvt_perf hw p a lvt_masked
    write_lvt_thermal hw p a lvt_masked
    version hw p a
    pure tt

  unfoldable pub init_io_apics : List IoApic → List MadtIoApic → Cmd Dev (List IoApic)
  init_io_apics manager [] = pure manager
  init_io_apics manager (info ∷ infos) = do
    ioapic ← (λ d. returning (new_ioapic hw.bus p info.address info.gsi_base d))
    (λ d. changing (mask_all hw.bus p ioapic d))
    init_io_apics (add manager ioapic) infos

  -- The boot of the processors while `others` do their part. `cr3` is the register's value, `entry` the
  -- address of `ap_entry`, `stacks i` the address of the stack that is allocated for processor `i`.
  module _ (rounds : ℕ) (others : Machine Dev → Machine Dev) (cr3 entry : ℕ) (stacks : ℕ → ℕ) where
    -- `if !self.trampoline.is_ap_ready()`: a second STARTUP and another delay.
    unfoldable pub second_startup : SmpController → (apic_id : ℕ) → Bool → Cmd (Machine Dev) ⊤
    second_startup c apic_id true = pure tt
    second_startup c apic_id false = do
      on_dev (send_startup_ipi hw p rounds c.local_apic apic_id trampoline_page)
      spin_delay others 200000

    -- The body of the loop of `boot_aps`.
    unfoldable pub boot_ap :
        SmpController → (i : ℕ) → MadtLocalApic → Cmd (Machine Dev) SmpController
    unfolding second_startup
    boot_ap c i ap = do
      stack_top ← or_panic (add_word p 64 (stacks i) ap_stack_size)
      modify (λ m. record m {
        memory = set_ap_data c.trampoline cr3 (align_stack stack_top) entry (u32 (i + 1)) m.memory;
      })
      on_dev (send_init_ipi hw p rounds c.local_apic ap.apic_id)
      spin_delay others 10000000
      on_dev (send_startup_ipi hw p rounds c.local_apic ap.apic_id trampoline_page)
      spin_delay others 200000
      ready ← gets (λ m. is_ap_ready c.trampoline m.memory)
      second_startup c ap.apic_id ready
      booted ← wait_ready others c.trampoline 100000000
      pure (if booted then record c { total_cores = u32 (c.total_cores + 1) } else c)

    unfoldable pub boot_loop :
        SmpController → (i : ℕ) → List MadtLocalApic → Cmd (Machine Dev) SmpController
    boot_loop c i [] = pure c
    boot_loop c i (ap ∷ aps) = do c' ← boot_ap c i ap; boot_loop c' (i + 1) aps

    unfoldable pub boot_aps : SmpController → List MadtLocalApic → Cmd (Machine Dev) SmpController
    unfolding boot_loop
    boot_aps c [] = pure c
    boot_aps c (ap ∷ aps) = do
      modify (λ m. record m { memory = install c.trampoline m.memory })
      boot_loop c 0 (ap ∷ aps)

    -- `init` on the processor `here`, with the allocator's address for its per-CPU structure.
    unfoldable pub init :
        (here ptr : ℕ) → SmpController → MadtInfo → Cmd (Machine Dev) SmpController
    unfolding boot_aps register
    init here ptr c madt_info = do
      let aps = enabled_aps c.bsp_apic_id madt_info.local_apics
      let c1 = record c { ap_count = u32 (length aps) }
      on_dev (init_bsp_apic c1.local_apic)
      manager ← on_dev (init_io_apics c1.ioapic_manager madt_info.io_apics)
      register here ptr 0 c1.bsp_apic_id true
      c2 ← boot_aps (record c1 { ioapic_manager = manager }) aps
      pure (record c2 {
        scheduler = some (new_scheduler (num_cores c2));
        madt_info = some madt_info;
        initialized = true;
      })
