-- ===== src/Trampoline/Startup/Outcome.antt =====
-- src/trampoline.rs: what becomes of an application processor that starts in the installed page.
use smp_nostd.Base.{
  ℕ, ◌+◌, ◌-◌, ◌%◌, ◌^◌, ◌≤◌, ◌<◌, ◌≡◌, ◌⊎◌, ◌∙◌, sym, ap, inl, inr, refl, Bool, true, false,
  Option, some, Option-cases, [], ◌∷◌, arith,
}
use smp_nostd.Trampoline.{
  Memory, trampoline_phys, install, set_ap_data, trampoline_data_phys, is_ap_ready, load_word,
  store_word,
}
use smp_nostd.Trampoline.Offset
use smp_nostd.Trampoline.Layout.{set_ap_data-unready}
use smp_nostd.Trampoline.Handshake.{signal_address_lem, is_ap_ready-signal}
use smp_nostd.Trampoline.Words.{load-store_word}
use smp_nostd.Trampoline.Machine.{code64, Core, stop, fault}
use smp_nostd.Trampoline.Startup.{
  started, at_page, prepared, with_paging, run-with_paging, low_word, identity_in_page,
  identity_in_page_lem, in_long_mode, run-in_long_mode,
}
use smp_nostd.Trampoline.Startup.Faulting.{run-stop, run-plus, go_on, add-fault}
use smp_nostd.Trampoline.Startup.Bytes.{
  AllBytes, store_word-AllBytes, install-AllBytes, set_ap_data-AllBytes,
}
use smp_nostd.Trampoline.Decode.{run}
use smp_nostd.Trampoline.Startup.Overwritten.{on, al, bytes_84, run-undefined}

-- The processor `c` has reached 64-bit code with its page tables and its stack, and has faulted in the bytes of
-- the GDT descriptor and the GDT, at an address that is not there or at an undefined instruction. The index
-- of the processor is overwritten, and `is_ap_ready` still reads false.
pub record FaultedIn64 (pml4_addr stack_top : ℕ) (c : Core) : Type 0 where
  pub size : c.size ≡ code64
  pub tables : c.cr3 ≡ pml4_addr % 2 ^ 32
  pub stack : c.rsp ≡ stack_top
  pub place : (c.rip ≡ 0x8084) ⊎ (c.rip ≡ 0x8090)
  pub index : load_word 4 (trampoline_data_phys + Offset.cpu_index) c.memory ≡ 0x80880027
  pub unready : is_ap_ready at_page c.memory ≡ false

module _ (paged : (value address : ℕ) → Option ℕ) (pml4_addr stack_top entry_point cpu_index : ℕ)
    (m : Memory) where
  abbrev value : ℕ
  value = pml4_addr % 2 ^ 32

  abbrev ending : (caches_off : Bool) → (rip : ℕ) → Core
  ending off rip =
      record (in_long_mode paged pml4_addr stack_top entry_point cpu_index m off value) {
        rip = rip;
      }

  abbrev memory : Memory
  memory = prepared pml4_addr stack_top entry_point cpu_index m

  stack_lem : stack_top < 2 ^ 64 → load_word 8 0x8F08 memory ≡ stack_top
  unfolding set_ap_data load_word store_word
  stack_lem fits = omega arith

  ending-FaultedIn64 :
      (off : Bool) (rip : ℕ)
      → stack_top < 2 ^ 64
      → (rip ≡ 0x8084) ⊎ (rip ≡ 0x8090)
      → FaultedIn64 pml4_addr stack_top (ending off rip)
  ending-FaultedIn64 off rip fits place = record {
    size = refl;
    tables = refl;
    stack = stack_lem fits;
    place = place;
    index = load-store_word 4 0x8F18 0x80880027 _ (omega arith);
    unready =
        rw (sym signal_address_lem) ((is_ap_ready-signal 0x80880027 memory (omega arith)).0)
        ∙ set_ap_data-unready at_page pml4_addr stack_top entry_point cpu_index (install at_page m);
  }

  -- In 64-bit code, with the bytes that are left of the ready store's operand stored.
  run-ending :
      (off : Bool) (n : ℕ)
      → ((address : ℕ)
          → trampoline_phys ≤ address
          → address < trampoline_phys + 4096
          → paged value address ≡ some address)
      → run paged (28 + (10 + n)) (started off memory) ≡ run paged n (ending off 0x8084)
  run-ending off n identity =
      let c = with_paging paged pml4_addr stack_top entry_point cpu_index m off in
      let same : c (load_word 4 0x8F00 memory % 2 ^ 32) ≡ record (c value) {
        tables = identity_in_page paged pml4_addr stack_top entry_point cpu_index m value;
      } =
        ap c (low_word paged pml4_addr stack_top entry_point cpu_index m)
        ∙ ap (λ (t : ℕ → Option ℕ). record (c value) { tables = t })
            (sym (
              identity_in_page_lem paged pml4_addr stack_top entry_point cpu_index m value
                identity)) in
      run-plus paged 28 (10 + n) (started off memory)
      ∙ ap (go_on paged (10 + n))
          (run-with_paging paged pml4_addr stack_top entry_point cpu_index m off)
      ∙ ap (run paged (10 + n)) same
      ∙ run-plus paged 10 n (record (c value) {
        tables = identity_in_page paged pml4_addr stack_top entry_point cpu_index m value;
      })
      ∙ ap (go_on paged n)
          (run-in_long_mode paged pml4_addr stack_top entry_point cpu_index m off value)

  memory-AllBytes : AllBytes m → AllBytes (ending true 0).memory
  memory-AllBytes each = store_word-AllBytes 4 0x8F18 0x80880027 memory (
      set_ap_data-AllBytes at_page pml4_addr stack_top entry_point cpu_index (install at_page m)
        (install-AllBytes at_page m each))

  -- From there it faults, in at most seven steps.
  run-fault :
      (off : Bool) (n : ℕ)
      → AllBytes m
      → (rip : ℕ) × ((rip ≡ 0x8084) ⊎ (rip ≡ 0x8090))
        × (run paged (7 + n) (ending off 0x8084) ≡ stop fault (ending off rip))
  run-fault off n each =
      let c = ending off 0x8084 in
      elim (Option-cases (c.tables c.rax)) [
        | inl absent ↦ (
          0x8084,
          inl refl,
          run-plus paged 7 n c
              ∙ ap (go_on paged n) (
                  run-stop paged 6 c c fault (
                    add-fault paged c (0x3C ∷ 0x25 ∷ 0 ∷ 0 ∷ 0 ∷ 0 ∷ 0 ∷ 0 ∷ 0 ∷ [])
                      (on paged pml4_addr stack_top entry_point cpu_index m off value 0x8084)
                      (bytes_84 paged pml4_addr stack_top entry_point cpu_index m off value)
                      (al paged pml4_addr stack_top entry_point cpu_index m off value 0x8084)
                      absent)),
        )
        | inr (b, there) ↦ (
          0x8090,
          inr refl,
          run-plus paged 7 n c
              ∙ ap (go_on paged n) (
                  run-undefined paged pml4_addr stack_top entry_point cpu_index m off value b there
                    (memory-AllBytes each b)),
        )
      ]

  -- A processor that starts in the page as `install` and `set_ap_data` leave it never comes to the entry point.
  -- With a memory of bytes, a stack top of 64 bits, and page tables, at the lower half of the address that was
  -- set, that leave the page where it is, it has stopped at a fault after 45 steps at the most: in 64-bit
  -- code, with the page tables at the lower half of that address and with the stack that was set, in the bytes
  -- of the GDT descriptor (at an address that is not there) or of the GDT (at an undefined instruction). It
  -- has overwritten its index, and `is_ap_ready` is false.
  pub run-FaultedIn64 :
      (caches_off : Bool) (n : ℕ)
      → AllBytes m
      → stack_top < 2 ^ 64
      → ((address : ℕ)
          → trampoline_phys ≤ address
          → address < trampoline_phys + 4096
          → paged (pml4_addr % 2 ^ 32) address ≡ some address)
      → 45 ≤ n
      → (c : Core) × (run paged n (started caches_off memory) ≡ stop fault c)
        × FaultedIn64 pml4_addr stack_top c
  run-FaultedIn64 off n each fits identity enough =
      let (rip, place, stopped) = run-fault off (n - 45) each in
      let counted : n ≡ 28 + (10 + (7 + (n - 45))) = omega arith in
      (
        ending off rip,
        ap (λ (k : ℕ). run paged k (started off memory)) counted
            ∙ run-ending off (7 + (n - 45)) identity
            ∙ stopped,
        ending-FaultedIn64 off rip fits place,
      )
