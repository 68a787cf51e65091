-- ===== src/Trampoline/Startup/Overwritten.antt =====
-- src/trampoline.rs: the bytes of the GDT descriptor and the GDT, where the 64-bit code was, as instructions.
use smp_nostd.Base.{ℕ, ◌%◌, ◌^◌, ◌<◌, ◌≡◌, ◌∙◌, refl, Bool, true, false, Option, some, [], ◌∷◌}
use smp_nostd.Trampoline.{Memory, install, set_ap_data, store_word, copy, zero_bytes}
use smp_nostd.Trampoline.Machine.{Core, paging, go, stop, fault, translate}
use smp_nostd.Trampoline.Instructions.{exec}
use smp_nostd.Trampoline.Startup.{identity_in_page, in_long_mode}
use smp_nostd.Trampoline.Startup.Faulting.{run-go, run-stop, add-step}
use smp_nostd.Trampoline.Decode.{
  encodings, after_opcode, word_of, decode_one, decode, window, execute, step, run,
}

module _ (paged : (value address : ℕ) → Option ℕ) (pml4_addr stack_top entry_point cpu_index : ℕ)
    (m : Memory) where
  -- In long mode, at an address of the page.
  abbrev at : (caches_off : Bool) → (value rip : ℕ) → Core
  at caches_off value rip =
      record (in_long_mode paged pml4_addr stack_top entry_point cpu_index m caches_off value) {
        rip = rip;
      }

  pub on : (off : Bool) (value rip : ℕ) → paging (at off value rip) ≡ true
  on true value rip = refl
  on false value rip = refl

  pub al : (off : Bool) (value rip : ℕ) → (at off value rip).rax % 2 ^ 8 ≡ 0
  al true value rip = refl
  al false value rip = refl

  pub bytes_84 :
      (off : Bool) (value : ℕ)
      → window 11 0x8084 (at off value 0x8084)
        ≡ 0 ∷ 0 ∷ 0x3C ∷ 0x25 ∷ 0 ∷ 0 ∷ 0 ∷ 0 ∷ 0 ∷ 0 ∷ 0 ∷ []
  unfolding window translate install set_ap_data copy zero_bytes store_word identity_in_page
  bytes_84 true value = refl
  bytes_84 false value = refl

  bytes_88 :
      (off : Bool) (value : ℕ)
      → window 11 0x8088 (at off value 0x8088)
        ≡ 0 ∷ 0 ∷ 0 ∷ 0 ∷ 0 ∷ 0 ∷ 0 ∷ 0 ∷ 0xFF ∷ 0xFF ∷ 0 ∷ []
  unfolding window translate install set_ap_data copy zero_bytes store_word identity_in_page
  bytes_88 true value = refl
  bytes_88 false value = refl

  bytes_8a :
      (off : Bool) (value : ℕ)
      → window 11 0x808a (at off value 0x808a)
        ≡ 0 ∷ 0 ∷ 0 ∷ 0 ∷ 0 ∷ 0 ∷ 0xFF ∷ 0xFF ∷ 0 ∷ 0 ∷ 0 ∷ []
  unfolding window translate install set_ap_data copy zero_bytes store_word identity_in_page
  bytes_8a true value = refl
  bytes_8a false value = refl

  bytes_8c :
      (off : Bool) (value : ℕ)
      → window 11 0x808c (at off value 0x808c)
        ≡ 0 ∷ 0 ∷ 0 ∷ 0 ∷ 0xFF ∷ 0xFF ∷ 0 ∷ 0 ∷ 0 ∷ 0x9A ∷ 0xCF ∷ []
  unfolding window translate install set_ap_data copy zero_bytes store_word identity_in_page
  bytes_8c true value = refl
  bytes_8c false value = refl

  bytes_8e :
      (off : Bool) (value : ℕ)
      → window 11 0x808e (at off value 0x808e)
        ≡ 0 ∷ 0 ∷ 0xFF ∷ 0xFF ∷ 0 ∷ 0 ∷ 0 ∷ 0x9A ∷ 0xCF ∷ 0 ∷ 0xFF ∷ []
  unfolding window translate install set_ap_data copy zero_bytes store_word identity_in_page
  bytes_8e true value = refl
  bytes_8e false value = refl

  step-cmp : (off : Bool) (value : ℕ) → step paged (at off value 0x8086) ≡ go (at off value 0x8088)
  unfolding step execute window encodings after_opcode word_of decode_one decode exec translate
      install set_ap_data copy zero_bytes store_word identity_in_page
  step-cmp true value = refl
  step-cmp false value = refl

  step-undefined :
      (off : Bool) (value : ℕ) → step paged (at off value 0x8090) ≡ stop fault (at off value 0x8090)
  unfolding step execute window encodings after_opcode word_of decode_one decode exec translate
      install set_ap_data copy zero_bytes store_word identity_in_page
  step-undefined true value = refl
  step-undefined false value = refl

  -- With a page at RAX, the zeros run through to an undefined instruction.
  pub run-undefined :
      (off : Bool) (value b : ℕ)
      → (at off value 0).tables (at off value 0).rax ≡ some b
      → (at off value 0).memory b < 256
      → run paged 7 (at off value 0x8084) ≡ stop fault (at off value 0x8090)
  run-undefined off value b there small =
      let c = λ (rip : ℕ). at off value rip in
      run-go paged 6 (c 0x8084) (c 0x8086) (
        add-step paged (c 0x8084) (0x3C ∷ 0x25 ∷ 0 ∷ 0 ∷ 0 ∷ 0 ∷ 0 ∷ 0 ∷ 0 ∷ [])
          (on off value 0x8084) (bytes_84 off value) (al off value 0x8084) b there small)
      ∙ run-go paged 5 (c 0x8086) (c 0x8088) (step-cmp off value)
      ∙ run-go paged 4 (c 0x8088) (c 0x808A) (
          add-step paged (c 0x8088) (0 ∷ 0 ∷ 0 ∷ 0 ∷ 0 ∷ 0 ∷ 0xFF ∷ 0xFF ∷ 0 ∷ [])
            (on off value 0x8088) (bytes_88 off value) (al off value 0x8088) b there small)
      ∙ run-go paged 3 (c 0x808A) (c 0x808C) (
          add-step paged (c 0x808A) (0 ∷ 0 ∷ 0 ∷ 0 ∷ 0xFF ∷ 0xFF ∷ 0 ∷ 0 ∷ 0 ∷ [])
            (on off value 0x808A) (bytes_8a off value) (al off value 0x808A) b there small)
      ∙ run-go paged 2 (c 0x808C) (c 0x808E) (
          add-step paged (c 0x808C) (0 ∷ 0 ∷ 0xFF ∷ 0xFF ∷ 0 ∷ 0 ∷ 0 ∷ 0x9A ∷ 0xCF ∷ [])
            (on off value 0x808C) (bytes_8c off value) (al off value 0x808C) b there small)
      ∙ run-go paged 1 (c 0x808E) (c 0x8090) (
          add-step paged (c 0x808E) (0xFF ∷ 0xFF ∷ 0 ∷ 0 ∷ 0 ∷ 0x9A ∷ 0xCF ∷ 0 ∷ 0xFF ∷ [])
            (on off value 0x808E) (bytes_8e off value) (al off value 0x808E) b there small)
      ∙ run-stop paged 0 (c 0x8090) (c 0x8090) fault (step-undefined off value)
