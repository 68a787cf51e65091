-- ===== src/Trampoline/Handshake.antt =====
-- How an application processor signals that it runs, and what of its code `install` leaves.
use smp_nostd.Base.{
  ℕ, zero, suc, ◌+◌, ◌^◌, ◌≤◌, ◌<◌, ◌≡◌, ◌↔◌, refl, ap, not, true, ◌==◌, Bool-cases, inl, inr, some,
  get_elem?, ℕ_discrete, arith,
}
use smp_nostd.Trampoline.{
  trampoline_phys, trampoline_data_offset, trampoline_code, Memory, copy, store_word, load_word,
  ApTrampoline, install, is_ap_ready, wait_from, wait_ap_ready,
}
use smp_nostd.Trampoline.Offset
use smp_nostd.Trampoline.Words.{load-store_word, load-store_word_apart}
use smp_nostd.Trampoline.Layout.{install-layout}

wait_from_iff :
    (t : ApTrampoline) (n i : ℕ) (seen : ℕ → Memory)
    → (wait_from t n i seen ≡ true)
      ↔ ((j : ℕ) × (i ≤ j) × (j < i + n) × (is_ap_ready t (seen j) ≡ true))
unfolding wait_from
wait_from_iff t zero i seen = (λ e. absurd (ground arith), λ (j, lo, hi, e). absurd (omega arith))
wait_from_iff t (suc n) i seen =
    let (found, back) = wait_from_iff t n (i + 1) seen in
    elim (Bool-cases (is_ap_ready t (seen i))) [
      | inl ready ↦ (λ e. (i, omega arith, omega arith, ready), λ h. rw ready refl)
      | inr busy ↦ (
        λ e. let (j, lo, hi, r) = found (ground arith) in (j, omega arith, omega arith, r),
        λ (j, lo, hi, r). elim (ℕ_discrete i j) [
          | yes e ↦ absurd (ground (arith, ap (λ k. is_ap_ready t (seen k)) e))
          | no ne ↦ rw busy (back (j, omega arith, omega arith, r))
        ],
      )
    ]

-- `wait_ap_ready` is true exactly when one of its loads, at most `max_iterations`, finds the AP ready.
pub wait_ap_ready_iff :
    (t : ApTrampoline) (n : ℕ) (seen : ℕ → Memory)
    → (wait_ap_ready t n seen ≡ true) ↔ ((j : ℕ) × (j < n) × (is_ap_ready t (seen j) ≡ true))
unfolding wait_ap_ready
wait_ap_ready_iff t n seen =
    let (found, back) = wait_from_iff t n 0 seen in
    (
      λ e. let (j, lo, hi, r) = found e in (j, omega arith, r),
      λ (j, lt, r). back (j, omega arith, omega arith, r),
    )

-- The operand of the instruction at offset 0x79 of the code, `mov dword [...], 1`: the displacement
-- at offset 0x7C.
pub signal_address : ℕ
unfolding load_word copy
signal_address = load_word 4 0x7C (copy trampoline_code 0 (λ _. 0))

pub signal_address_lem : signal_address ≡ trampoline_phys + trampoline_data_offset + 0x18
unfolding signal_address load_word copy
signal_address_lem = refl

-- At the identity-mapped page, the store by which the trampoline code means to signal that the AP is ready
-- leaves `is_ap_ready` as it was, in any memory, and overwrites the CPU index, whatever 32-bit value it
-- stores.
pub is_ap_ready-signal :
    (v : ℕ) (m : Memory)
    → v < 2 ^ 32
    → let t : ApTrampoline = record { trampoline_vaddr = trampoline_phys } in
      (is_ap_ready t (store_word 4 signal_address v m) ≡ is_ap_ready t m)
      × (load_word 4
            (trampoline_phys + trampoline_data_offset + Offset.cpu_index)
            (store_word 4 signal_address v m)
          ≡ v)
unfolding is_ap_ready
is_ap_ready-signal v m small = rw signal_address_lem (
  ap (λ w. not (w == 0)) (load-store_word_apart 4 0x8F1C 4 0x8F18 v m (inr (omega arith))),
  load-store_word 4 0x8F18 v m small,
)

-- `install` overwrites the end of the code that it has copied: the page does not hold TRAMPOLINE_CODE.
pub install-not_code :
    (t : ApTrampoline) (m : Memory)
    → ¬ (
        (i b : ℕ) → get_elem? trampoline_code i ≡ some b → install t m (t.trampoline_vaddr + i) ≡ b)
install-not_code t m holds =
    let (code, desc, gdt, zeros, outside) = install-layout t m in
    let here : t.trampoline_vaddr + 0x80 + 0 ≡ t.trampoline_vaddr + 0x80 = omega arith in
    omega (arith, desc 0 0x27 refl, ap (install t m) here, holds 0x80 0x01 refl)
