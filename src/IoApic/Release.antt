-- ===== src/IoApic/Release.antt =====
-- In the release profile, where arithmetic wraps, the set-up of an I/O APIC does not panic.
use smp_nostd.Base.{
  ℕ, zero, suc, ◌+◌, ◌*◌, ◌/◌, ◌%◌, ◌^◌, ◌≤◌, ◌<◌, ◌≡◌, refl, ltb, lt→ltb, Bool-cases, inl, inr,
  some, release, add_word, mul_word, bit_and, u8, u32, arith,
}
use smp_nostd.Hardware.{Bus}
use smp_nostd.RedirectionEntry.{RedirectionEntry, masked}
use smp_nostd.IoApic.{
  IoApic, read_reg, write_reg, read_version, new, reg_base, write_redirection, mask_loop, mask_all,
}

release-add : (w a b : ℕ) → (s : ℕ) × (add_word release w a b ≡ some s)
release-add w a b = elim (Bool-cases (ltb (a + b) (2 ^ w))) [
  | inl fits ↦ (a + b, simp fits refl)
  | inr wraps ↦ ((a + b) % 2 ^ w, simp wraps refl)
]

release-mul : (w a b : ℕ) → (s : ℕ) × (mul_word release w a b ≡ some s)
release-mul w a b = elim (Bool-cases (ltb (a * b) (2 ^ w))) [
  | inl fits ↦ (a * b, simp fits refl)
  | inr wraps ↦ ((a * b) % 2 ^ w, simp wraps refl)
]

module _ {Dev : Type 0} (bus : Bus Dev) where
  read_reg-some :
      (a : IoApic) (i : ℕ) (d : Dev) → (r : ℕ × Dev) × (read_reg bus release a i d ≡ some r)
  unfolding read_reg
  read_reg-some a i d =
      let (sel, e) = release-add 64 a.base_addr 0 in
      let (win, e') = release-add 64 a.base_addr 0x10 in
      (bus.read_volatile (bus.write_volatile d sel i) win, rw (e, e') refl)

  write_reg-some :
      (a : IoApic) (i v : ℕ) (d : Dev) → (d' : Dev) × (write_reg bus release a i v d ≡ some d')
  unfolding write_reg
  write_reg-some a i v d =
      let (sel, e) = release-add 64 a.base_addr 0 in
      let (win, e') = release-add 64 a.base_addr 0x10 in
      (bus.write_volatile (bus.write_volatile d sel i) win v, rw (e, e') refl)

  write_redirection-some :
      (a : IoApic) (irq : ℕ) (entry : RedirectionEntry) (d : Dev)
      → irq < a.max_entries
      → (d' : Dev) × (write_redirection bus release a irq entry d ≡ some d')
  unfolding write_redirection reg_base
  write_redirection-some a irq entry d h =
      let (offset, e) = release-mul 8 irq 2 in
      let (base, e1) = release-add 8 0x10 offset in
      let (next, e2) = release-add 8 base 1 in
      let (d1, e3) = write_reg-some a base (u32 entry.raw) d in
      let (d2, e4) = write_reg-some a next (u32 (entry.raw / 2 ^ 32)) d1 in
      (d2, rw (lt→ltb irq a.max_entries h, e, e1, e3, e2, e4) refl)

  mask_loop-some :
      (a : IoApic) (n i : ℕ) (d : Dev)
      → i + n ≤ a.max_entries
      → (d' : Dev) × (mask_loop bus release a n i d ≡ some d')
  unfolding mask_loop
  mask_loop-some a zero i d h = (d, refl)
  mask_loop-some a (suc n) i d h =
      let (d1, e) = write_redirection-some a i masked d (omega arith) in
      let (d2, e') = mask_loop-some a n (i + 1) d1 (omega arith) in (d2, rw (mask_loop, e) e')

  -- In the release profile `IoApic::new` and `mask_all` return, whatever the device does.
  pub mask_all-some : (a : IoApic) (d : Dev) → (d' : Dev) × (mask_all bus release a d ≡ some d')
  unfolding mask_all
  mask_all-some a d = mask_loop-some a a.max_entries 0 d (omega arith)

  pub new-some :
      (base gsi : ℕ) (d : Dev) → (r : IoApic × Dev) × (new bus release base gsi d ≡ some r)
  unfolding new read_version
  new-some base gsi d =
      let ioapic : IoApic = record { base_addr = base; gsi_base = gsi; max_entries = 0 } in
      let ((ver, d1), e) = read_reg-some ioapic 1 d in
      let (entries, e') = release-add 8 (u8 (bit_and (ver / 2 ^ 16) 0xFF)) 1 in
      ((record ioapic { max_entries = entries }, d1), rw (e, e') refl)
