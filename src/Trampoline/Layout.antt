-- ===== src/Trampoline/Layout.antt =====
-- What the page holds after `install` and `set_ap_data`, and where the code's own accesses go.
use smp_nostd.Base.{
  ℕ, zero, suc, ◌+◌, ◌^◌, ◌≤◌, ◌<◌, ◌≡◌, ◌⊎◌, inl, inr, ◌∙◌, refl, ap, not, ◌==◌, false, List, [],
  ◌∷◌, some, length, get_elem?, get_elem?-lt, arith,
}
use smp_nostd.Trampoline.{
  trampoline_data_offset, trampoline_code, trampoline_gdt, trampoline_gdt_desc, Memory, zero_bytes,
  copy, store_word, load_word, ApTrampoline, install, set_ap_data, is_ap_ready,
}
use smp_nostd.Trampoline.Offset
use smp_nostd.Trampoline.Words.{load-store_word, load-store_word_apart, store_word-outside}

zero_bytes-inside : (m : Memory) (a n i : ℕ) → i < n → zero_bytes m a n (a + i) ≡ 0
unfolding zero_bytes
zero_bytes-inside m a zero i h = absurd (omega arith)
zero_bytes-inside m a (suc n) i h = ground (arith, zero_bytes-inside m a n i)

zero_bytes-outside : (m : Memory) (a n j : ℕ) → (j < a) ⊎ (a + n ≤ j) → zero_bytes m a n j ≡ m j
unfolding zero_bytes
zero_bytes-outside m a zero j out = refl
zero_bytes-outside m a (suc n) j (inl below) =
    ground (arith, zero_bytes-outside m a n j (inl below))
zero_bytes-outside m a (suc n) j (inr above) =
    ground (arith, zero_bytes-outside m a n j (inr (omega arith)))

copy-inside :
    (bs : List ℕ) (a : ℕ) (m : Memory) (i b : ℕ) → get_elem? bs i ≡ some b → copy bs a m (a + i) ≡ b
unfolding copy
copy-inside [] a m i b e = cc
copy-inside (x ∷ bs) a m zero b e = ground arith
copy-inside (x ∷ bs) a m (suc i) b e =
    let shifted : a + 1 + i ≡ a + suc i = omega arith in
    ground (arith, copy-inside bs (a + 1) m i b e, ap (copy bs (a + 1) m) shifted)

copy-outside :
    (bs : List ℕ) (a : ℕ) (m : Memory) (j : ℕ) → (j < a) ⊎ (a + length bs ≤ j) → copy bs a m j ≡ m j
unfolding copy
copy-outside [] a m j out = refl
copy-outside (x ∷ bs) a m j (inl below) =
    ground (arith, copy-outside bs (a + 1) m j (inl (omega arith)))
copy-outside (x ∷ bs) a m j (inr above) =
    ground (arith, copy-outside bs (a + 1) m j (inr (omega arith)))

-- The five stores, one after the other.
module _ (b v0 v1 v2 v3 : ℕ) (m : Memory) where
  abbrev after_1 : Memory
  after_1 = store_word 8 (b + 0) v0 m

  abbrev after_2 : Memory
  after_2 = store_word 8 (b + 8) v1 after_1

  abbrev after_3 : Memory
  after_3 = store_word 8 (b + 0x10) v2 after_2

  abbrev after_4 : Memory
  after_4 = store_word 4 (b + 0x18) v3 after_3

  abbrev after_5 : Memory
  after_5 = store_word 4 (b + 0x1C) 0 after_4

  first_field : v0 < 2 ^ 64 → load_word 8 (b + 0) after_5 ≡ v0
  first_field h =
      load-store_word_apart 8 (b + 0) 4 (b + 0x1C) 0 after_4 (inl (omega arith))
      ∙ load-store_word_apart 8 (b + 0) 4 (b + 0x18) v3 after_3 (inl (omega arith))
      ∙ load-store_word_apart 8 (b + 0) 8 (b + 0x10) v2 after_2 (inl (omega arith))
      ∙ load-store_word_apart 8 (b + 0) 8 (b + 8) v1 after_1 (inl (omega arith))
      ∙ load-store_word 8 (b + 0) v0 m h

  second_field : v1 < 2 ^ 64 → load_word 8 (b + 8) after_5 ≡ v1
  second_field h =
      load-store_word_apart 8 (b + 8) 4 (b + 0x1C) 0 after_4 (inl (omega arith))
      ∙ load-store_word_apart 8 (b + 8) 4 (b + 0x18) v3 after_3 (inl (omega arith))
      ∙ load-store_word_apart 8 (b + 8) 8 (b + 0x10) v2 after_2 (inl (omega arith))
      ∙ load-store_word 8 (b + 8) v1 after_1 h

  third_field : v2 < 2 ^ 64 → load_word 8 (b + 0x10) after_5 ≡ v2
  third_field h =
      load-store_word_apart 8 (b + 0x10) 4 (b + 0x1C) 0 after_4 (inl (omega arith))
      ∙ load-store_word_apart 8 (b + 0x10) 4 (b + 0x18) v3 after_3 (inl (omega arith))
      ∙ load-store_word 8 (b + 0x10) v2 after_2 h

  fourth_field : v3 < 2 ^ 32 → load_word 4 (b + 0x18) after_5 ≡ v3
  fourth_field h =
      load-store_word_apart 4 (b + 0x18) 4 (b + 0x1C) 0 after_4 (inl (omega arith))
      ∙ load-store_word 4 (b + 0x18) v3 after_3 h

  below_fields : (j : ℕ) → j < b → after_5 j ≡ m j
  below_fields j h =
      store_word-outside 4 (b + 0x1C) 0 after_4 j (inl (omega arith))
      ∙ store_word-outside 4 (b + 0x18) v3 after_3 j (inl (omega arith))
      ∙ store_word-outside 8 (b + 0x10) v2 after_2 j (inl (omega arith))
      ∙ store_word-outside 8 (b + 8) v1 after_1 j (inl (omega arith))
      ∙ store_word-outside 8 (b + 0) v0 m j (inl (omega arith))

  above_fields : (j : ℕ) → b + 32 ≤ j → after_5 j ≡ m j
  above_fields j h =
      store_word-outside 4 (b + 0x1C) 0 after_4 j (inr (omega arith))
      ∙ store_word-outside 4 (b + 0x18) v3 after_3 j (inr (omega arith))
      ∙ store_word-outside 8 (b + 0x10) v2 after_2 j (inr (omega arith))
      ∙ store_word-outside 8 (b + 8) v1 after_1 j (inr (omega arith))
      ∙ store_word-outside 8 (b + 0) v0 m j (inr (omega arith))

set_ap_data-stores :
    (t : ApTrampoline) (v0 v1 v2 v3 : ℕ) (m : Memory)
    → set_ap_data t v0 v1 v2 v3 m
      ≡ after_5 (t.trampoline_vaddr + trampoline_data_offset) v0 v1 v2 v3 m
unfolding set_ap_data
set_ap_data-stores t v0 v1 v2 v3 m = refl

is_ap_ready-load :
    (t : ApTrampoline) (m : Memory)
    → load_word 4 (t.trampoline_vaddr + trampoline_data_offset + Offset.ap_ready) m ≡ 0
    → is_ap_ready t m ≡ false
unfolding is_ap_ready
is_ap_ready-load t m e = ap (λ w. not (w == 0)) e

-- After `set_ap_data` of any values the AP is not ready.
pub set_ap_data-unready :
    (t : ApTrampoline) (v0 v1 v2 v3 : ℕ) (m : Memory)
    → is_ap_ready t (set_ap_data t v0 v1 v2 v3 m) ≡ false
set_ap_data-unready t v0 v1 v2 v3 m =
    let b = t.trampoline_vaddr + trampoline_data_offset in
    rw (set_ap_data-stores t v0 v1 v2 v3 m) (
      is_ap_ready-load t (after_5 b v0 v1 v2 v3 m)
        (load-store_word 4 (b + 0x1C) 0 (after_4 b v0 v1 v2 v3 m) (omega arith)))

-- After `set_ap_data` with values that fit their types, each field reads back at its offset, the AP
-- is not ready, and nothing outside the first 32 bytes of the data block has changed.
pub set_ap_data-fields :
    (t : ApTrampoline) (pml4_addr stack_top entry_point cpu_index : ℕ) (m : Memory)
    → pml4_addr < 2 ^ 64
    → stack_top < 2 ^ 64
    → entry_point < 2 ^ 64
    → cpu_index < 2 ^ 32
    → let block = t.trampoline_vaddr + trampoline_data_offset in
      let m' = set_ap_data t pml4_addr stack_top entry_point cpu_index m in
      (load_word 8 (block + Offset.pml4_addr) m' ≡ pml4_addr)
      × (load_word 8 (block + Offset.stack_top) m' ≡ stack_top)
      × (load_word 8 (block + Offset.entry_point) m' ≡ entry_point)
      × (load_word 4 (block + Offset.cpu_index) m' ≡ cpu_index)
      × (is_ap_ready t m' ≡ false)
      × ((j : ℕ) → (j < block) ⊎ (block + 32 ≤ j) → m' j ≡ m j)
set_ap_data-fields t v0 v1 v2 v3 m h0 h1 h2 h3 =
    let b = t.trampoline_vaddr + trampoline_data_offset in
    rw (set_ap_data-stores t v0 v1 v2 v3 m) (
      first_field b v0 v1 v2 v3 m h0,
      second_field b v0 v1 v2 v3 m h1,
      third_field b v0 v1 v2 v3 m h2,
      fourth_field b v0 v1 v2 v3 m h3,
      is_ap_ready-load t (after_5 b v0 v1 v2 v3 m)
          (load-store_word 4 (b + 0x1C) 0 (after_4 b v0 v1 v2 v3 m) (omega arith)),
      λ j out. elim out [
        | inl below ↦ below_fields b v0 v1 v2 v3 m j below
        | inr above ↦ above_fields b v0 v1 v2 v3 m j above
      ],
    )

-- After `install` the page has the code in its first 0x80 bytes only, then the six bytes of the GDT
-- descriptor, the GDT at 0x88 and zeros after it, and nothing outside the page has changed.
pub install-layout :
    (t : ApTrampoline) (m : Memory)
    → let base = t.trampoline_vaddr in
      let m' = install t m in
      ((i b : ℕ) → i < 0x80 → get_elem? trampoline_code i ≡ some b → m' (base + i) ≡ b)
      × ((i b : ℕ) → get_elem? trampoline_gdt_desc i ≡ some b → m' (base + 0x80 + i) ≡ b)
      × ((i b : ℕ) → get_elem? trampoline_gdt i ≡ some b → m' (base + 0x88 + i) ≡ b)
      × ((i : ℕ) → 0xB0 ≤ i → i < 4096 → m' (base + i) ≡ 0)
      × ((j : ℕ) → (j < base) ⊎ (base + 4096 ≤ j) → m' j ≡ m j)
unfolding install
install-layout t m = (
  λ i b lt e.
      copy-outside trampoline_gdt (base + 0x88) m3 (base + i) (inl (omega arith))
      ∙ copy-outside trampoline_gdt_desc (base + 0x80) m2 (base + i) (inl (omega arith))
      ∙ copy-inside trampoline_code base m1 i b e,
  λ i b e.
      let lt : i < 6 = get_elem?-lt trampoline_gdt_desc i e in
      copy-outside trampoline_gdt (base + 0x88) m3 (base + 0x80 + i) (inl (omega arith))
      ∙ copy-inside trampoline_gdt_desc (base + 0x80) m2 i b e,
  λ i b e. copy-inside trampoline_gdt (base + 0x88) m3 i b e,
  λ i lo hi.
      copy-outside trampoline_gdt (base + 0x88) m3 (base + i) (inr (omega arith))
      ∙ copy-outside trampoline_gdt_desc (base + 0x80) m2 (base + i) (inr (omega arith))
      ∙ copy-outside trampoline_code base m1 (base + i) (inr (omega arith))
      ∙ zero_bytes-inside m base 4096 i hi,
  λ j out. elim out [
    | inl below ↦
        copy-outside trampoline_gdt (base + 0x88) m3 j (inl (omega arith))
        ∙ copy-outside trampoline_gdt_desc (base + 0x80) m2 j (inl (omega arith))
        ∙ copy-outside trampoline_code base m1 j (inl below)
        ∙ zero_bytes-outside m base 4096 j (inl below)
    | inr above ↦
        copy-outside trampoline_gdt (base + 0x88) m3 j (inr (omega arith))
        ∙ copy-outside trampoline_gdt_desc (base + 0x80) m2 j (inr (omega arith))
        ∙ copy-outside trampoline_code base m1 j (inr (omega arith))
        ∙ zero_bytes-outside m base 4096 j (inr above)
  ],
)
  where
    base : ℕ
    base = t.trampoline_vaddr

    m1 : Memory
    m1 = zero_bytes m base 4096

    m2 : Memory
    m2 = copy trampoline_code base m1

    m3 : Memory
    m3 = copy trampoline_gdt_desc (base + 0x80) m2
