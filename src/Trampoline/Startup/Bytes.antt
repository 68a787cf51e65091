-- ===== src/Trampoline/Startup/Bytes.antt =====
-- Memories of bytes stay so.
use smp_nostd.Base.{
  ℕ, zero, suc, ◌+◌, ◌/◌, ◌%◌, ◌^◌, ◌<◌, ◌≡◌, refl, Bool, true, ◌&&◌, ltb, List, [], ◌∷◌, arith,
}
use smp_nostd.Trampoline.{
  Memory, store, zero_bytes, copy, store_word, ApTrampoline, install, set_ap_data,
  trampoline_data_offset, trampoline_code, trampoline_gdt, trampoline_gdt_desc,
}
use smp_nostd.Trampoline.Offset

abbrev pub AllBytes : Memory → Type 0
AllBytes m = (j : ℕ) → m j < 256

all_small : List ℕ → Bool
all_small [] = true
all_small (b ∷ bs) = ltb b 256 && all_small bs

store-AllBytes : (m : Memory) (a b : ℕ) → b < 256 → AllBytes m → AllBytes (store m a b)
store-AllBytes m a b small each j = ground (arith, each j)

zero_bytes-AllBytes : (m : Memory) (a n : ℕ) → AllBytes m → AllBytes (zero_bytes m a n)
unfolding zero_bytes
zero_bytes-AllBytes m a zero each = each
zero_bytes-AllBytes m a (suc n) each =
    store-AllBytes (zero_bytes m a n) (a + n) 0 (omega arith) (zero_bytes-AllBytes m a n each)

copy-AllBytes :
    (bs : List ℕ) (a : ℕ) (m : Memory) → all_small bs ≡ true → AllBytes m → AllBytes (copy bs a m)
unfolding copy all_small
copy-AllBytes [] a m small each = each
copy-AllBytes (b ∷ bs) a m small each =
    store-AllBytes (copy bs (a + 1) m) a b (ground (arith, small))
      (copy-AllBytes bs (a + 1) m (ground (arith, small)) each)

pub store_word-AllBytes : (n a v : ℕ) (m : Memory) → AllBytes m → AllBytes (store_word n a v m)
unfolding store_word
store_word-AllBytes zero a v m each = each
store_word-AllBytes (suc n) a v m each =
    store-AllBytes (store_word n (a + 1) (v / 2 ^ 8) m) a (v % 2 ^ 8) (omega arith)
      (store_word-AllBytes n (a + 1) (v / 2 ^ 8) m each)

pub install-AllBytes : (t : ApTrampoline) (m : Memory) → AllBytes m → AllBytes (install t m)
unfolding install all_small
install-AllBytes t m each = copy-AllBytes trampoline_gdt _ _ refl (
    copy-AllBytes trampoline_gdt_desc _ _ refl
      (copy-AllBytes trampoline_code _ _ refl (zero_bytes-AllBytes m t.trampoline_vaddr 4096 each)))

pub set_ap_data-AllBytes :
    (t : ApTrampoline) (pml4_addr stack_top entry_point cpu_index : ℕ) (m : Memory)
    → AllBytes m
    → AllBytes (set_ap_data t pml4_addr stack_top entry_point cpu_index m)
unfolding set_ap_data
set_ap_data-AllBytes t pml4_addr stack_top entry_point cpu_index m each =
    let block : ℕ = t.trampoline_vaddr + trampoline_data_offset in
    let m1 = store_word 8 (block + Offset.pml4_addr) pml4_addr m in
    let m2 = store_word 8 (block + Offset.stack_top) stack_top m1 in
    let m3 = store_word 8 (block + Offset.entry_point) entry_point m2 in
    let m4 = store_word 4 (block + Offset.cpu_index) cpu_index m3 in
    let each1 : AllBytes m1 = store_word-AllBytes 8 (block + Offset.pml4_addr) pml4_addr m each in
    let each2 : AllBytes m2 = store_word-AllBytes 8 (block + Offset.stack_top) stack_top m1 each1 in
    let each3 : AllBytes m3 =
      store_word-AllBytes 8 (block + Offset.entry_point) entry_point m2 each2 in
    let each4 : AllBytes m4 = store_word-AllBytes 4 (block + Offset.cpu_index) cpu_index m3 each3 in
    store_word-AllBytes 4 (block + Offset.ap_ready) 0 m4 each4
