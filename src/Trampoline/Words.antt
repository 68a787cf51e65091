-- ===== src/Trampoline/Words.antt =====
-- Words in memory: reading back, and what a write leaves alone.
use smp_nostd.Base.{
  ℕ, zero, suc, ◌+◌, ◌*◌, ◌/◌, ◌^◌, ◌≤◌, ◌<◌, ◌≡◌, ◌⊎◌, inl, inr, refl, ap₂, arith,
}
use native.Mathlib.Nat.{pow-suc}
use smp_nostd.Trampoline.{Memory, store_word, load_word}

pub store_word-outside :
    (n a v : ℕ) (m : Memory) (j : ℕ) → (j < a) ⊎ (a + n ≤ j) → store_word n a v m j ≡ m j
unfolding store_word
store_word-outside zero a v m j out = refl
store_word-outside (suc n) a v m j (inl below) =
    ground (arith, store_word-outside n (a + 1) (v / 2 ^ 8) m j (inl (omega arith)))
store_word-outside (suc n) a v m j (inr above) =
    ground (arith, store_word-outside n (a + 1) (v / 2 ^ 8) m j (inr (omega arith)))

pub load_word-same :
    (n a : ℕ) (m m' : Memory)
    → ((j : ℕ) → a ≤ j → j < a + n → m' j ≡ m j)
    → load_word n a m' ≡ load_word n a m
unfolding load_word
load_word-same zero a m m' same = refl
load_word-same (suc n) a m m' same =
    ap₂ (λ (x y : ℕ). x + y * 2 ^ 8) (same a (omega arith) (omega arith))
      (load_word-same n (a + 1) m m' (λ j lo hi. same j (omega arith) (omega arith)))

-- A word that fits is read back.
pub load-store_word :
    (n a v : ℕ) (m : Memory) → v < 256 ^ n → load_word n a (store_word n a v m) ≡ v
unfolding load_word store_word
load-store_word zero a v m h = omega arith
load-store_word (suc n) a v m h =
    let kept : load_word n (a + 1) (store_word (suc n) a v m)
        ≡ load_word n (a + 1) (store_word n (a + 1) (v / 2 ^ 8) m) =
      load_word-same n (a + 1) (store_word n (a + 1) (v / 2 ^ 8) m) (store_word (suc n) a v m)
        (λ j lo hi. ground arith) in
    let back : load_word n (a + 1) (store_word n (a + 1) (v / 2 ^ 8) m) ≡ v / 2 ^ 8 =
      load-store_word n (a + 1) (v / 2 ^ 8) m (omega (arith, pow-suc 256 n)) in
    ground (arith, kept, back)

-- Words that do not overlap do not disturb each other.
pub load-store_word_apart :
    (n a k b v : ℕ) (m : Memory)
    → (a + n ≤ b) ⊎ (b + k ≤ a)
    → load_word n a (store_word k b v m) ≡ load_word n a m
load-store_word_apart n a k b v m (inl before) =
    load_word-same n a m (store_word k b v m)
      (λ j lo hi. store_word-outside k b v m j (inl (omega arith)))
load-store_word_apart n a k b v m (inr after) =
    load_word-same n a m (store_word k b v m)
      (λ j lo hi. store_word-outside k b v m j (inr (omega arith)))
