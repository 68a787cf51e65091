-- ===== src/ContextSwitch/Slots.antt =====
-- Consecutive words in memory.
use smp_nostd.Base.{
  ℕ, zero, suc, ◌+◌, ◌*◌, ◌^◌, ◌≤◌, ◌<◌, ◌≡◌, ◌∙◌, ◌⊎◌, inl, inr, refl, ap, some, List, [], ◌∷◌,
  length, get_elem?, arith,
}
use smp_nostd.Trampoline.{Memory, store_word, load_word}
use smp_nostd.Trampoline.Words.{store_word-outside, load_word-same, load-store_word}

-- The words `vs` from address `a` on.
unfoldable pub fill : (vs : List ℕ) → (a : ℕ) → Memory → Memory
fill [] a m = m
fill (v ∷ vs) a m = fill vs (a + 8) (store_word 8 a v m)

pub fill-outside :
    (vs : List ℕ) (a : ℕ) (m : Memory) (j : ℕ)
    → (j < a) ⊎ (a + 8 * length vs ≤ j)
    → fill vs a m j ≡ m j
unfolding fill
fill-outside [] a m j out = refl
fill-outside (v ∷ vs) a m j out =
    fill-outside vs (a + 8) (store_word 8 a v m) j
      (elim out [ inl h ↦ inl (omega arith) | inr h ↦ inr (omega arith) ])
    ∙ store_word-outside 8 a v m j (elim out [ inl h ↦ inl h | inr h ↦ inr (omega arith) ])

pub load-fill_apart :
    (vs : List ℕ) (a b : ℕ) (m : Memory)
    → (b + 8 ≤ a) ⊎ (a + 8 * length vs ≤ b)
    → load_word 8 b (fill vs a m) ≡ load_word 8 b m
load-fill_apart vs a b m out = load_word-same 8 b m (fill vs a m) (λ j lo hi.
    fill-outside vs a m j (elim out [ inl h ↦ inl (omega arith) | inr h ↦ inr (omega arith) ]))

-- Each word is read back.
pub load-fill :
    (vs : List ℕ) (a k v : ℕ) (m : Memory)
    → get_elem? vs k ≡ some v
    → v < 2 ^ 64
    → load_word 8 (a + 8 * k) (fill vs a m) ≡ v
unfolding fill
load-fill [] a k v m at h = cc
load-fill (w ∷ vs) a zero v m at h =
    load-fill_apart vs (a + 8) (a + 8 * zero) (store_word 8 a w m) (inl (omega arith))
    ∙ ap (λ (b : ℕ). load_word 8 b (store_word 8 a w m)) here
    ∙ load-store_word 8 a w m (ground arith)
    ∙ ground arith
  where
    here : a + 8 * zero ≡ a
    here = omega arith
load-fill (w ∷ vs) a (suc k) v m at h =
    ap (λ (b : ℕ). load_word 8 b (fill vs (a + 8) (store_word 8 a w m))) further
    ∙ load-fill vs (a + 8) k v (store_word 8 a w m) at h
  where
    further : a + 8 * suc k ≡ a + 8 + 8 * k
    further = omega arith

-- Two blocks of memory, `n` bytes from `a` and `k` bytes from `b`, do not meet.
abbrev pub Apart : (a n b k : ℕ) → Type 0
Apart a n b k = (a + n ≤ b) ⊎ (b + k ≤ a)
