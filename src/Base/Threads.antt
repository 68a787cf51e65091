-- ===== src/Base/Threads.antt =====
-- Threads over a shared memory, interleaved in any order. A move is one access to the memory by one
-- thread; all accesses are taken to be sequentially consistent. `Pc` says where a thread stands.
use Prim.Native.Nat.{ℕ, zero, suc, ◌+◌, ◌≤◌, ◌<◌}
use mathlib.Core.Logic.{◌≢◌, ite, if_pos, if_neg}
use mathlib.Core.Path.{◌≡◌, refl, subst}
use native.Mathlib.Omega.{arith}
use native.Mathlib.Decide.{dec_lt, ℕ_discrete}

-- Thread `i` moves on to `a`.
abbrev pub update {ℓ} : {A : Type ℓ} → (ℕ → A) → ℕ → A → ℕ → A
update places i place j = ite (ℕ_discrete i j) place (places j)

-- The sum of a weight over the threads below `n`.
pub weigh {ℓ} : {A : Type ℓ} → (A → ℕ) → ℕ → (ℕ → A) → ℕ
weigh w zero f = 0
weigh w (suc n) f = weigh w n f + w (f n)

module _ {ℓ} {A : Type ℓ} (w : A → ℕ) where
  weigh-above : (n : ℕ) (f : ℕ → A) (i : ℕ) (a : A) → n ≤ i → weigh w n (update f i a) ≡ weigh w n f
  unfolding weigh
  weigh-above zero f i a h = refl
  weigh-above (suc n) f i a h = ground (arith, weigh-above n f i a)

  -- A move of thread `i` changes its own weight only.
  pub weigh-update :
      (n : ℕ) (f : ℕ → A) (i : ℕ) (a : A)
      → i < n
      → weigh w n (update f i a) + w (f i) ≡ weigh w n f + w a
  unfolding weigh
  weigh-update zero f i a h = elim h [ ]
  weigh-update (suc n) f i a h = elim (dec_lt i n) [
    | yes lt ↦ ground (arith, weigh-update n f i a lt)
    | no ge ↦ ground (arith, weigh-above n f i a)
  ]

  -- One thread weighs no more than all.
  pub weight-le : (n : ℕ) (f : ℕ → A) (i : ℕ) → i < n → w (f i) ≤ weigh w n f
  unfolding weigh
  weight-le zero f i h = elim h [ ]
  weight-le (suc n) f i h = elim (ℕ_discrete i n) [
    | yes e ↦ ground arith
    | no ne ↦ omega (arith, weight-le n f i (omega arith))
  ]

  -- Nor do two threads.
  pub weight-add-le :
      (n : ℕ) (f : ℕ → A) (i j : ℕ) → i < j → j < n → w (f i) + w (f j) ≤ weigh w n f
  unfolding weigh
  weight-add-le zero f i j h k = elim k [ ]
  weight-add-le (suc n) f i j h k = elim (ℕ_discrete j n) [
    | yes e ↦ ground (arith, weight-le n f i)
    | no ne ↦ omega (arith, weight-add-le n f i j h (omega arith))
  ]

  pub weigh-le : ((a : A) → w a ≤ 1) → (n : ℕ) (f : ℕ → A) → weigh w n f ≤ n
  unfolding weigh
  weigh-le small zero f = omega arith
  weigh-le small (suc n) f = omega (arith, small (f n), weigh-le small n f)

  pub weigh-zero : (n : ℕ) (f : ℕ → A) → ((i : ℕ) → w (f i) ≡ 0) → weigh w n f ≡ 0
  unfolding weigh
  weigh-zero zero f h = refl
  weigh-zero (suc n) f h = omega (arith, h n, weigh-zero n f h)

  -- With a total of at most one, at most one thread has weight.
  pub weigh_unique :
      (n : ℕ) (f : ℕ → A) (i j : ℕ)
      → weigh w n f ≤ 1
      → i < n
      → j < n
      → 0 < w (f i)
      → 0 < w (f j)
      → i ≡ j
  weigh_unique n f i j h hi hj pi pj = elim (dec_lt i j) [
    | yes lt ↦ absurd (omega (arith, weight-add-le n f i j lt hj))
    | no ge ↦ elim (dec_lt j i) [
      | yes lt ↦ absurd (omega (arith, weight-add-le n f j i lt hi))
      | no ge' ↦ omega arith
    ]
  ]

  -- With a total above zero, some thread has weight.
  pub weigh-some : (n : ℕ) (f : ℕ → A) → 0 < weigh w n f → (i : ℕ) × (i < n) × (0 < w (f i))
  unfolding weigh
  weigh-some zero f h = elim h [ ]
  weigh-some (suc n) f h = elim (dec_lt 0 (w (f n))) [
    | yes here ↦ (n, omega arith, here)
    | no light ↦ let (i, lt, pos) = weigh-some n f (omega arith) in (i, omega arith, pos)
  ]

-- What holds of the new place of thread `i`, and of the places of the others, holds of every place after.
pub update-Others {ℓ κ} :
    {A : Type ℓ} (P : ℕ → A → Type κ) (f : ℕ → A) (i : ℕ) (a : A)
    → ((j : ℕ) → i ≢ j → P j (f j))
    → P i a
    → (j : ℕ) → P j (update f i a j)
update-Others P f i a each one j = elim (ℕ_discrete i j) [
  | yes e ↦ rw (if_pos _ e) (subst (λ k. P k a) e one)
  | no ne ↦ rw (if_neg _ ne) (each j ne)
]

-- What holds of the new place of thread `i`, and of every place before, holds of every place after.
pub update-Each {ℓ κ} :
    {A : Type ℓ} (P : ℕ → A → Type κ) (f : ℕ → A) (i : ℕ) (a : A)
    → ((j : ℕ) → P j (f j))
    → P i a
    → (j : ℕ) → P j (update f i a j)
update-Each P f i a each one = update-Others P f i a (λ j ne. each j) one

pub record System (Mem Pc : Type 0) : Type 0 where
  pub mem : Mem
  pub pc : ℕ → Pc

module _ {Mem Pc : Type 0} (Move : Mem → Pc → Mem → Pc → Type 0) (n : ℕ) where
  -- One of the `n` threads makes a move.
  pub data Step (s : System Mem Pc) : System Mem Pc → Type 0 where
    pick :
        (i : ℕ) {m : Mem} {p : Pc}
        → i < n
        → Move s.mem (s.pc i) m p
        → Step s (record { mem = m; pc = update s.pc i p })

  -- What can be reached from `s` in `k` steps.
  pub data Reach (s : System Mem Pc) : ℕ → System Mem Pc → Type 0 where
    here : Reach s 0 s
    next : {k : ℕ} {t u : System Mem Pc} → Reach s k t → Step t u → Reach s (suc k) u
