-- ===== src/RunQueue/Positions.antt =====
-- src/scheduler.rs, `RunQueue`: where a task of the queue is after `steal_half`.
use smp_nostd.Base.{
  ℕ, zero, suc, ◌≤◌, ◌<◌, ◌≡◌, ◌⊎◌, inl, inr, refl, ◌∙◌, some, List, [], ◌∷◌, ◌++◌, reverse, length,
  length-reverse, length-drop, get_elem?, get_elem?-lt, Bool-cases, ltb, ltb→le, take, drop, arith,
}
use mathlib.Core.List.{reverse-cons}
use smp_nostd.Task.{Task}
use smp_nostd.RunQueue.{RunQueue, steal_half}
use smp_nostd.RunQueue.Laws.{IsValid, kept, steal_half-splits}

module _ {ℓ} {A : Type ℓ} where
  pub get_elem?-append :
      (xs ys : List A) (i : ℕ) {x : A} → get_elem? xs i ≡ some x → get_elem? (xs ++ ys) i ≡ some x
  get_elem?-append [] ys i e = cc
  get_elem?-append (a ∷ xs) ys zero e = e
  get_elem?-append (a ∷ xs) ys (suc i) e = get_elem?-append xs ys i e

  pub get_elem?-snoc : (xs : List A) (x : A) → get_elem? (xs ++ x ∷ []) (length xs) ≡ some x
  get_elem?-snoc [] x = refl
  get_elem?-snoc (a ∷ xs) x = get_elem?-snoc xs x

  get_elem?-reverse :
      (xs : List A) (i : ℕ) {x : A}
      → get_elem? xs i ≡ some x
      → (j : ℕ) × (get_elem? (reverse xs) j ≡ some x)
  get_elem?-reverse [] i e = cc
  get_elem?-reverse (a ∷ xs) zero e =
      (length (reverse xs), rw (reverse-cons a xs) (get_elem?-snoc (reverse xs) a ∙ e))
  get_elem?-reverse (a ∷ xs) (suc i) e =
      let (j, there) = get_elem?-reverse xs i e in
      (j, rw (reverse-cons a xs) (get_elem?-append (reverse xs) (a ∷ []) j there))

  get_elem?-take : (n : ℕ) (xs : List A) (i : ℕ) → i < n → get_elem? (take n xs) i ≡ get_elem? xs i
  get_elem?-take zero xs i h = elim h [ ]
  get_elem?-take (suc n) [] i h = refl
  get_elem?-take (suc n) (a ∷ xs) zero h = refl
  get_elem?-take (suc n) (a ∷ xs) (suc i) h = get_elem?-take n xs i (omega arith)

  get_elem?-drop :
      (n : ℕ) (xs : List A) (i : ℕ) → n ≤ i → (j : ℕ) × (get_elem? (drop n xs) j ≡ get_elem? xs i)
  get_elem?-drop zero xs i h = (i, refl)
  get_elem?-drop (suc n) [] i h = (i, refl)
  get_elem?-drop (suc n) (a ∷ xs) zero h = elim h [ ]
  get_elem?-drop (suc n) (a ∷ xs) (suc i) h = get_elem?-drop n xs i (omega arith)

-- A task stays where it is, or is stolen and no further back in the loot than it was in the queue.
pub steal_half-position :
    (q : RunQueue) (i : ℕ) {t : Task}
    → IsValid q
    → get_elem? q.queue i ≡ some t
    → (get_elem? (steal_half q).1.queue i ≡ some t)
      ⊎ ((j : ℕ) × (j ≤ i) × (get_elem? (steal_half q).0 j ≡ some t))
steal_half-position q i v at = elim (Bool-cases (ltb i (kept q))) [
  | inl front ↦
      inl (rw (steal_half-splits q v).1 (get_elem?-take (kept q) q.queue i (ground arith) ∙ at))
  | inr back ↦
      let behind : kept q ≤ i = ltb→le i (kept q) back in
      let (j, there) = get_elem?-drop (kept q) q.queue i behind in
      let (k, stolen) = get_elem?-reverse (drop (kept q) q.queue) j (there ∙ at) in
      inr (
        k,
        omega (
          arith,
          get_elem?-lt (reverse (drop (kept q) q.queue)) k stolen,
          length-reverse (drop (kept q) q.queue),
          length-drop (kept q) q.queue,
        ),
        rw (steal_half-splits q v).0 stolen,
      )
]
