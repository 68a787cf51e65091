-- ===== src/SpinLock/Ordering/Visible.antt =====
-- `SpinLock` on processors with store buffers: who holds the lock, and what a holder reads.
use smp_nostd.Base.{
  ℕ, ◌+◌, ◌≤◌, ◌<◌, ◌≡◌, ◌≢◌, ◌⊎◌, inl, inr, refl, sym, ap, ◌∙◌, true, false, [], ◌∷◌,
  if◌then◌else◌, arith,
}
use smp_nostd.Base.Threads.{
  update, update-Others, weigh, weigh-update, weight-le, weigh_unique, weigh-zero, System, Reach,
  pick, here, next,
}
use smp_nostd.SpinLock.Ordering.Buffers.{
  plain, closing, owns, plain-write, closing-unlock, read_data-write, read_data-unlock,
  closing-unlocked,
}
use smp_nostd.SpinLock.Ordering.{
  outside, holding, set_data, set_unlocked, Cpu, cpu, Memory, commit_write, read_data, Move,
  acquire, miss, write, unlock, fence, commit, init,
}

pub weight : Cpu → ℕ
weight c = if owns c.at c.buffer then 1 else 0

abbrev pub word : Memory → ℕ
word m = if m.locked then 1 else 0

-- An owner reads the latest value; any other processor has nothing to do with the lock.
abbrev pub Place : Memory → Cpu → Type 0
Place m c =
    ((owns c.at c.buffer ≡ true) × (read_data c.buffer m.data_word ≡ m.latest))
    ⊎ (c ≡ cpu outside [])

pub record Inv (n : ℕ) (m : Memory) (pc : ℕ → Cpu) : Type 0 where
  pub counted : weigh weight n pc ≡ word m
  pub placed : (i : ℕ) → i < n → Place m (pc i)
  pub fresh : m.locked ≡ false → m.data_word ≡ m.latest

-- Of a move, with the place of the processor before it: its place after it, what becomes of the lock, and
-- that an other processor's place is kept unless the mover has the lock.
record Moved (m : Memory) (c : Cpu) (m' : Memory) (c' : Cpu) : Type 0 where
  place : Place m' c'
  counts : word m' + weight c ≡ word m + weight c'
  keeps : (m'.data_word ≡ m.data_word) × (m'.latest ≡ m.latest) ⊎ (weight c ≡ 1)
  fresh : m'.locked ≡ false → m'.data_word ≡ m'.latest

Move-Moved :
    {m m' : Memory} {c c' : Cpu}
    → Move m c m' c'
    → Place m c
    → (m.locked ≡ false → m.data_word ≡ m.latest)
    → weight c ≤ word m
    → Moved m c m' c'
unfolding commit_write read_data plain closing owns weight
Move-Moved (acquire free) place fresh le = record {
  place = inl (refl, fresh free);
  counts = ground (arith, free);
  keeps = inl (refl, refl);
  fresh = λ e. cc;
}
Move-Moved miss place fresh le = record {
  place = place;
  counts = refl;
  keeps = inl (refl, refl);
  fresh = fresh;
}
Move-Moved (fence f drained) place fresh le = record {
  place = place;
  counts = refl;
  keeps = inl (refl, refl);
  fresh = fresh;
}
Move-Moved {m = m} (write {ws} v) (inl (own, is)) fresh le = record {
  place = inl (plain-write ws v own, read_data-write ws v _);
  counts = rw (own, plain-write ws v own) refl;
  keeps = inr (rw own refl);
  fresh = λ e. absurd (ground (arith, own, le));
}
Move-Moved (write {ws} v) (inr e) fresh le = let there : holding ≡ outside = ap (λ c. c.at) e in cc
Move-Moved (unlock {ws}) (inl (own, is)) fresh le = record {
  place = inl (closing-unlock ws own, read_data-unlock ws _ ∙ is);
  counts = rw (own, closing-unlock ws own) refl;
  keeps = inl (refl, refl);
  fresh = fresh;
}
Move-Moved (unlock {ws}) (inr e) fresh le = let there : holding ≡ outside = ap (λ c. c.at) e in cc
Move-Moved (commit {p = outside} {w = set_data v} {ws = ws}) (inl (own, is)) fresh le = record {
  place = inl (own, is);
  counts = rw own refl;
  keeps = inr (rw own refl);
  fresh = λ e. absurd (ground (arith, own, le));
}
Move-Moved (commit {p = holding} {w = set_data v} {ws = ws}) (inl (own, is)) fresh le = record {
  place = inl (own, is);
  counts = rw own refl;
  keeps = inr (rw own refl);
  fresh = λ e. absurd (ground (arith, own, le));
}
Move-Moved {m = m} (commit {p = outside} {w = set_unlocked} {ws = ws}) (inl (own, is)) fresh le =
    let empty : ws ≡ [] = closing-unlocked ws own in
    let before : weight (cpu outside (set_unlocked ∷ ws)) ≡ 1 = rw own refl in
    let after : weight (cpu outside ws) ≡ 0 = ap (λ x. weight (cpu outside x)) empty in
    record {
      place = inr (ap (cpu outside) empty);
      counts = ground (arith, before, after, le);
      keeps = inl (refl, refl);
      fresh = λ e. sym (ap (λ x. read_data x m.data_word) empty) ∙ is;
    }
Move-Moved (commit {p = holding} {w = set_unlocked} {ws = ws}) (inl (own, is)) fresh le = cc
Move-Moved (commit {p} {w} {ws}) (inr e) fresh le =
    let there : (w ∷ ws) ≡ [] = ap (λ c. c.buffer) e in cc

-- The place of a processor that does not move.
keep-Place :
    {n : ℕ} {m m' : Memory} {pc : ℕ → Cpu} {c' : Cpu} (i j : ℕ)
    → i < n
    → j < n
    → i ≢ j
    → Inv n m pc
    → Moved m (pc i) m' c'
    → Place m' (pc j)
unfolding weight
keep-Place {n} {m} {m'} {pc} i j hi hj ne inv moved = elim (inv.placed j hj) [
  | inr e ↦ inr e
  | inl (own, is) ↦ elim moved.keeps [
    | inl (same_data, same_latest) ↦ inl (own, rw (same_data, same_latest) is)
    | inr owner ↦ absurd (
        ne (
          weigh_unique weight n pc i j (ground (arith, inv.counted)) hi hj (omega (arith, owner))
            (rw own (omega arith))))
  ]
]

Move-Inv :
    {n : ℕ} {m m' : Memory} {pc : ℕ → Cpu} {c' : Cpu} (i : ℕ)
    → i < n
    → Inv n m pc
    → Move m (pc i) m' c'
    → Inv n m' (update pc i c')
unfolding weight
Move-Inv {n} {m} {m'} {pc} {c'} i lt inv mv =
    let le : weight (pc i) ≤ word m = omega (arith, inv.counted, weight-le weight n pc i lt) in
    let moved : Moved m (pc i) m' c' = Move-Moved mv (inv.placed i lt) inv.fresh le in
    record {
      counted = omega (arith, inv.counted, weigh-update weight n pc i c' lt, moved.counts);
      placed =
          update-Others (λ j c. j < n → Place m' c) pc i c'
            (λ j ne hj. keep-Place i j lt hj ne inv moved) (λ _. moved.place);
      fresh = moved.fresh;
    }

Reach-Inv : {n : ℕ} {d k : ℕ} {s : System Memory Cpu} → Reach Move n (init d) k s → Inv n s.mem s.pc
unfolding weight owns closing
Reach-Inv {n} here = record {
  counted = weigh-zero weight n _ (λ i. refl);
  placed = λ i lt. inr refl;
  fresh = λ e. refl;
}
Reach-Inv (next r (pick i lt mv)) = Move-Inv i lt (Reach-Inv r) mv

-- Only a holder holds.
holding-owns :
    (m : Memory) (c : Cpu)
    → Place m c
    → c.at ≡ holding
    → (owns c.at c.buffer ≡ true) × (read_data c.buffer m.data_word ≡ m.latest)
holding-owns m c (inl own) at = own
holding-owns m c (inr e) at = let there : holding ≡ outside = sym at ∙ ap (λ x. x.at) e in cc

-- In any run of any number of processors with store buffers, from a free lock, a processor that has a guard
-- reads the value that was last written through a guard, by itself or by any other processor before.
pub holder-reads_latest :
    {n d k : ℕ} {s : System Memory Cpu} (i : ℕ)
    → Reach Move n (init d) k s
    → i < n
    → (s.pc i).at ≡ holding
    → read_data (s.pc i).buffer s.mem.data_word ≡ s.mem.latest
holder-reads_latest {s = s} i r hi at =
    (holding-owns s.mem (s.pc i) ((Reach-Inv r).placed i hi) at).1

-- The other processors have no guard then, and no store in their buffers.
pub holder-alone :
    {n d k : ℕ} {s : System Memory Cpu} (i j : ℕ)
    → Reach Move n (init d) k s
    → i < n
    → j < n
    → i ≢ j
    → (s.pc i).at ≡ holding
    → s.pc j ≡ cpu outside []
unfolding weight
holder-alone {n} {s = s} i j r hi hj ne at =
    let inv = Reach-Inv r in
    let (own, is) = holding-owns s.mem (s.pc i) (inv.placed i hi) at in
    elim (inv.placed j hj) [
      | inr e ↦ e
      | inl (own', is') ↦ absurd (
          ne (
            weigh_unique weight n s.pc i j (ground (arith, inv.counted)) hi hj
              (rw own (omega arith)) (rw own' (omega arith))))
    ]
