-- ===== src/SpinLock/Safety.antt =====
-- One holder at a time, and what happens to the interrupt flag.
use smp_nostd.Base.{
  ℕ, ◌+◌, ◌^◌, ◌≤◌, ◌<◌, ◌≡◌, ◌≢◌, ◌↔◌, refl, ap, Bool, true, false, arith, if◌then◌else◌,
}
use smp_nostd.Base.Threads.{
  update, update-Each, weigh, weigh-update, update-Each, weight-le, weigh_unique, weigh-some,
  weigh-zero, System, Reach, pick, here, next,
}
use smp_nostd.Interrupts.{
  interrupts_enabled, disable_interrupts, restore_interrupts, restore_interrupts-disable,
}
use smp_nostd.SpinLock.{
  SpinLock, Pc, idle, acquiring, watching, trying, failed, holding, released, Cpu, Move, lock,
  acquire, miss, watch, retry, try_lock, win, lose, give_up, unlock, restore, init, is_locked,
}

abbrev pub holds : Cpu → ℕ
holds c = elim c.at [ holding w ↦ 1 | _ ↦ 0 ]

-- The flags of a CPU that had `r` outside the lock: disabled from the call to the return or the drop,
-- with the guard remembering how they were.
abbrev pub Masked : ℕ → Pc → ℕ → Type 0
Masked r idle r' = r' ≡ r
Masked r (acquiring w) r' = (w ≡ (disable_interrupts r).0) × (r' ≡ (disable_interrupts r).1)
Masked r (watching w) r' = (w ≡ (disable_interrupts r).0) × (r' ≡ (disable_interrupts r).1)
Masked r (trying w) r' = (w ≡ (disable_interrupts r).0) × (r' ≡ (disable_interrupts r).1)
Masked r (failed w) r' = (w ≡ (disable_interrupts r).0) × (r' ≡ (disable_interrupts r).1)
Masked r (holding w) r' = (w ≡ (disable_interrupts r).0) × (r' ≡ (disable_interrupts r).1)
Masked r (released w) r' = (w ≡ (disable_interrupts r).0) × (r' ≡ (disable_interrupts r).1)

restored :
    (r : ℕ) {w : Bool} {r' : ℕ}
    → r < 2 ^ 64
    → (w ≡ (disable_interrupts r).0) × (r' ≡ (disable_interrupts r).1)
    → restore_interrupts w r' ≡ r
restored r h (e, e') = rw (e, e') (restore_interrupts-disable r h).2

Move-Masked :
    {l l' : SpinLock} {c c' : Cpu} (r : ℕ)
    → r < 2 ^ 64
    → Move l c l' c'
    → Masked r c.at c.rflags
    → Masked r c'.at c'.rflags
Move-Masked r h lock m =
    (ap (λ x. (disable_interrupts x).0) m, ap (λ x. (disable_interrupts x).1) m)
Move-Masked r h try_lock m =
    (ap (λ x. (disable_interrupts x).0) m, ap (λ x. (disable_interrupts x).1) m)
Move-Masked r h (acquire g) m = m
Move-Masked r h miss m = m
Move-Masked r h (watch g) m = m
Move-Masked r h (retry g) m = m
Move-Masked r h (win g) m = m
Move-Masked r h (lose g) m = m
Move-Masked r h give_up m = restored r h m
Move-Masked r h unlock m = m
Move-Masked r h restore m = restored r h m

-- The lock word counts its holder.
abbrev pub word : SpinLock → ℕ
word l = if l.locked then 1 else 0

Move-word :
    {l l' : SpinLock} {c c' : Cpu}
    → Move l c l' c'
    → holds c ≤ word l
    → word l' + holds c ≡ word l + holds c'
Move-word (acquire g) h = ground arith
Move-word (win g) h = ground arith
Move-word unlock h = ground arith
Move-word mv h = omega arith

pub record Inv (n : ℕ) (rflags : ℕ → ℕ) (l : SpinLock) (pc : ℕ → Cpu) : Type 0 where
  pub counted : weigh holds n pc ≡ word l
  pub masked : (i : ℕ) → Masked (rflags i) (pc i).at (pc i).rflags

Move-Inv :
    {n : ℕ} {rflags : ℕ → ℕ} {l l' : SpinLock} {pc : ℕ → Cpu} {c' : Cpu} (i : ℕ)
    → ((j : ℕ) → rflags j < 2 ^ 64)
    → i < n
    → Inv n rflags l pc
    → Move l (pc i) l' c'
    → Inv n rflags l' (update pc i c')
Move-Inv {n} {rflags} {pc = pc} {c' = c'} i fits lt inv mv = record {
  counted = omega (
    arith,
    inv.counted,
    weigh-update holds n pc i c' lt,
    Move-word mv (omega (arith, inv.counted, weight-le holds n pc i lt)),
  );
  masked =
      update-Each (λ j c. Masked (rflags j) c.at c.rflags) pc i c' inv.masked
        (Move-Masked (rflags i) (fits i) mv (inv.masked i));
}

-- Every state that is reached from a free lock has the invariant.
pub Reach-Inv :
    {n : ℕ} {rflags : ℕ → ℕ} {k : ℕ} {s : System SpinLock Cpu}
    → ((j : ℕ) → rflags j < 2 ^ 64)
    → Reach Move n (init rflags) k s
    → Inv n rflags s.mem s.pc
Reach-Inv {n} fits here = record { counted = weigh-zero holds n _ (λ i. refl); masked = λ i. refl }
Reach-Inv fits (next r (pick i lt mv)) = Move-Inv i fits lt (Reach-Inv fits r) mv

-- In any run of any number of CPUs no two CPUs hold the lock.
pub one_holder :
    {n : ℕ} {rflags : ℕ → ℕ} {k : ℕ} {s : System SpinLock Cpu} {v w : Bool} (i j : ℕ)
    → ((c : ℕ) → rflags c < 2 ^ 64)
    → Reach Move n (init rflags) k s
    → i < n
    → j < n
    → (s.pc i).at ≡ holding v
    → (s.pc j).at ≡ holding w
    → i ≡ j
one_holder {n} {s = s} i j fits r hi hj ei ej =
    weigh_unique holds n s.pc i j (ground (arith, (Reach-Inv fits r).counted)) hi hj (ground arith)
      (ground arith)

-- In any run, the lock reads as locked exactly when some CPU holds it.
pub is_locked-held :
    {n : ℕ} {rflags : ℕ → ℕ} {k : ℕ} {s : System SpinLock Cpu}
    → ((c : ℕ) → rflags c < 2 ^ 64)
    → Reach Move n (init rflags) k s
    → (is_locked s.mem ≡ true) ↔ ((i : ℕ) × (i < n) × (holds (s.pc i) ≡ 1))
unfolding is_locked
is_locked-held {n} {s = s} fits r =
    let inv = Reach-Inv fits r in
    (
      λ e.
          let (i, lt, pos) = weigh-some holds n s.pc (ground (arith, inv.counted)) in
          (i, lt, ground arith),
      λ (i, lt, pos). ground (arith, inv.counted, weight-le holds n s.pc i lt),
    )

Masked-enabled :
    (r : ℕ) (p : Pc) (r' : ℕ)
    → r < 2 ^ 64
    → Masked r p r'
    → (p ≡ idle → r' ≡ r) × (p ≢ idle → interrupts_enabled r' ≡ false)
Masked-enabled r p r' h m = ground (arith, restore_interrupts-disable r h)

-- In any run, where each CPU uses this one spinlock only, interrupts are off on a CPU from the call of
-- `lock` or `try_lock` until the guard is dropped or the attempt has failed, and the CPU is back outside
-- the lock with the flags that it had.
pub interrupts_masked :
    {n : ℕ} {rflags : ℕ → ℕ} {k : ℕ} {s : System SpinLock Cpu} (i : ℕ)
    → ((c : ℕ) → rflags c < 2 ^ 64)
    → Reach Move n (init rflags) k s
    → ((s.pc i).at ≡ idle → (s.pc i).rflags ≡ rflags i)
      × ((s.pc i).at ≢ idle → interrupts_enabled (s.pc i).rflags ≡ false)
interrupts_masked {rflags = rflags} {s = s} i fits r =
    Masked-enabled (rflags i) (s.pc i).at (s.pc i).rflags (fits i) ((Reach-Inv fits r).masked i)
