-- ===== src/RwLock/Safety.antt =====
-- Readers share the lock, a writer has it alone, for any number of threads.
use smp_nostd.Base.{ℕ, ◌+◌, ◌≤◌, ◌<◌, ◌≡◌, ◌≢◌, ◌⊎◌, ◌↔◌, refl, arith}
use smp_nostd.Base.Threads.{
  update, update-Each, weigh, weigh-update, weight-le, weigh_unique, weigh-zero, System, Reach,
  pick, here, next,
}
use smp_nostd.RwLock.{
  RwLock, writer_bit, Pc, idle, joining, trying, reading, writing, Move, read_load, read_win,
  try_read_load, try_read_win, write_win, try_write_win, drop_read, drop_write, init,
}

abbrev pub reads : Pc → ℕ
reads reading = 1
reads _ = 0

abbrev pub writes : Pc → ℕ
writes writing = 1
writes _ = 0

-- The state of a lock with these numbers of read guards and write guards.
abbrev pub Encodes : (state readers writers : ℕ) → Type 0
Encodes state readers writers =
    ((writers ≡ 0) × (state ≡ readers) × (readers ≤ writer_bit))
    ⊎ ((writers ≡ 1) × (readers ≡ 0) × (state ≡ writer_bit))

-- A value that is about to be incremented is not the writer's.
abbrev IsReadable : Pc → Type 0
IsReadable (joining c) = c ≢ writer_bit
IsReadable (trying c) = c ≢ writer_bit
IsReadable _ = Unit

Move-Encodes :
    {l l' : RwLock} {p p' : Pc} (r w r' w' : ℕ)
    → Move l p l' p'
    → IsReadable p
    → Encodes l.state r w
    → reads p ≤ r
    → writes p ≤ w
    → r' + reads p ≡ r + reads p'
    → w' + writes p ≡ w + writes p'
    → Encodes l'.state r' w' × IsReadable p'
Move-Encodes r w r' w' (read_load g) ok e hr hw er ew = ground arith
Move-Encodes r w r' w' (read_win g) ok e hr hw er ew = ground arith
Move-Encodes r w r' w' (try_read_load g) ok e hr hw er ew = ground arith
Move-Encodes r w r' w' (try_read_win g) ok e hr hw er ew = ground arith
Move-Encodes r w r' w' (write_win g) ok e hr hw er ew = ground arith
Move-Encodes r w r' w' (try_write_win g) ok e hr hw er ew = ground arith
Move-Encodes r w r' w' drop_read ok e hr hw er ew = ground arith
Move-Encodes r w r' w' drop_write ok e hr hw er ew = ground arith
Move-Encodes r w r' w' mv ok e hr hw er ew = ground arith

pub record Inv (n : ℕ) (l : RwLock) (pc : ℕ → Pc) : Type 0 where
  pub encodes : Encodes l.state (weigh reads n pc) (weigh writes n pc)
  pub readable : (i : ℕ) → IsReadable (pc i)

Move-Inv :
    {n : ℕ} {l l' : RwLock} {pc : ℕ → Pc} {p' : Pc} (i : ℕ)
    → i < n
    → Inv n l pc
    → Move l (pc i) l' p'
    → Inv n l' (update pc i p')
Move-Inv {n} {pc = pc} {p' = p'} i lt inv mv =
    let (encodes, readable) =
      Move-Encodes (weigh reads n pc) (weigh writes n pc) (weigh reads n (update pc i p'))
        (weigh writes n (update pc i p')) mv (inv.readable i) inv.encodes
        (weight-le reads n pc i lt) (weight-le writes n pc i lt) (weigh-update reads n pc i p' lt)
        (weigh-update writes n pc i p' lt) in
    record {
      encodes = encodes;
      readable = update-Each (λ _ p. IsReadable p) pc i p' inv.readable readable;
    }

pub Reach-Inv : {n k : ℕ} {s : System RwLock Pc} → Reach Move n init k s → Inv n s.mem s.pc
Reach-Inv {n} here = record {
  encodes = omega (
    arith,
    weigh-zero reads n (λ _. idle) (λ i. refl),
    weigh-zero writes n (λ _. idle) (λ i. refl),
  );
  readable = λ i. tt;
}
Reach-Inv (next r (pick i lt mv)) = Move-Inv i lt (Reach-Inv r) mv

-- In any run of any number of threads, while one thread has a write guard no other thread has a guard.
pub writer_excludes :
    {n k : ℕ} {s : System RwLock Pc} (i j : ℕ)
    → Reach Move n init k s
    → i < n
    → j < n
    → s.pc i ≡ writing
    → (s.pc j ≢ reading) × (s.pc j ≡ writing → i ≡ j)
writer_excludes {n} {s = s} i j r hi hj e = (
  λ e'.
      ground
        (arith, (Reach-Inv r).encodes, weight-le reads n s.pc j hj, weight-le writes n s.pc i hi),
  λ e'.
      weigh_unique writes n s.pc i j (ground (arith, (Reach-Inv r).encodes)) hi hj (ground arith)
        (ground arith),
)

-- In any run the state word is the number of read guards, or 0xFFFF_FFFF for the one write guard, and
-- it is 0 exactly when there is no guard.
pub state-Encodes :
    {n k : ℕ} {s : System RwLock Pc}
    → Reach Move n init k s
    → Encodes s.mem.state (weigh reads n s.pc) (weigh writes n s.pc)
      × ((s.mem.state ≡ 0) ↔ ((weigh reads n s.pc ≡ 0) × (weigh writes n s.pc ≡ 0)))
state-Encodes r = let e = (Reach-Inv r).encodes in (e, (λ z. ground arith, λ z. ground arith))
