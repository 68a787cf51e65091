-- ===== src/Once/Safety.antt =====
-- The closure runs once, and nobody returns before it has run.
use smp_nostd.Base.{ℕ, ◌+◌, ◌≤◌, ◌<◌, ◌≡◌, ◌≢◌, ◌⊎◌, inl, inr, refl, true, false, arith, dec_lt}
use smp_nostd.Base.Threads.{
  update, update-Each, weigh, weigh-update, weight-le, weigh-some, weigh-zero, System, Reach, pick,
  here, next,
}
use smp_nostd.Once.{
  Once, once_uninit, once_running, once_done, Pc, outside, running, finishing, spinning, returned,
  Move, skip, win, lose, call, finish, leave, is_completed, init,
}

-- A thread between the compare-exchange that it won and the store of ONCE_DONE, before and after
-- the closure.
abbrev pub is_running : Pc → ℕ
is_running running = 1
is_running _ = 0

abbrev pub is_finishing : Pc → ℕ
is_finishing finishing = 1
is_finishing _ = 0

-- The state word, the number of runs, and the threads that are before or after the closure.
abbrev Phase : Once → (before after : ℕ) → Type 0
Phase o before after =
    ((o.state ≡ once_uninit) × (o.runs ≡ 0) × (before ≡ 0) × (after ≡ 0))
    ⊎ ((o.state ≡ once_running) × (o.runs ≡ after) × (before + after ≡ 1))
    ⊎ ((o.state ≡ once_done) × (o.runs ≡ 1) × (before ≡ 0) × (after ≡ 0))

-- A thread has lost the compare-exchange only to another, and returns only when all is done.
abbrev Seen : Once → Pc → Type 0
Seen o spinning = o.state ≢ once_uninit
Seen o returned = o.state ≡ once_done
Seen o _ = Unit

Move-Phase :
    {o o' : Once} {p p' : Pc} (b a b' a' : ℕ)
    → Move o p o' p'
    → Seen o p
    → Phase o b a
    → is_running p ≤ b
    → is_finishing p ≤ a
    → b' + is_running p ≡ b + is_running p'
    → a' + is_finishing p ≡ a + is_finishing p'
    → Phase o' b' a' × Seen o' p'
Move-Phase b a b' a' (win g) k h hb ha eb ea = ground arith
Move-Phase b a b' a' call k h hb ha eb ea = ground arith
Move-Phase b a b' a' finish k h hb ha eb ea = ground arith
Move-Phase b a b' a' (skip g) k h hb ha eb ea = ground arith
Move-Phase b a b' a' (lose g) k h hb ha eb ea = ground arith
Move-Phase b a b' a' (leave g) k h hb ha eb ea = ground arith
Move-Phase b a b' a' mv k h hb ha eb ea = ground arith

-- What another thread has seen stays true.
Move-Seen :
    {o o' : Once} {p p' : Pc} (q : Pc) (b a : ℕ)
    → Move o p o' p'
    → Phase o b a
    → is_running p ≤ b
    → is_finishing p ≤ a
    → Seen o q
    → Seen o' q
Move-Seen q b a (win g) h hb ha k = ground arith
Move-Seen q b a call h hb ha k = k
Move-Seen q b a finish h hb ha k = ground arith
Move-Seen q b a mv h hb ha k = k

pub record Inv (n : ℕ) (o : Once) (pc : ℕ → Pc) : Type 0 where
  pub phase : Phase o (weigh is_running n pc) (weigh is_finishing n pc)
  pub seen : (i : ℕ) → Seen o (pc i)

Move-Inv :
    {n : ℕ} {o o' : Once} {pc : ℕ → Pc} {p' : Pc} (i : ℕ)
    → i < n
    → Inv n o pc
    → Move o (pc i) o' p'
    → Inv n o' (update pc i p')
Move-Inv {n} {o' = o'} {pc = pc} {p' = p'} i lt inv mv =
    let before = weigh is_running n pc in
    let after = weigh is_finishing n pc in
    let hb = weight-le is_running n pc i lt in
    let ha = weight-le is_finishing n pc i lt in
    let (phase, seen) =
      Move-Phase before after (weigh is_running n (update pc i p'))
        (weigh is_finishing n (update pc i p')) mv (inv.seen i) inv.phase hb ha
        (weigh-update is_running n pc i p' lt) (weigh-update is_finishing n pc i p' lt) in
    record {
      phase = phase;
      seen =
          update-Each (λ _ p. Seen o' p) pc i p'
            (λ j. Move-Seen (pc j) before after mv inv.phase hb ha (inv.seen j)) seen;
    }

pub Reach-Inv : {n k : ℕ} {s : System Once Pc} → Reach Move n init k s → Inv n s.mem s.pc
Reach-Inv {n} here = record {
  phase = omega (
    arith,
    weigh-zero is_running n (λ _. outside) (λ i. refl),
    weigh-zero is_finishing n (λ _. outside) (λ i. refl),
  );
  seen = λ i. tt;
}
Reach-Inv (next r (pick i lt mv)) = Move-Inv i lt (Reach-Inv r) mv

-- In any run of any number of threads a closure has run at most once; where some thread's call has
-- returned it has run, and `is_completed` says so.
pub exactly_once :
    {n k : ℕ} {s : System Once Pc}
    → Reach Move n init k s
    → (s.mem.runs ≤ 1)
      × ((i : ℕ) → s.pc i ≡ returned → (s.mem.runs ≡ 1) × (is_completed s.mem ≡ true))
      × (is_completed s.mem ≡ true → s.mem.runs ≡ 1)
unfolding is_completed
exactly_once {n} {s = s} r =
    let inv = Reach-Inv r in
    (
      ground (arith, inv.phase),
      λ i e. ground (arith, inv.phase, inv.seen i),
      λ e. ground (arith, inv.phase),
    )

-- In any run, while a thread waits in the loop and the closure is not done, some other thread is about
-- to run the closure or to publish that it has: the wait is for a thread that can go on.
pub spinning-progress :
    {n k : ℕ} {s : System Once Pc} (i : ℕ)
    → Reach Move n init k s
    → s.pc i ≡ spinning
    → is_completed s.mem ≡ false
    → (j : ℕ) × (j < n) × ((s.pc j ≡ running) ⊎ (s.pc j ≡ finishing))
unfolding is_completed
spinning-progress {n} {s = s} i r e d =
    let inv = Reach-Inv r in
    elim (dec_lt 0 (weigh is_running n s.pc)) [
      | yes early ↦
          let (j, lt, pos) = weigh-some is_running n s.pc early in (j, lt, inl (ground arith))
      | no late ↦
          let (j, lt, pos) =
            weigh-some is_finishing n s.pc (ground (arith, inv.phase, inv.seen i)) in
          (j, lt, inr (ground arith))
    ]
