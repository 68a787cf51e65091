-- ===== src/TicketLock/Invariant.antt =====
-- Who has which ticket, in a run of fewer than 2^64 moves, in which no counter wraps.
use smp_nostd.Base.{ℕ, suc, ◌^◌, ◌≤◌, ◌<◌, ◌≡◌, ◌≢◌, refl, Option, none, some, arith, dec_lt}
use smp_nostd.Base.Threads.{update, System, Reach, pick, here, next}
use smp_nostd.TicketLock.{
  TicketLock, Pc, waiting, loaded, compared, holding, Move, take, spin, enter, differ, agree, win,
  lose, unlock, init,
}

-- The thread that holds the lock has the ticket that is being served.
abbrev pub ticket_of : TicketLock → Pc → Option ℕ
ticket_of l (waiting t) = some t
ticket_of l holding = some l.now_serving
ticket_of l _ = none

-- What `try_lock` has read is not ahead of the ticket that is being served.
abbrev IsPast : TicketLock → Pc → Type 0
IsPast l (loaded c) = c ≤ l.now_serving
IsPast l (compared c) = c ≤ l.now_serving
IsPast l _ = Unit

pub record Inv (k : ℕ) (l : TicketLock) (pc : ℕ → Pc) : Type 0 where
  pub few : l.next_ticket ≤ k
  pub order : l.now_serving ≤ l.next_ticket
  pub range : (i t : ℕ) → ticket_of l (pc i) ≡ some t → (l.now_serving ≤ t) × (t < l.next_ticket)
  pub unique : (i j t : ℕ) → ticket_of l (pc i) ≡ some t → ticket_of l (pc j) ≡ some t → i ≡ j
  pub covered :
      (t : ℕ) → l.now_serving ≤ t → t < l.next_ticket → (i : ℕ) × (ticket_of l (pc i) ≡ some t)
  pub past : (i : ℕ) → IsPast l (pc i)

-- What a move needs of the thread that makes it.
abbrev Guard : {l l' : TicketLock} {p p' : Pc} → Move l p l' p' → Type 0
Guard {l} (spin {ticket = t} _) = l.now_serving ≢ t
Guard {l} (enter {ticket = t} _) = l.now_serving ≡ t
Guard {l} (differ {current = c} _) = c ≢ l.next_ticket
Guard {l} (agree {current = c} _) = c ≡ l.next_ticket
Guard {l} (win {next = c} _) = l.next_ticket ≡ c
Guard {l} (lose {next = c} _) = l.next_ticket ≢ c
Guard _ = Unit

guard : {l l' : TicketLock} {p p' : Pc} (mv : Move l p l' p') → Guard mv
guard (spin g) = g
guard (enter g) = g
guard (differ g) = g
guard (agree g) = g
guard (win g) = g
guard (lose g) = g
guard _ = tt

module _ {k : ℕ} (small : suc k < 2 ^ 64) {l : TicketLock} {pc : ℕ → Pc} (inv : Inv k l pc)
    (i : ℕ) where
  open inv use {few, order, range, unique, covered, past}

  abbrev Here : Pc → Type 0
  Here p = pc i ≡ p

  keep-order :
      {p p' : Pc} {l' : TicketLock}
      → Move l p l' p'
      → Here p
      → (l'.next_ticket ≤ suc k) × (l'.now_serving ≤ l'.next_ticket)
  keep-order unlock e = ground (arith, range i l.now_serving)
  keep-order mv e = ground (arith, guard mv)

  keep-range :
      {p p' : Pc} {l' : TicketLock}
      → Move l p l' p'
      → Here p
      → (j t : ℕ) → ticket_of l' (update pc i p' j) ≡ some t
      → (l'.now_serving ≤ t) × (t < l'.next_ticket)
  keep-range take e j t q = ground (arith, range j t)
  keep-range mv e j t q = ground (
    arith,
    guard mv,
    range j t,
    range i t,
    past i,
    unique i j l.now_serving,
    range i l.now_serving,
  )

  keep_unique :
      {p p' : Pc} {l' : TicketLock}
      → Move l p l' p'
      → Here p
      → (a b t : ℕ) → ticket_of l' (update pc i p' a) ≡ some t
      → ticket_of l' (update pc i p' b) ≡ some t
      → a ≡ b
  keep_unique take e a b t qa qb = ground (arith, range a t, range b t, unique a b t)
  keep_unique mv e a b t qa qb = ground (
    arith,
    guard mv,
    range a t,
    range b t,
    past i,
    unique a b t,
    unique i a l.now_serving,
    unique i b l.now_serving,
  )

  keep-IsPast :
      {p p' : Pc} {l' : TicketLock}
      → Move l p l' p'
      → Here p
      → (j : ℕ) → IsPast l' (update pc i p' j)
  keep-IsPast take e j = ground (arith, past j)
  keep-IsPast mv e j = ground (arith, guard mv, past j, past i)

  keep-covered :
      {p p' : Pc} {l' : TicketLock}
      → Move l p l' p'
      → Here p
      → (t : ℕ) → l'.now_serving ≤ t
      → t < l'.next_ticket
      → (j : ℕ) × (ticket_of l' (update pc i p' j) ≡ some t)
  keep-covered take e t lo hi = elim (dec_lt t l.next_ticket) [
    | yes old ↦ let (j, has) = covered t lo old in (j, ground arith)
    | no new ↦ (i, ground arith)
  ]
  keep-covered (win g) e t lo hi = (i, ground (arith, past i))
  keep-covered unlock e t lo hi = let (j, has) = covered t (omega arith) hi in (j, ground arith)
  keep-covered mv e t lo hi = let (j, has) = covered t lo hi in (j, ground (arith, guard mv))

  pub Move-Inv : {p' : Pc} {l' : TicketLock} → Move l (pc i) l' p' → Inv (suc k) l' (update pc i p')
  Move-Inv mv = record {
    few = (keep-order mv refl).0;
    order = (keep-order mv refl).1;
    range = keep-range mv refl;
    unique = keep_unique mv refl;
    covered = keep-covered mv refl;
    past = keep-IsPast mv refl;
  }

Inv-init : Inv 0 init.mem init.pc
Inv-init = record {
  few = omega arith;
  order = omega arith;
  range = λ i t q. cc;
  unique = λ i j t q r. cc;
  covered = λ t lo hi. absurd (omega arith);
  past = λ i. tt;
}

-- Every state that is reached in fewer than 2^64 moves has the invariant.
pub Reach-Inv :
    {n k : ℕ} {s : System TicketLock Pc} → Reach Move n init k s → k < 2 ^ 64 → Inv k s.mem s.pc
Reach-Inv here h = Inv-init
Reach-Inv (next r (pick i lt mv)) h = Move-Inv h (Reach-Inv r (omega arith)) i mv
