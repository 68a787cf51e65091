-- ===== src/Smp/Idle/Halting.antt =====
-- The idle loop of `ap_entry`, src/driver.rs: a request to halt is not missed.
use smp_nostd.Base.{ℕ, suc, ◌≡◌, Bool, true, List, [], ◌∷◌}
use smp_nostd.Smp.Idle.{
  Pc, checking, stopping, halting, halted, enabling, resting, exposed, waiting, handling, disabling,
  Idle, Event, own_turn, request_halt, interrupt, nmi,
}

-- The turns of the processor among the events.
unfoldable pub turns : List Event → ℕ
turns [] = 0
turns (own_turn ∷ es) = suc (turns es)
turns (request_halt ∷ es) = turns es
turns (interrupt ∷ es) = turns es
turns (nmi ∷ es) = turns es

-- The turns until the `hlt` of a halt, once one is requested.
distance : Pc → ℕ
distance halted = 0
distance halting = 1
distance stopping = 2
distance checking = 3
distance disabling = 4
distance handling = 5
distance waiting = 6
distance resting = 7
distance exposed = 7
distance enabling = 8

-- The processor will not sleep before it has looked at AP_HALT again.
awake : Pc → (pending : Bool) → Bool
awake enabling pending = pending
awake resting pending = pending
awake exposed pending = true
awake waiting pending = pending
awake checking pending = true
awake stopping pending = true
awake halting pending = true
awake halted pending = true
awake handling pending = true
awake disabling pending = true

record Stopping (s : Idle) : Type 0 where
  requested : s.ap_halt ≡ true
  alert : awake s.at s.pending ≡ true
