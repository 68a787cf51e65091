-- ===== src/Smp/Idle.antt =====
-- src/driver.rs, the idle loop of `ap_entry`, on the flags register of its processor. A processor that sleeps in
-- `hlt` goes on when an interrupt is pending that its flags let through; a handler returns to the instruction
-- after the `hlt`, with the flags as they were. The trace message is left out.
pub mod Masking
pub mod Halting
mod Tests
use smp_nostd.Base.{ℕ, Bool, true, false, List, [], ◌∷◌, if◌then◌else◌, ◌&&◌}
use smp_nostd.Interrupts.{interrupts_enabled, cli, sti}

-- Where the processor is: at the instruction that comes next, or asleep in a `hlt`.
pub data Pc : Type 0 where
  checking : Pc  -- AP_HALT.load
  stopping : Pc  -- cli, in the branch of a halt
  halting : Pc  -- hlt, there
  halted : Pc  -- asleep in it
  enabling : Pc  -- sti
  resting : Pc  -- hlt, which an interrupt waits for after the sti
  exposed : Pc  -- hlt, no longer shadowed by the sti
  waiting : Pc  -- asleep in it
  handling : Pc  -- the handler of an interrupt
  disabling : Pc  -- cli, after it

-- A processor with its pending interrupt, and the flag that it shares with the others.
pub record Idle : Type 0 where
  pub at : Pc
  pub rflags : ℕ
  pub pending : Bool
  pub ap_halt : Bool

-- `ap_entry` enters the loop with interrupts off.
unfoldable pub entered : (rflags : ℕ) (pending ap_halt : Bool) → Idle
entered rflags pending ap_halt = record {
  at = checking;
  rflags = cli rflags;
  pending = pending;
  ap_halt = ap_halt;
}

-- What the processor does next. With interrupts on, one that is pending is taken before the `hlt` of `exposed`,
-- and before the `cli` after a handler.
unfoldable pub turn : (at : Pc) → Idle → Idle
turn checking s = record s { at = if s.ap_halt then stopping else enabling }
turn stopping s = record s { at = halting; rflags = cli s.rflags }
turn halting s = record s { at = halted }
turn halted s =
    if interrupts_enabled s.rflags && s.pending
    then record s { at = enabling; pending = false }
    else s
turn enabling s = record s { at = resting; rflags = sti s.rflags }
turn resting s = record s { at = waiting }
turn exposed s = record s { at = waiting; pending = false }
turn waiting s =
    if interrupts_enabled s.rflags && s.pending
    then record s { at = handling; pending = false }
    else s
turn handling s = record s { at = disabling }
turn disabling s = record s { at = checking; rflags = cli s.rflags; pending = false }

-- What happens: a turn of the processor, the store of `halt_aps`, a maskable interrupt that the local APIC of the
-- processor accepts (of `spawn_on` or a device), or a non-maskable interrupt. The interrupt that `halt_aps`
-- sends is not one of them: its vector, 2, is none that an APIC accepts.
pub data Event : Type 0 where
  own_turn : Event
  request_halt : Event
  interrupt : Event
  nmi : Event

-- The handler of a non-maskable interrupt returns to the instruction that comes next, after the `hlt` if the
-- processor is asleep in one. It may end the shadow of the `sti`.
unfoldable pub after_nmi : Pc → Pc
after_nmi halted = enabling
after_nmi waiting = disabling
after_nmi resting = exposed
after_nmi at = at

unfoldable pub happen : Event → Idle → Idle
unfolding turn after_nmi
happen own_turn s = turn s.at s
happen request_halt s = record s { ap_halt = true }
happen interrupt s = record s { pending = true }
happen nmi s = record s { at = after_nmi s.at }

unfoldable pub run : List Event → Idle → Idle
run [] s = s
run (e ∷ es) s = run es (happen e s)
