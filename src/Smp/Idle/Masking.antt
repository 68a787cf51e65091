-- ===== src/Smp/Idle/Masking.antt =====
-- The idle loop of `ap_entry`, src/driver.rs: where interrupts are on and where they are off.
use smp_nostd.Base.{ℕ, ◌^◌, ◌<◌, ◌≡◌, subst, Bool, true, false, List, [], ◌∷◌}
use smp_nostd.Interrupts.{interrupts_enabled, enabled-cli, enabled-sti, cli-lt, sti-lt}
use smp_nostd.Smp.Idle.{
  Pc, checking, stopping, halting, halted, enabling, resting, exposed, waiting, handling, disabling,
  Idle, Event, own_turn, request_halt, interrupt, nmi, entered, turn, happen, run,
}

-- How interrupts are at each instruction: on from the `sti` to the `cli` after a handler, off where AP_HALT is
-- read and in the `hlt` of a halt. Without a non-maskable interrupt the shadow of the `sti` lasts to the `hlt`.
unfoldable pub Flags : Pc → ℕ → Type 0
Flags checking r = interrupts_enabled r ≡ false
Flags stopping r = interrupts_enabled r ≡ false
Flags halting r = interrupts_enabled r ≡ false
Flags halted r = interrupts_enabled r ≡ false
Flags enabling r = interrupts_enabled r ≡ false
Flags resting r = interrupts_enabled r ≡ true
Flags exposed r = true ≡ false
Flags waiting r = interrupts_enabled r ≡ true
Flags handling r = interrupts_enabled r ≡ true
Flags disabling r = interrupts_enabled r ≡ true

-- No non-maskable interrupt among the events.
unfoldable pub calm : List Event → Bool
calm [] = true
calm (own_turn ∷ es) = calm es
calm (request_halt ∷ es) = calm es
calm (interrupt ∷ es) = calm es
calm (nmi ∷ es) = false

pub record Sound (s : Idle) : Type 0 where
  pub flags : Flags s.at s.rflags
  pub width : s.rflags < 2 ^ 64

turn-Sound :
    (at : Pc) (r : ℕ) (p h : Bool)
    → Flags at r
    → r < 2 ^ 64
    → Sound (turn at (record { at = at; rflags = r; pending = p; ap_halt = h }))
unfolding turn Flags
turn-Sound checking r p true f lt = record { flags = f; width = lt }
turn-Sound checking r p false f lt = record { flags = f; width = lt }
turn-Sound stopping r p h f lt = record { flags = enabled-cli r lt; width = cli-lt r lt }
turn-Sound halting r p h f lt = record { flags = f; width = lt }
turn-Sound halted r p h f lt = rw f (record { flags = f; width = lt })
turn-Sound enabling r p h f lt = record { flags = enabled-sti r; width = sti-lt r lt }
turn-Sound resting r p h f lt = record { flags = f; width = lt }
turn-Sound exposed r p h f lt = cc
turn-Sound waiting r true h f lt = rw f (record { flags = f; width = lt })
turn-Sound waiting r false h f lt = rw f (record { flags = f; width = lt })
turn-Sound handling r p h f lt = record { flags = f; width = lt }
turn-Sound disabling r p h f lt = record { flags = enabled-cli r lt; width = cli-lt r lt }

pub own_turn-Sound : (s : Idle) → Sound s → Sound (turn s.at s)
own_turn-Sound s sound = turn-Sound s.at s.rflags s.pending s.ap_halt sound.flags sound.width

pub run-Sound : (es : List Event) (s : Idle) → calm es ≡ true → Sound s → Sound (run es s)
unfolding run happen calm
run-Sound [] s quiet sound = sound
run-Sound (own_turn ∷ es) s quiet sound = run-Sound es (turn s.at s) quiet (own_turn-Sound s sound)
run-Sound (request_halt ∷ es) s quiet sound =
    run-Sound es (record s { ap_halt = true }) quiet
      (record { flags = sound.flags; width = sound.width })
run-Sound (interrupt ∷ es) s quiet sound =
    run-Sound es (record s { pending = true }) quiet
      (record { flags = sound.flags; width = sound.width })
run-Sound (nmi ∷ es) s quiet sound = cc

pub entered-Sound : (r : ℕ) (p h : Bool) → r < 2 ^ 64 → Sound (entered r p h)
unfolding entered Flags
entered-Sound r p h lt = record { flags = enabled-cli r lt; width = cli-lt r lt }

pub halted-Flags : (s : Idle) → Sound s → s.at ≡ halted → interrupts_enabled s.rflags ≡ false
unfolding Flags
halted-Flags s sound e = subst (λ (at : Pc). Flags at s.rflags) e sound.flags
