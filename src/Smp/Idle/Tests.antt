-- ===== src/Smp/Idle/Tests.antt =====
-- A processor in the idle loop that is asked to halt.
use smp_nostd.Base.{List, [], ◌∷◌}
use smp_nostd.Smp.Idle.{Event, own_turn, interrupt}

-- The processor is asleep when it is asked to halt, and another interrupt comes while it wakes up.
abbrev eight_turns : List Event
eight_turns =
    own_turn ∷ own_turn ∷ interrupt ∷ own_turn ∷ own_turn ∷ own_turn ∷ own_turn ∷ own_turn
    ∷ own_turn ∷ []

abbrev asleep : List Event
asleep = own_turn ∷ own_turn ∷ own_turn ∷ []
