-- ===== src/Once.antt =====
-- src/spinlock.rs, `Once`: the state word, and what a thread does in `call_once`, an atomic access
-- or a run of the closure at a time. The logging is left out.
pub mod Safety
mod Tests
use smp_nostd.Base.{ℕ, ◌+◌, ◌≡◌, ◌≢◌, Bool, ◌==◌}
use smp_nostd.Base.Threads.{System}

abbrev pub once_uninit : ℕ
once_uninit = 0

abbrev pub once_running : ℕ
once_running = 1

abbrev pub once_done : ℕ
once_done = 2

-- The state word, and how often a closure has run to its end under this `Once`.
pub record Once : Type 0 where
  pub state : ℕ
  pub runs : ℕ

-- `Once::new`
abbrev pub new : Once
new = record { state = once_uninit; runs = 0 }

pub data Pc : Type 0 where
  outside : Pc  -- no call yet
  attempting : Pc  -- before the compare-exchange
  running : Pc  -- before `f()`
  finishing : Pc  -- before the store of ONCE_DONE
  spinning : Pc  -- the loop of a thread that lost
  returned : Pc  -- `call_once` has returned

pub data Move (o : Once) : Pc → Once → Pc → Type 0 where
  skip : o.state ≡ once_done → Move o outside o returned
  attempt : o.state ≢ once_done → Move o outside o attempting
  win : o.state ≡ once_uninit → Move o attempting (record o { state = once_running }) running
  lose : o.state ≢ once_uninit → Move o attempting o spinning
  call : Move o running (record o { runs = o.runs + 1 }) finishing
  finish : Move o finishing (record o { state = once_done }) returned
  spin : o.state ≢ once_done → Move o spinning o spinning
  leave : o.state ≡ once_done → Move o spinning o returned
  again : Move o returned o outside

-- `is_completed`
pub is_completed : Once → Bool
is_completed o = o.state == once_done

abbrev pub init : System Once Pc
init = record { mem = new; pc = λ _. outside }
