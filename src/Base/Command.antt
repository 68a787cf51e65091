-- ===== src/Base/Command.antt =====
-- Commands on a state: what a call does to the hardware or to the machine, how it ends, and what
-- holds afterwards.
use mathlib.Core.Path.{◌≡◌, refl}
use mathlib.Core.Option.{Option, none, some}

-- A call returns a value, panics, or is still in a polling loop when its rounds are used up.
pub data Outcome (S A : Type 0) : Type 0 where
  done : A → S → Outcome S A
  panicked : Outcome S A
  spinning : Outcome S A

abbrev pub Cmd : Type 0 → Type 0 → Type 0
Cmd S A = S → Outcome S A

abbrev pub ⊤ : Type 0
⊤ = Unit {0}

abbrev pub pure : {S A : Type 0} → A → Cmd S A
pure a s = done a s

abbrev pub panic : {S A : Type 0} → Cmd S A
panic s = panicked

abbrev pub gets : {S A : Type 0} → (S → A) → Cmd S A
gets f s = done (f s) s

abbrev pub modify : {S : Type 0} → (S → S) → Cmd S ⊤
modify f s = done tt (f s)

abbrev pub and_then : {S A B : Type 0} → Outcome S A → (A → Cmd S B) → Outcome S B
and_then (done a s) f = f a s
and_then panicked f = panicked
and_then spinning f = spinning

infixl 5 ◌>>=◌ ◌>>◌
abbrev pub ◌>>=◌ : {S A B : Type 0} → Cmd S A → (A → Cmd S B) → Cmd S B
◌>>=◌ m f s = and_then (m s) f

abbrev pub ◌>>◌ : {S A B : Type 0} → Cmd S A → Cmd S B → Cmd S B
m >> k = m >>= λ _. k

-- A value that is missing is a panic.
abbrev pub or_panic : {S A : Type 0} → Option A → Cmd S A
or_panic none = panic
or_panic (some a) = pure a

-- The call returns, with a value and a state of which `P` holds.
abbrev pub Ends : {S A : Type 0} → Outcome S A → (A → S → Type 0) → Type 0
Ends (done a s) P = P a s
Ends panicked P = ⊥
Ends spinning P = ⊥

module _ {S A : Type 0} where
  pub Ends-bind :
      {B : Type 0} (r : Outcome S A) (f : A → Cmd S B) (P : A → S → Type 0) (Q : B → S → Type 0)
      → Ends r P
      → ((a : A) (s' : S) → P a s' → Ends (f a s') Q)
      → Ends (and_then r f) Q
  Ends-bind (done a s') f P Q h k = k a s' h
  Ends-bind panicked f P Q h k = absurd h
  Ends-bind spinning f P Q h k = absurd h

  pub Ends-weaken :
      (r : Outcome S A) (P Q : A → S → Type 0)
      → Ends r P
      → ((a : A) (s : S) → P a s → Q a s)
      → Ends r Q
  Ends-weaken (done a s) P Q h k = k a s h
  Ends-weaken panicked P Q h k = absurd h
  Ends-weaken spinning P Q h k = absurd h

  -- What a call that ends well returned.
  pub Ends-done :
      (r : Outcome S A) (P : A → S → Type 0) → Ends r P → (a : A) × (s : S) × (r ≡ done a s) × P a s
  Ends-done (done a s) P h = (a, s, refl, h)
  Ends-done panicked P h = absurd h
  Ends-done spinning P h = absurd h
