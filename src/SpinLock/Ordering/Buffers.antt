-- ===== src/SpinLock/Ordering/Buffers.antt =====
-- The stores in the buffer of a processor that has a `SpinLock`: what they say of the lock, and what a load
-- of the data gives.
use smp_nostd.Base.{ℕ, ◌≡◌, refl, Bool, true, false, List, [], ◌∷◌, ◌++◌}
use smp_nostd.SpinLock.Ordering.{Pc, outside, holding, Write, set_data, set_unlocked, read_data}

-- Stores to the data only.
unfoldable pub plain : List Write → Bool
plain [] = true
plain (set_data v ∷ ws) = plain ws
plain (set_unlocked ∷ ws) = false

-- Stores to the data, and then the one that frees the lock.
unfoldable pub closing : List Write → Bool
closing [] = false
closing (set_data v ∷ ws) = closing ws
closing (set_unlocked ∷ []) = true
closing (set_unlocked ∷ w ∷ ws) = false

-- A processor has the lock as long as the store that frees it is in its buffer.
unfoldable pub owns : Pc → List Write → Bool
owns outside ws = closing ws
owns holding ws = plain ws

pub plain-write : (ws : List Write) (v : ℕ) → plain ws ≡ true → plain (ws ++ set_data v ∷ []) ≡ true
unfolding plain
plain-write [] v h = refl
plain-write (set_data w ∷ ws) v h = plain-write ws v h
plain-write (set_unlocked ∷ ws) v h = cc

pub closing-unlock : (ws : List Write) → plain ws ≡ true → closing (ws ++ set_unlocked ∷ []) ≡ true
unfolding plain closing
closing-unlock [] h = refl
closing-unlock (set_data w ∷ ws) h = closing-unlock ws h
closing-unlock (set_unlocked ∷ ws) h = cc

pub read_data-write : (ws : List Write) (v d : ℕ) → read_data (ws ++ set_data v ∷ []) d ≡ v
unfolding read_data
read_data-write [] v d = refl
read_data-write (set_data w ∷ ws) v d = read_data-write ws v w
read_data-write (set_unlocked ∷ ws) v d = read_data-write ws v d

pub read_data-unlock :
    (ws : List Write) (d : ℕ) → read_data (ws ++ set_unlocked ∷ []) d ≡ read_data ws d
unfolding read_data
read_data-unlock [] d = refl
read_data-unlock (set_data w ∷ ws) d = read_data-unlock ws w
read_data-unlock (set_unlocked ∷ ws) d = read_data-unlock ws d

pub closing-unlocked : (ws : List Write) → closing (set_unlocked ∷ ws) ≡ true → ws ≡ []
unfolding closing
closing-unlocked [] h = refl
closing-unlocked (w ∷ ws) h = cc
