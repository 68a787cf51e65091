-- ===== src/SpinLock/Nesting.antt =====
-- The guards of several spinlocks alive on one CPU: each remembers the interrupt flag that it found,
-- `interrupts_were_enabled`, and restores it when it is dropped.
use smp_nostd.Base.{ℕ, ◌^◌, ◌<◌, ◌≡◌, ◌∙◌, refl, sym, ap, Bool, false, List, [], ◌∷◌}
use smp_nostd.Interrupts.{
  interrupts_enabled, disable_interrupts, restore_interrupts, restore_interrupts-disable,
}

-- The guards that are alive on a CPU, the youngest first, and its flags, which were `r0` with no guard: calls of
-- `lock` and `try_lock` on any spinlocks, and drops of the youngest guard, in any order.
pub data Nested (r0 : ℕ) : List Bool → ℕ → Type 0 where
  outside : Nested r0 [] r0
  locked :
      {guards : List Bool} {r : ℕ}
      → Nested r0 guards r
      → Nested r0 ((disable_interrupts r).0 ∷ guards) (disable_interrupts r).1
  refused :
      {guards : List Bool} {r : ℕ}
      → Nested r0 guards r
      → Nested r0 guards (restore_interrupts (disable_interrupts r).0 (disable_interrupts r).1)
  dropped :
      {g : Bool} {guards : List Bool} {r : ℕ}
      → Nested r0 (g ∷ guards) r
      → Nested r0 guards (restore_interrupts g r)

-- Each guard has what `disable_interrupts` made of the flags from before it.
Kept : (r0 : ℕ) → List Bool → (r : ℕ) → Type 0
Kept r0 [] r = r ≡ r0
Kept r0 (g ∷ guards) r =
    (before : ℕ) × (before < 2 ^ 64) × Kept r0 guards before × (disable_interrupts before ≡ (g, r))

Nested-Kept :
    {r0 : ℕ} {guards : List Bool} {r : ℕ}
    → r0 < 2 ^ 64
    → Nested r0 guards r
    → (r < 2 ^ 64) × Kept r0 guards r
unfolding Kept
Nested-Kept fits outside = (fits, refl)
Nested-Kept fits (locked {r = r} nest) =
    let (lt, kept) = Nested-Kept fits nest in
    ((restore_interrupts-disable r lt).3, (r, lt, kept, refl))
Nested-Kept fits (refused {r = r} nest) =
    let (lt, kept) = Nested-Kept fits nest in rw ((restore_interrupts-disable r lt).2) (lt, kept)
Nested-Kept fits (dropped {g = g} {guards = guards} {r = r} nest) =
    let (lt, (before, lt', kept, e)) = Nested-Kept fits nest in
    let back : restore_interrupts g r ≡ before =
      ap (λ (x : Bool × ℕ). restore_interrupts x.0 x.1) (sym e)
      ∙ (restore_interrupts-disable before lt').2 in
    rw back (lt', kept)

-- With no guard the flags are as they were; with one, interrupts are off.
abbrev pub Flagged : (r0 : ℕ) → List Bool → (r : ℕ) → Type 0
Flagged r0 [] r = r ≡ r0
Flagged r0 (g ∷ guards) r = interrupts_enabled r ≡ false

Kept-Flagged : (r0 r : ℕ) (guards : List Bool) → Kept r0 guards r → Flagged r0 guards r
unfolding Kept
Kept-Flagged r0 r [] kept = kept
Kept-Flagged r0 r (g ∷ guards) (before, lt, kept, e) =
    ap (λ (x : Bool × ℕ). interrupts_enabled x.1) (sym e) ∙ (restore_interrupts-disable before lt).1

-- On a CPU with flags of 64 bits, of any number of guards of spinlocks, the youngest always dropped first, and
-- with attempts of `try_lock` that fail among them: as long as a guard is alive interrupts are off, and
-- with none the flags are as they were before the first one.
pub Nested-Flagged :
    {r0 r : ℕ} {guards : List Bool} → r0 < 2 ^ 64 → Nested r0 guards r → Flagged r0 guards r
Nested-Flagged {r0} {r} {guards} fits nest = Kept-Flagged r0 r guards (Nested-Kept fits nest).1
