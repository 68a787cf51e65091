-- ===== src/Smp/Table.antt =====
-- The processors that the table lists, and those of them that are started.
use smp_nostd.Base.{
  ℕ, zero, suc, ◌^◌, ◌≤◌, ◌<◌, ◌≡◌, ◌&&◌, ◌==◌, not, refl, Bool-cases, inl, inr, some, List, [],
  ◌∷◌, length, get_elem?, arith,
}
use smp_nostd.Smp.{MadtLocalApic}
use smp_nostd.Smp.Boot.{enabled_aps}

-- Every identifier is a byte, as in the table.
abbrev pub Bytes : List MadtLocalApic → Type 0
Bytes las = (j : ℕ) (la : MadtLocalApic) → get_elem? las j ≡ some la → la.apic_id < 2 ^ 8

Bytes-cons :
    (la : MadtLocalApic) (las : List MadtLocalApic)
    → la.apic_id < 2 ^ 8
    → Bytes las
    → Bytes (la ∷ las)
Bytes-cons la las h t zero x e = ground arith
Bytes-cons la las h t (suc j) x e = t j x e

-- The enabled processors are some of the table's.
pub enabled_aps-Bytes :
    (bsp : ℕ) (las : List MadtLocalApic)
    → Bytes las
    → Bytes (enabled_aps bsp las) × (length (enabled_aps bsp las) ≤ length las)
unfolding enabled_aps
enabled_aps-Bytes bsp [] h = (λ j la e. h j la e, omega arith)
enabled_aps-Bytes bsp (la ∷ las) h =
    let (bytes, few) = enabled_aps-Bytes bsp las (λ j. h (suc j)) in
    elim (Bool-cases (la.enabled && not (la.apic_id == bsp))) [
      | inl in_ ↦ rw in_ (Bytes-cons la (enabled_aps bsp las) (h 0 la refl) bytes, omega arith)
      | inr out ↦ rw out (bytes, omega arith)
    ]
