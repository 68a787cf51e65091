-- ===== src/RedirectionEntry/Fields.antt =====
-- The fields of an entry are where they were put, and masking touches one bit.
use smp_nostd.Base.{
  ℕ, ◌+◌, ◌-◌, ◌*◌, ◌/◌, ◌%◌, ◌^◌, ◌<◌, ◌≡◌, Bool, true, false, ◌==◌, if◌then◌else◌, arith, bit_or,
}
use smp_nostd.Base.Bits.{bit_or_low, bit_or_bit, bit_and_bit, bit_and_mask, bit_and_not_bit}
use smp_nostd.RedirectionEntry.{RedirectionEntry, new, vector, is_masked, set_masked, destination}

-- The accessors as arithmetic on the word.
pub vector_lem : (e : RedirectionEntry) → vector e ≡ e.raw % 2 ^ 8
unfolding vector
vector_lem e = omega (arith, bit_and_mask 8 e.raw)

pub destination_lem : (e : RedirectionEntry) → destination e ≡ e.raw / 2 ^ 56 % 2 ^ 8
unfolding destination
destination_lem e = omega (arith, bit_and_mask 8 (e.raw / 2 ^ 56))

pub is_masked_lem : (e : RedirectionEntry) → is_masked e ≡ (e.raw / 2 ^ 16 % 2 == 1)
unfolding is_masked
is_masked_lem e = ground (arith, bit_and_bit 16 e.raw)

abbrev bit : Bool → ℕ
bit b = if b then 1 else 0

-- The `|` of fields, each below the next, adds them up.
unmasked :
    (v mode dest_mode polarity trigger dest : ℕ)
    → v < 2 ^ 8
    → mode < 2 ^ 3
    → dest_mode < 2
    → polarity < 2
    → trigger < 2
    → bit_or
        (bit_or
          (bit_or (bit_or (bit_or v (mode * 2 ^ 8)) (dest_mode * 2 ^ 11)) (polarity * 2 ^ 13))
          (trigger * 2 ^ 15))
        (dest * 2 ^ 56)
      ≡ v + mode * 2 ^ 8 + dest_mode * 2 ^ 11 + polarity * 2 ^ 13 + trigger * 2 ^ 15 + dest * 2 ^ 56
unmasked v mode dest_mode polarity trigger dest hv hm hd hp ht =
    rw (at_8, at_11, at_13, at_15, at_56)
  where
    at_8 : bit_or v (mode * 2 ^ 8) ≡ v + mode * 2 ^ 8
    at_8 = omega (arith, bit_or_low 8 mode v hv)

    w11 : ℕ
    w11 = v + mode * 2 ^ 8

    at_11 : bit_or w11 (dest_mode * 2 ^ 11) ≡ w11 + dest_mode * 2 ^ 11
    at_11 = omega (arith, bit_or_low 11 dest_mode w11 (omega arith))

    w13 : ℕ
    w13 = w11 + dest_mode * 2 ^ 11

    at_13 : bit_or w13 (polarity * 2 ^ 13) ≡ w13 + polarity * 2 ^ 13
    at_13 = omega (arith, bit_or_low 13 polarity w13 (omega arith))

    w15 : ℕ
    w15 = w13 + polarity * 2 ^ 13

    at_15 : bit_or w15 (trigger * 2 ^ 15) ≡ w15 + trigger * 2 ^ 15
    at_15 = omega (arith, bit_or_low 15 trigger w15 (omega arith))

    w56 : ℕ
    w56 = w15 + trigger * 2 ^ 15

    at_56 : bit_or w56 (dest * 2 ^ 56) ≡ w56 + dest * 2 ^ 56
    at_56 = omega (arith, bit_or_low 56 dest w56 (omega arith))

-- The word that `new` makes.
abbrev pub packed : (v mode dest_mode polarity trigger : ℕ) (m : Bool) (dest : ℕ) → ℕ
packed v mode dest_mode polarity trigger m dest =
    v
    + mode * 2 ^ 8
    + dest_mode * 2 ^ 11
    + polarity * 2 ^ 13
    + trigger * 2 ^ 15
    + bit m * 2 ^ 16
    + dest * 2 ^ 56

new-raw :
    (v mode dest_mode polarity trigger : ℕ) (m : Bool) (dest : ℕ)
    → v < 2 ^ 8
    → mode < 2 ^ 3
    → dest_mode < 2
    → polarity < 2
    → trigger < 2
    → (new v (mode * 2 ^ 8) (dest_mode * 2 ^ 11) (polarity * 2 ^ 13) (trigger * 2 ^ 15) m dest).raw
      ≡ packed v mode dest_mode polarity trigger m dest
unfolding new
new-raw v mode dest_mode polarity trigger true dest hv hm hd hp ht =
    rw (unmasked v mode dest_mode polarity trigger dest hv hm hd hp ht) (
      omega (
        arith,
        bit_or_bit 16 (
            v
            + mode * 2 ^ 8
            + dest_mode * 2 ^ 11
            + polarity * 2 ^ 13
            + trigger * 2 ^ 15
            + dest * 2 ^ 56),
      ))
new-raw v mode dest_mode polarity trigger false dest hv hm hd hp ht =
    omega (arith, unmasked v mode dest_mode polarity trigger dest hv hm hd hp ht)

-- With each field within its bits, `new` packs them at the offsets of the data sheet into 64 bits, and
-- the accessors give the vector, the mask and the destination back.
pub new-fields :
    (v mode dest_mode polarity trigger : ℕ) (m : Bool) (dest : ℕ)
    → v < 2 ^ 8
    → mode < 2 ^ 3
    → dest_mode < 2
    → polarity < 2
    → trigger < 2
    → dest < 2 ^ 8
    → let e =
        new v (mode * 2 ^ 8) (dest_mode * 2 ^ 11) (polarity * 2 ^ 13) (trigger * 2 ^ 15) m dest in
      (e.raw ≡ packed v mode dest_mode polarity trigger m dest)
      × (vector e ≡ v)
      × (is_masked e ≡ m)
      × (destination e ≡ dest)
      × (e.raw < 2 ^ 64)
new-fields v mode dest_mode polarity trigger true dest hv hm hd hp ht hdest =
    let e =
      new v (mode * 2 ^ 8) (dest_mode * 2 ^ 11) (polarity * 2 ^ 13) (trigger * 2 ^ 15) true dest in
    ground (
      arith,
      new-raw v mode dest_mode polarity trigger true dest hv hm hd hp ht,
      vector_lem e,
      is_masked_lem e,
      destination_lem e,
    )
new-fields v mode dest_mode polarity trigger false dest hv hm hd hp ht hdest =
    let e =
      new v (mode * 2 ^ 8) (dest_mode * 2 ^ 11) (polarity * 2 ^ 13) (trigger * 2 ^ 15) false dest in
    ground (
      arith,
      new-raw v mode dest_mode polarity trigger false dest hv hm hd hp ht,
      vector_lem e,
      is_masked_lem e,
      destination_lem e,
    )

-- The word after `set_masked`.
set_masked-raw :
    (e : RedirectionEntry) (m : Bool)
    → e.raw < 2 ^ 64
    → (set_masked e m).raw ≡ e.raw - e.raw / 2 ^ 16 % 2 * 2 ^ 16 + bit m * 2 ^ 16
unfolding set_masked
set_masked-raw e true h = omega (arith, bit_or_bit 16 e.raw)
set_masked-raw e false h = omega (arith, bit_and_not_bit 47 16 e.raw (omega arith))

-- `set_masked` sets or clears the mask of any 64-bit entry as asked, and leaves all other bits alone;
-- so masking and then unmasking an entry that was not masked gives it back.
pub set_masked_lem :
    (e : RedirectionEntry) (m : Bool)
    → e.raw < 2 ^ 64
    → (is_masked (set_masked e m) ≡ m)
      × ((set_masked e m).raw % 2 ^ 16 ≡ e.raw % 2 ^ 16)
      × ((set_masked e m).raw / 2 ^ 17 ≡ e.raw / 2 ^ 17)
      × (vector (set_masked e m) ≡ vector e)
      × (destination (set_masked e m) ≡ destination e)
      × ((set_masked e m).raw < 2 ^ 64)
      × (is_masked e ≡ m → set_masked e m ≡ e)
set_masked_lem e true h = ground (
  arith,
  set_masked-raw e true h,
  is_masked_lem e,
  is_masked_lem (set_masked e true),
  vector_lem e,
  vector_lem (set_masked e true),
  destination_lem e,
  destination_lem (set_masked e true),
)
set_masked_lem e false h = ground (
  arith,
  set_masked-raw e false h,
  is_masked_lem e,
  is_masked_lem (set_masked e false),
  vector_lem e,
  vector_lem (set_masked e false),
  destination_lem e,
  destination_lem (set_masked e false),
)
