-- ===== src/RedirectionEntry/Tests.antt =====
-- The keyboard interrupt: vector 0x21, lowest priority delivery, level triggered, APIC 3, masked.
use smp_nostd.Base.{◌^◌, ◌<◌, true, arith}
use smp_nostd.RedirectionEntry.{
  delmode_lowest, destmode_physical, polarity_high, trigger_level, RedirectionEntry, new,
}
use smp_nostd.RedirectionEntry.Fields.{new-fields}

abbrev keyboard : RedirectionEntry
keyboard = new 0x21 delmode_lowest destmode_physical polarity_high trigger_level true 3

keyboard-lt : keyboard.raw < 2 ^ 64
keyboard-lt =
    (new-fields 0x21 1 0 0 1 true 3 (omega arith) (omega arith) (omega arith) (omega arith)
      (omega arith) (omega arith)).4
