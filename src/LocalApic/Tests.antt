-- ===== src/LocalApic/Tests.antt =====
-- The theorems on the local APIC at the small one.
use smp_nostd.Base.{release, arith}
use smp_nostd.Base.Command.{Ends}
use smp_nostd.LocalApic.Small.{apic_hw, apic_dev, apic, driver, driver-fits}
use smp_nostd.LocalApic.Ipi.{send_ipi}
use smp_nostd.LocalApic.Sending.{Sent, send_ipi-Sent}

send_ipi-Sent_example :
    Ends
      (send_ipi apic_hw release 2 driver 3 0xFE apic)
      (λ _ d'. Sent apic_hw release driver driver-fits apic_dev 3 0xFE apic d')
unfolding apic_dev
send_ipi-Sent_example =
    send_ipi-Sent apic_hw release driver driver-fits apic_dev 2 3 0xFE apic (omega arith)
      (omega arith) (omega arith)
