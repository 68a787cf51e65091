-- ===== src/LocalApic/Registers.antt =====
-- The registers of the local APIC by their offset, the fields of the interrupt command register and
-- of the local vector table, and the bits of IA32_APIC_BASE.
use smp_nostd.Base.{ℕ, ◌*◌, ◌^◌}

abbrev pub ia32_apic_base_msr : ℕ
ia32_apic_base_msr = 0x1B

abbrev pub apic_base_bsp : ℕ
apic_base_bsp = 2 ^ 8

abbrev pub apic_base_x2apic_enable : ℕ
apic_base_x2apic_enable = 2 ^ 10

abbrev pub apic_base_enable : ℕ
apic_base_enable = 2 ^ 11

abbrev pub apic_base_addr_mask : ℕ
apic_base_addr_mask = 0x000FFFFFFFFFF000

abbrev pub reg_id : ℕ
reg_id = 0x020

abbrev pub reg_version : ℕ
reg_version = 0x030

abbrev pub reg_tpr : ℕ
reg_tpr = 0x080

abbrev pub reg_apr : ℕ
reg_apr = 0x090

abbrev pub reg_ppr : ℕ
reg_ppr = 0x0A0

abbrev pub reg_eoi : ℕ
reg_eoi = 0x0B0

abbrev pub reg_rrd : ℕ
reg_rrd = 0x0C0

abbrev pub reg_ldr : ℕ
reg_ldr = 0x0D0

abbrev pub reg_dfr : ℕ
reg_dfr = 0x0E0

abbrev pub reg_svr : ℕ
reg_svr = 0x0F0

abbrev pub reg_isr_base : ℕ
reg_isr_base = 0x100

abbrev pub reg_tmr_base : ℕ
reg_tmr_base = 0x180

abbrev pub reg_irr_base : ℕ
reg_irr_base = 0x200

abbrev pub reg_error_status : ℕ
reg_error_status = 0x280

abbrev pub reg_lvt_cmci : ℕ
reg_lvt_cmci = 0x2F0

abbrev pub reg_icr_low : ℕ
reg_icr_low = 0x300

abbrev pub reg_icr_high : ℕ
reg_icr_high = 0x310

abbrev pub reg_lvt_timer : ℕ
reg_lvt_timer = 0x320

abbrev pub reg_lvt_thermal : ℕ
reg_lvt_thermal = 0x330

abbrev pub reg_lvt_perf : ℕ
reg_lvt_perf = 0x340

abbrev pub reg_lvt_lint0 : ℕ
reg_lvt_lint0 = 0x350

abbrev pub reg_lvt_lint1 : ℕ
reg_lvt_lint1 = 0x360

abbrev pub reg_lvt_error : ℕ
reg_lvt_error = 0x370

abbrev pub reg_timer_initial : ℕ
reg_timer_initial = 0x380

abbrev pub reg_timer_current : ℕ
reg_timer_current = 0x390

abbrev pub reg_timer_divide : ℕ
reg_timer_divide = 0x3E0

abbrev pub icr_fixed : ℕ
icr_fixed = 0b000 * 2 ^ 8

abbrev pub icr_lowest_priority : ℕ
icr_lowest_priority = 0b001 * 2 ^ 8

abbrev pub icr_smi : ℕ
icr_smi = 0b010 * 2 ^ 8

abbrev pub icr_nmi : ℕ
icr_nmi = 0b100 * 2 ^ 8

abbrev pub icr_init : ℕ
icr_init = 0b101 * 2 ^ 8

abbrev pub icr_startup : ℕ
icr_startup = 0b110 * 2 ^ 8

abbrev pub icr_dest_physical : ℕ
icr_dest_physical = 0 * 2 ^ 11

abbrev pub icr_dest_logical : ℕ
icr_dest_logical = 1 * 2 ^ 11

abbrev pub icr_level_deassert : ℕ
icr_level_deassert = 0 * 2 ^ 14

abbrev pub icr_level_assert : ℕ
icr_level_assert = 1 * 2 ^ 14

abbrev pub icr_trigger_edge : ℕ
icr_trigger_edge = 0 * 2 ^ 15

abbrev pub icr_trigger_level : ℕ
icr_trigger_level = 1 * 2 ^ 15

abbrev pub icr_no_shorthand : ℕ
icr_no_shorthand = 0b00 * 2 ^ 18

abbrev pub icr_self : ℕ
icr_self = 0b01 * 2 ^ 18

abbrev pub icr_all_including_self : ℕ
icr_all_including_self = 0b10 * 2 ^ 18

abbrev pub icr_all_excluding_self : ℕ
icr_all_excluding_self = 0b11 * 2 ^ 18

abbrev pub timer_oneshot : ℕ
timer_oneshot = 0b00 * 2 ^ 17

abbrev pub timer_periodic : ℕ
timer_periodic = 0b01 * 2 ^ 17

abbrev pub timer_tsc_deadline : ℕ
timer_tsc_deadline = 0b10 * 2 ^ 17

abbrev pub lvt_masked : ℕ
lvt_masked = 1 * 2 ^ 16

abbrev pub timer_div_1 : ℕ
timer_div_1 = 0b1011

abbrev pub timer_div_2 : ℕ
timer_div_2 = 0b0000

abbrev pub timer_div_4 : ℕ
timer_div_4 = 0b0001

abbrev pub timer_div_8 : ℕ
timer_div_8 = 0b0010

abbrev pub timer_div_16 : ℕ
timer_div_16 = 0b0011

abbrev pub timer_div_32 : ℕ
timer_div_32 = 0b1000

abbrev pub timer_div_64 : ℕ
timer_div_64 = 0b1001

abbrev pub timer_div_128 : ℕ
timer_div_128 = 0b1010

abbrev pub x2apic_msr_base : ℕ
x2apic_msr_base = 0x800
