-- ===== src/Lib.antt =====
-- smp-nostd: symmetric multiprocessing for a kernel without the standard library. The crate starts
-- the processors, gives each its own data, locks what they share, routes interrupts and schedules
-- tasks over the cores.
--
-- Which file models which part:
--   Task.antt               src/scheduler.rs, TaskState, CpuContext, Task
--   RunQueue.antt           src/scheduler.rs, RunQueue
--   Scheduler.antt          src/scheduler.rs, Scheduler
--   ContextSwitch.antt      src/scheduler.rs, context_switch
--   Interrupts.antt         src/spinlock.rs, the interrupt helpers
--   TicketLock.antt         src/spinlock.rs, TicketLock and its guard
--   SpinLock.antt           src/spinlock.rs, SpinLock and its guard
--   SpinLock/Ordering.antt  src/spinlock.rs, SpinLock with store buffers
--   Fences.antt             src/spinlock.rs, the fences
--   RwLock.antt             src/spinlock.rs, RwLock and its guards
--   Once.antt               src/spinlock.rs, Once
--   PerCpu.antt             src/percpu.rs
--   RedirectionEntry.antt   src/ioapic.rs, RedirectionEntry
--   IoApic.antt             src/ioapic.rs, IoApic and IoApicManager
--   Trampoline.antt         src/trampoline.rs, the page and ApTrampoline
--   Trampoline/Machine.antt src/trampoline.rs, the instructions of TRAMPOLINE_CODE; Trampoline/Decode.antt has
--                           their encodings, Trampoline/Startup.antt the processor that starts there
--   LocalApic.antt          src/apic.rs, LocalApic: register access and the plain registers; its child
--                           modules have the local vector table, the interrupts sent, the timer
--   Smp.antt                src/driver.rs, SmpController and its calls
--   Smp/Boot.antt           src/driver.rs, init, the boot of the processors, ap_entry
--   Smp/Idle.antt           src/driver.rs, the idle loop of ap_entry
--   Msr.antt                src/apic.rs and src/percpu.rs, rdmsr and wrmsr on halves of 32 bits
--   Smp/World.antt          src/driver.rs, the static variables and spin_delay
--   Hardware.antt           the registers, MSRs and CPUID that the drivers reach
-- Each has child modules for its invariants and theorems. Base holds what they share: Boolean tests,
-- lists over the native numbers, machine words, bits of words, threads that are interleaved, and
-- commands on a state.
--
-- Scheduling code is functions on the state of the scheduler, one call at a time: a run queue's
-- operations hold its lock, so each is one step. `none` is a panic: a failed assertion, an index out
-- of range or, in the debug profile, an overflow. Scheduler/Service.antt has the bag of tasks that it
-- promises. Scheduler/Interleaved.antt takes the critical sections of calls on several processors in
-- any order. Scheduler/Progress.antt follows one queued task through the calls, and Scheduler/Fairness.antt
-- has the rounds in which every core asks for a task. The locks are step relations: a move is one atomic
-- access of one thread, with the local variables that are live in its program counter, and
-- Base.Threads.Reach are the runs of any number of threads, in any order. All accesses are sequentially
-- consistent there. SpinLock/Ordering.antt has processors with store buffers, as the x86 family has them,
-- and Fences.antt what the fences do to the buffers. A weak compare-exchange may fail at any time.
--
-- The I/O APIC driver is a function on the state of the devices behind a bus, which is a parameter;
-- IoApic.Device.IsDevice is what the documentation of the chip says of its two registers, with the
-- read-only and reserved bits of an entry left open, and a chip in the tests has those laws.
--
-- src/apic.rs and src/driver.rs are commands (Base.Command): a call returns a value and the new state,
-- panics, or is still in the polling loop of `wait_icr_idle` when its `rounds` are used up. Apart
-- from the idle loop of `ap_entry`, it is the only loop of the two files without a bound. The rounds are
-- enough when they exceed the number of
-- reads for which the hardware can leave an interrupt pending, the `patience` of
-- LocalApic.Device.IsApic, which is what the documentation of the local APIC says of its registers; a
-- small APIC with those laws is in LocalApic/Small.antt. Base.Command.Ends holds of a call that returns.
--
-- The controller runs on a machine: the devices, the per-CPU table, the memory and the static variables.
-- Where it delays or polls, `others`, any function on the machine, is what the other processors do in
-- one turn. It calls LocalApic, IoApic, PerCpu, Trampoline, Task and Scheduler as the source does.
--
-- The idle loop of `ap_entry` is a function from one instruction to the next, among the events that the
-- other processors and the devices cause; a handler is one turn, that of a non-maskable interrupt is none.
--
-- The trampoline is a page in a memory of bytes, with words in little-endian order. A processor that starts
-- there fetches its bytes, decodes them by the tables of Trampoline.Decode and executes them, from real mode
-- on; what page tables say is a parameter, and a fault ends the run, as the processor has no handlers. The
-- tables have the instructions of the code and those that the bytes over it stand for; other bytes end a run as
-- unknown.
--
-- The assembly of context_switch is a list of instructions, which a processor runs up to the jump; the
-- registers, words and addresses have 64 bits. ContextSwitch.FlagsImage is what pushfq and popfq make of
-- the flags, a parameter; ContextSwitch.Switch.Valid is what the caller has to provide.
--
-- Numbers are natural numbers with the wrap-around of their type written out. The ticket counters are
-- 64 bits wide, and the theorems on a ticket lock are for runs of fewer than 2^64 accesses. All other
-- loops are over lists or counted ranges.
--
-- Not modelled: the logging.
mod Base
pub mod Task
pub mod RunQueue
pub mod Scheduler
pub mod ContextSwitch
pub mod TicketLock
pub mod Interrupts
pub mod SpinLock
pub mod RwLock
pub mod Once
pub mod PerCpu
pub mod Hardware
pub mod RedirectionEntry
pub mod IoApic
pub mod Trampoline
pub mod Msr
pub mod Fences
pub mod LocalApic
pub mod Smp
