-- ===== src/Trampoline/Machine.antt =====
-- src/trampoline.rs, TRAMPOLINE_CODE: the instructions that its bytes stand for, on the registers of a
-- processor that starts in real mode and on its way to long mode.
use smp_nostd.Base.{
  ℕ, ◌+◌, ◌*◌, ◌/◌, ◌%◌, ◌^◌, Bool, true, not, ◌&&◌, ◌||◌, Option, none, some, ◌==◌, if◌then◌else◌,
}
use smp_nostd.Trampoline.{Memory, store_word, load_word}

-- The size that the code segment gives to operands and addresses.
pub data CodeSize : Type 0 where
  code16 code32 code64 : CodeSize

-- `tables` is where the page tables that CR3 points to put an address; `none` is a page that is not there.
pub record Core : Type 0 where
  pub size : CodeSize
  pub code_base : ℕ
  pub ds_base : ℕ
  pub rip : ℕ
  pub rax : ℕ
  pub rcx : ℕ
  pub rdx : ℕ
  pub rdi : ℕ
  pub rsp : ℕ
  pub cr0 : ℕ
  pub cr3 : ℕ
  pub cr4 : ℕ
  pub efer : ℕ
  pub gdt_base : ℕ
  pub gdt_limit : ℕ
  pub tables : ℕ → Option ℕ
  pub memory : Memory

pub data Segment : Type 0 where
  ds ss other : Segment

pub data Register : Type 0 where
  rax rsp rdi : Register

pub data Control : Type 0 where
  cr0 cr3 cr4 : Control

-- The instructions, with their operands. Interrupts stay off, so `cli` changes nothing.
pub data Instr : Type 0 where
  cli nop hlt rdmsr wrmsr xor_ax call_rax add_mem_al undefined : Instr
  load_segment : Segment → Instr  -- mov sreg, ax
  lgdt : (address : ℕ) → Instr
  read_control write_control : Control → Instr  -- mov eax, cr and mov cr, eax
  or_al or_eax mov_ax mov_ecx cmp_al : (value : ℕ) → Instr
  far_jump : (selector offset : ℕ) → Instr
  short_jump : (displacement : ℕ) → Instr
  load_eax : (address : ℕ) → Instr  -- mov eax, [address]
  load : Register → (address : ℕ) → Instr  -- mov r64, [address]
  store_dword : (address value : ℕ) → Instr  -- mov dword [address], value

-- How the code ends: at a fault, of which there is no handler, in `hlt`, at bytes that are not in the tables of
-- Trampoline.Decode, or with the call of an address.
pub data End : Type 0 where
  fault halt unknown : End
  call : (target : ℕ) → End

pub data Step : Type 0 where
  go : Core → Step
  stop : End → Core → Step

abbrev pub bit : (k v : ℕ) → Bool
bit k v = v / 2 ^ k % 2 == 1

-- CR0.PE, CR0.PG and EFER.LME
abbrev pub protected : Core → Bool
protected c = bit 0 c.cr0

abbrev pub paging : Core → Bool
paging c = bit 31 c.cr0

abbrev pub long : Core → Bool
long c = bit 8 c.efer

abbrev pub set_ax : Core → (value : ℕ) → Core
set_ax c value = record c { rax = c.rax / 2 ^ 16 * 2 ^ 16 + value }

abbrev pub control : Control → Core → ℕ
control cr0 c = c.cr0
control cr3 c = c.cr3
control cr4 c = c.cr4

-- Paging needs protection, and in long mode the larger page tables; not-write-through needs the caches off.
abbrev pub control_fits : Control → (value : ℕ) → Core → Bool
control_fits cr0 value c =
    (not (bit 31 value) || (bit 0 value && (not (long c) || bit 5 c.cr4)))
    && (not (bit 29 value) || bit 30 value)
control_fits cr3 value c = true
control_fits cr4 value c = true

abbrev pub with_register : Register → (value : ℕ) → Core → Core
with_register rax value c = record c { rax = value }
with_register rsp value c = record c { rsp = value }
with_register rdi value c = record c { rdi = value }

unfoldable pub translate : Core → (address : ℕ) → Option ℕ
translate c address = if paging c then c.tables address else some address

-- An operand, which lies in one page.
unfoldable pub load_operand : (n address : ℕ) → Core → Option ℕ
unfolding translate
load_operand n address c = elim (translate c address) [
  | none ↦ none
  | some a ↦ some (load_word n a c.memory)
]

unfoldable pub store_operand : (n address value : ℕ) → Core → Option Core
unfolding translate
store_operand n address value c = elim (translate c address) [
  | none ↦ none
  | some a ↦ some (record c { memory = store_word n a value c.memory })
]

-- The linear address of a displacement.
abbrev pub linear : Core → (address : ℕ) → ℕ
linear c address = elim c.size [ code64 ↦ address | _ ↦ c.ds_base + address ]

abbrev pub or_fault : Core → Option Core → Step
or_fault c none = stop fault c
or_fault c (some c') = go c'

abbrev pub checked : Core → Bool → Core → Step
checked c fits c' = if fits then go c' else stop fault c
