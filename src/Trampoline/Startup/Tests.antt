-- ===== src/Trampoline/Startup/Tests.antt =====
-- A processor that starts in the page of a machine whose page tables leave all addresses as they are.
use smp_nostd.Base.{ℕ, ◌≡◌, refl, true, Option, some, [], ◌∷◌, arith}
use smp_nostd.Trampoline.{Memory}
use smp_nostd.Trampoline.Machine.{Core, code32, code64, stop, fault, far_jump, store_dword}
use smp_nostd.Trampoline.Decode.{encodings, after_opcode, word_of, decode_one, decode, run}
use smp_nostd.Trampoline.Startup.{started, prepared}
use smp_nostd.Trampoline.Startup.Outcome.{FaultedIn64, run-FaultedIn64}

abbrev identity : ℕ → ℕ → Option ℕ
identity value address = some address

abbrev zeros : Memory
zeros j = 0

run-FaultedIn64_example :
    (c : Core) × (run identity 45 (started true (prepared 0x1000 0x9000 0x100000 2 zeros))
      ≡ stop fault c)
    × FaultedIn64 0x1000 0x9000 c
run-FaultedIn64_example =
    run-FaultedIn64 identity 0x1000 0x9000 0x100000 2 zeros true 45 (λ j. omega arith) (omega arith)
      (λ a lo hi. refl) (omega arith)

-- The first instruction of the jump to 64-bit code, and the store that the GDT is written over.
decode_jump :
    decode (encodings code32) (0xEA ∷ 0x60 ∷ 0x80 ∷ 0 ∷ 0 ∷ 0x18 ∷ 0 ∷ 0x90 ∷ [])
    ≡ some (far_jump 0x18 0x8060, 7)
unfolding encodings after_opcode word_of decode_one decode
decode_jump = refl

decode_store :
    decode (encodings code64) (0xC7 ∷ 4 ∷ 0x25 ∷ 0x18 ∷ 0x8F ∷ 0 ∷ 0 ∷ 0x27 ∷ 0 ∷ 0x88 ∷ 0x80 ∷ [])
    ≡ some (store_dword 0x8F18 0x80880027, 11)
unfolding encodings after_opcode word_of decode_one decode
decode_store = refl
