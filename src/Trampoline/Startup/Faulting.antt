-- ===== src/Trampoline/Startup/Faulting.antt =====
-- What is left of TRAMPOLINE_CODE, src/trampoline.rs, where `install` has put the GDT over it: bytes of zeros,
-- which add AL to the byte at RAX.
use smp_nostd.Base.{
  ℕ, zero, suc, ◌+◌, ◌%◌, ◌^◌, ◌<◌, ◌≡◌, ◌∙◌, refl, sym, ap, true, Option, none, some, List, ◌∷◌,
  ℕ_discrete, arith,
}
use mathlib.Core.Path.{fun_ext}
use smp_nostd.Trampoline.{Memory, store_word, load_word}
use smp_nostd.Trampoline.Machine.{
  code64, Core, add_mem_al, paging, Step, End, go, stop, fault, translate, load_operand,
  store_operand,
}
use smp_nostd.Trampoline.Instructions.{exec}
use smp_nostd.Trampoline.Decode.{
  encodings, after_opcode, word_of, decode_one, decode, window, code_address, execute, step, run,
}

-- A byte to which nothing is added stays.
add_nothing :
    (m : Memory) (b al : ℕ)
    → m b < 256
    → al ≡ 0
    → store_word 1 b ((load_word 1 b m + al) % 2 ^ 8) m ≡ m
unfolding store_word load_word
add_nothing m b al small nothing =
    fun_ext (λ j. elim (ℕ_discrete b j) [ yes e ↦ ground (arith, ap m e) | no ne ↦ ground arith ])

module _ (paged : (value address : ℕ) → Option ℕ) where
  pub run-go : (n : ℕ) (c c' : Core) → step paged c ≡ go c' → run paged (suc n) c ≡ run paged n c'
  unfolding run
  run-go n c c' e = rw (e, run) refl

  pub run-stop :
      (n : ℕ) (c c' : Core) (e : End) → step paged c ≡ stop e c' → run paged (suc n) c ≡ stop e c'
  unfolding run
  run-stop n c c' e h = rw (h, run) refl

  abbrev pub go_on : (n : ℕ) → Step → Step
  go_on n (go c) = run paged n c
  go_on n (stop e c) = stop e c

  go_on-plus :
      (k n : ℕ) (s : Step)
      → ((c : Core) → run paged (k + n) c ≡ go_on n (run paged k c))
      → go_on (k + n) s ≡ go_on n (go_on k s)
  go_on-plus k n (go c) each = each c
  go_on-plus k n (stop e c) each = refl

  run-suc : (n : ℕ) (c : Core) → run paged (suc n) c ≡ go_on n (step paged c)
  unfolding run
  run-suc n c = cases (step paged c) refl
    where
      cases : (s : Step) → step paged c ≡ s → run paged (suc n) c ≡ go_on n s
      cases (go c') e = run-go n c c' e
      cases (stop e' c') e = run-stop n c c' e' e

  -- A run goes on where a shorter one has come to.
  pub run-plus : (k n : ℕ) (c : Core) → run paged (k + n) c ≡ go_on n (run paged k c)
  unfolding run
  run-plus zero n c = ap (λ (j : ℕ). run paged j c) (omega arith)
  run-plus (suc k) n c =
      let later : suc k + n ≡ suc (k + n) = omega arith in
      ap (λ (j : ℕ). run paged j c) later
      ∙ run-suc (k + n) c
      ∙ go_on-plus k n (step paged c) (run-plus k n)
      ∙ ap (go_on n) (sym (run-suc k c))

  step-window :
      (c : Core) (b : ℕ) (bs : List ℕ)
      → window 11 (code_address c) c ≡ b ∷ bs
      → step paged c ≡ execute paged c (decode (encodings c.size) (b ∷ bs))
  unfolding step
  step-window c b bs e = rw (e, step) refl

  decode-zeros : (rest : List ℕ) → decode (encodings code64) (0 ∷ 0 ∷ rest) ≡ some (add_mem_al, 2)
  unfolding encodings decode decode_one after_opcode word_of
  decode-zeros rest = refl

  module _ (c : Core) (rest : List ℕ) (on : paging c ≡ true)
      (zeros : window 11 c.rip (record c { size = code64 }) ≡ 0 ∷ 0 ∷ rest)
      (nothing : c.rax % 2 ^ 8 ≡ 0) where
    abbrev here : Core
    here = record c { size = code64 }

    abbrev after : Core
    after = record c { size = code64; rip = c.rip + 2 }

    translate-on : translate after c.rax ≡ c.tables c.rax
    unfolding translate
    translate-on = rw on refl

    step-add : step paged here ≡ execute paged here (some (add_mem_al, 2))
    step-add = step-window here 0 (0 ∷ rest) zeros ∙ ap (execute paged here) (decode-zeros rest)

    pub add-step : (b : ℕ) → c.tables c.rax ≡ some b → c.memory b < 256 → step paged here ≡ go after
    unfolding execute exec load_operand store_operand
    add-step b there small =
        step-add
        ∙ rw
            (
              execute,
              exec,
              load_operand,
              translate-on,
              there,
              store_operand,
              translate-on,
              there,
              add_nothing c.memory b (c.rax % 2 ^ 8) small nothing,
            )
            refl

    pub add-fault : c.tables c.rax ≡ none → step paged here ≡ stop fault here
    unfolding execute exec load_operand store_operand
    add-fault absent = step-add ∙ rw (execute, exec, load_operand, translate-on, absent) refl
