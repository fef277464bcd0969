-- ===== src/Elf/Returns.antt =====
-- Whether the printer comes back, with each text ended inside its buffer.
use ppo_os.Common.{
  ℕ, zero, suc, ◌+◌, ◌<◌, ◌≡◌, refl, List, [], ◌∷◌, ◌++◌, Bool, true, false, Option, none, some,
  arith, ◌==◌, ne→==, eq→==, length, bit_and, if◌then◌else◌, option_case, codes,
}
use ppo_os.Common.Loops.{for_range}
use ppo_os.CString.{Memory, memset}
use ppo_os.CString.Str.{strlen, strlen_from}
use ppo_os.CString.Str.Held.{Held}
use ppo_os.Elf.Names.{
  elf_get_section_flags_str, elf_get_program_flags_str, append_flags, append_flag, append_bytes,
  str_append,
}
use ppo_os.Elf.{text_at, no_bytes, flags_text}

pub text_at-Held :
    (left : ℕ) (m : Memory) (p : ℕ) (cs : List ℕ)
    → length cs < left
    → Held m p cs
    → text_at left m p ≡ some cs
unfolding text_at
text_at-Held zero m p cs lt h = absurd (omega arith)
text_at-Held (suc left) m p [] lt h = rw (eq→== (m p) 0 h) refl
text_at-Held (suc left) m p (c ∷ cs) lt (here, some_byte, h) =
    rw (here, ne→== c 0 (omega arith), text_at-Held left m (p + 1) cs (omega arith) h) refl

-- There is a result.
abbrev pub Returns : {A : Type 0} → Option A → Type 0
Returns {A} o = (a : A) × (o ≡ some a)

-- The letters of the flags that are set, in the order in which they are appended.
abbrev pub letter : Bool → List ℕ → List ℕ
letter clear name = if clear then [] else name

abbrev Letters : ℕ → ℕ → ℕ → Bool → Bool → Bool → Type 0
Letters a b c x y z =
    option_case (append_flags 4 no_bytes 0 4 x (a ∷ []) y (b ∷ []) z (c ∷ [])) none
      (λ m. text_at 4 m 0)
    ≡ some (letter x (a ∷ []) ++ letter y (b ∷ []) ++ letter z (c ∷ []))

program-Letters : (x y z : Bool) → Letters 82 87 88 x y z
unfolding append_flags append_flag str_append append_bytes strlen strlen_from memset for_range
    text_at
program-Letters true true true = refl
program-Letters true true false = refl
program-Letters true false true = refl
program-Letters true false false = refl
program-Letters false true true = refl
program-Letters false true false = refl
program-Letters false false true = refl
program-Letters false false false = refl

section-Letters : (x y z : Bool) → Letters 87 65 88 x y z
unfolding append_flags append_flag str_append append_bytes strlen strlen_from memset for_range
    text_at
section-Letters true true true = refl
section-Letters true true false = refl
section-Letters true false true = refl
section-Letters true false false = refl
section-Letters false true true = refl
section-Letters false true false = refl
section-Letters false false true = refl
section-Letters false false false = refl

-- Every combination of flags fits into the buffer of four bytes, with its NUL.
pub program_flags :
    (flags : ℕ)
    → flags_text elf_get_program_flags_str flags
      ≡ some (
          letter (bit_and flags 4 == 0) (codes "R")
          ++ letter (bit_and flags 2 == 0) (codes "W")
          ++ letter (bit_and flags 1 == 0) (codes "X"))
unfolding flags_text elf_get_program_flags_str
program_flags flags =
    program-Letters (bit_and flags 4 == 0) (bit_and flags 2 == 0) (bit_and flags 1 == 0)

pub section_flags :
    (flags : ℕ)
    → flags_text elf_get_section_flags_str flags
      ≡ some (
          letter (bit_and flags 1 == 0) (codes "W")
          ++ letter (bit_and flags 2 == 0) (codes "A")
          ++ letter (bit_and flags 4 == 0) (codes "X"))
unfolding flags_text elf_get_section_flags_str
section_flags flags =
    section-Letters (bit_and flags 1 == 0) (bit_and flags 2 == 0) (bit_and flags 4 == 0)
