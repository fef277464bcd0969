-- ===== src/Elf/Tests.antt =====
-- Tests on concrete files and numbers.
use ppo_os.Common.{
  ℕ, ◌^◌, ◌≡◌, refl, List, [], ◌∷◌, ◌++◌, Option, none, some, get_or, codes, option_case, ◌<◌, ◌==◌,
  ◌↔◌, ne→==, arith, if◌then◌else◌,
}
use ppo_os.Common.Int.{negsuc}
use ppo_os.Common.Loops.{for_range}
use ppo_os.CString.{Memory, memset}
use ppo_os.CString.Print.{reverse}
use ppo_os.CString.Str.{strlen, strlen_from}
use ppo_os.Elf.Names.{
  elf_get_program_flags_str, append_flags, append_flag, append_bytes, str_append,
}
use ppo_os.Elf.Numbers.{my_itoa, put_remainders, remainder_char, finish_text, to_int32, my_atoi}
use ppo_os.Elf.{
  program_table, section_table, no_bytes, text_at, itoa_text, flags_text, elf_is_64bit,
}
use ppo_os.Elf.Print.{elf_print_info}
use ppo_os.Elf.Returns.{Returns}
use ppo_os.Elf.Reads.{FitsIn, elf_print_info_same}
use ppo_os.Elf.RoundTrip.{my_atoi-my_itoa}
use ppo_os.Elf.Hex.{my_itoa-Spells_iff}
use ppo_os.CString.Str.Held.{Held}
use ppo_os.CString.Print.Spells.{Spells}

-- What the buffers hold at first.
abbrev stack : ℕ → Memory
stack k a = 7

minus_1234 :
    option_case (itoa_text (stack 0) (negsuc 1233) 10) none (λ (text, used). some text)
    ≡ some (codes "-1234")
unfolding itoa_text my_itoa put_remainders remainder_char finish_text reverse text_at
minus_1234 = refl

low_address :
    option_case (itoa_text (stack 0) (to_int32 0x401000) 16) none (λ (text, used). some text)
    ≡ some (codes "401000")
unfolding itoa_text my_itoa put_remainders remainder_char finish_text reverse text_at to_int32
low_address = refl

-- 0xffffffff80000000, the address of the kernel.
high_address :
    option_case
      (itoa_text (stack 0) (to_int32 0xffffffff80000000) 16)
      none
      (λ (text, used). some text)
    ≡ some (codes "(0000000")
unfolding itoa_text my_itoa put_remainders remainder_char finish_text reverse text_at to_int32
high_address = refl

read_execute : flags_text elf_get_program_flags_str 5 ≡ some (codes "RX")
unfolding flags_text elf_get_program_flags_str append_flags append_flag str_append append_bytes
    strlen strlen_from memset for_range text_at
read_execute = refl

-- A 64-bit program with one segment at 0x401000, read from address 0 on.
abbrev image : Memory
image a =
    get_or
      (0x7F ∷ 69 ∷ 76 ∷ 70 ∷ 2 ∷ 1 ∷ 1 ∷ 0 ∷ 0 ∷ 0 ∷ 0 ∷ 0 ∷ 0 ∷ 0 ∷ 0 ∷ 0 ∷ 2 ∷ 0 ∷ 62 ∷ 0 ∷ 1 ∷ 0
        ∷ 0 ∷ 0 ∷ 0 ∷ 16 ∷ 64 ∷ 0 ∷ 0 ∷ 0 ∷ 0 ∷ 0 ∷ 64 ∷ 0 ∷ 0 ∷ 0 ∷ 0 ∷ 0 ∷ 0 ∷ 0 ∷ 0 ∷ 0 ∷ 0 ∷ 0
        ∷ 0 ∷ 0 ∷ 0 ∷ 0 ∷ 0 ∷ 0 ∷ 0 ∷ 0 ∷ 64 ∷ 0 ∷ 56 ∷ 0 ∷ 1 ∷ 0 ∷ 64 ∷ 0 ∷ 0 ∷ 0 ∷ 0 ∷ 0 ∷ 1 ∷ 0
        ∷ 0 ∷ 0 ∷ 5 ∷ 0 ∷ 0 ∷ 0 ∷ 0 ∷ 0 ∷ 0 ∷ 0 ∷ 0 ∷ 0 ∷ 0 ∷ 0 ∷ 0 ∷ 16 ∷ 64 ∷ [])
      a 0

-- What is printed, first text first.
abbrev listing : Option (List ℕ → List ℕ → List ℕ)
listing = some (λ str out. out ++ str)

-- Another byte behind the file.
abbrev image' : Memory
image' a = if a == 200 then 9 else image a

image-FitsIn : FitsIn image 0 120
unfolding program_table section_table elf_is_64bit
image-FitsIn = record {
  header = omega arith;
  programs = λ i lt limit. (omega arith, omega arith);
  sections = λ i lt limit. absurd (omega arith);
}

elf_print_info_same_example :
    elf_print_info listing image 0 120 stack [] ≡ elf_print_info listing image' 0 120 stack []
elf_print_info_same_example =
    elf_print_info_same listing image image' 0 120 stack [] image-FitsIn
      (λ a lo hi. rw (ne→== a 200 (omega arith)) refl)

my_atoi-my_itoa_example :
    option_case (my_itoa no_bytes (negsuc 1233) 100 10) none (λ m. my_atoi 40 m 100)
    ≡ some (negsuc 1233)
my_atoi-my_itoa_example =
    my_atoi-my_itoa 40 no_bytes (negsuc 1233) 100 (omega arith) (omega arith) (omega arith)

my_itoa-Spells_iff_example :
    (m' : Memory) × (cs : List ℕ) × (my_itoa no_bytes (to_int32 0x80000000) 100 16 ≡ some m')
    × Held m' 100 cs
    × (Spells 16 0x80000000 cs ↔ (0x80000000 < 2 ^ 31))
my_itoa-Spells_iff_example = my_itoa-Spells_iff no_bytes 0x80000000 100 (omega arith) (omega arith)
