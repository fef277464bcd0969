-- ===== src/Libc/Tests.antt =====
-- The program has the string "hi" at 0x400000 and a line feed at 0x400010.
use ppo_os.Common.{
  ℕ, ◌+◌, ◌-◌, ◌≡◌, refl, [], ◌∷◌, ◌++◌, some, none, true, arith, leb, ltb, ◌&&◌, ◌==◌, get_or,
  take, codes, if◌then◌else◌,
}
use ppo_os.Common.Int.{pos}
use ppo_os.CString.{Memory}
use ppo_os.Syscall.{Kernel, validate_user_memory}
use ppo_os.Syscall.Tests.{no_ext2, running}
use ppo_os.Libc.{format_from, convert, put_char, put_string, puts}
use ppo_os.Libc.Format.{format_from-plain}
use ppo_os.Libc.Output.{puts-output}

abbrev program_bytes : Memory
program_bytes a =
    if leb 0x400000 a && ltb a 0x400010
    then get_or (codes "hi") (a - 0x400000) 0
    else if a == 0x400010
    then 10
    else 0

abbrev program : Kernel ℕ
program = record running { user = program_bytes; has_terminal = true }

hi_valid : validate_user_memory 0x400000 2 ≡ true
unfolding validate_user_memory
hi_valid = refl

newline_valid : validate_user_memory 0x400010 1 ≡ true
unfolding validate_user_memory
newline_valid = refl

puts-output_example :
    puts 0 no_ext2 16 0x400010 0x400000 program
    ≡ some (record program { output = program.output ++ (codes "hi" ++ 10 ∷ []) }, pos 3)
puts-output_example =
    puts-output 0 no_ext2 16 0x400010 0x400000 (codes "hi") program refl (omega arith) (omega arith)
      (omega arith) (omega arith) hi_valid newline_valid refl

plain_text : format_from 16 program_bytes 0 0x400000 [] ≡ some ([] ++ take 1023 (codes "hi"))
plain_text =
    format_from-plain 16 program_bytes 0 0x400000 [] (codes "hi") (omega arith) (omega arith)
      (omega arith, (omega arith, tt)) (omega arith)

-- The pointer at 8 leads to 600 letters, and a format stands at 0x100.
abbrev long_bytes : Memory
long_bytes a =
    if a == 9
    then 16
    else if leb 0x100 a && ltb a 0x108
    then get_or (codes "%s%s") (a - 0x100) 0
    else if leb 0x1000 a && ltb a (0x1000 + 600)
    then 120
    else 0

-- "%s%s" with 600 bytes for each conversion does not fit.
overflow : format_from 2000 long_bytes 0 0x100 [] ≡ none
unfolding format_from convert put_string put_char
overflow = refl
