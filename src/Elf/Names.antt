-- ===== src/Elf/Names.antt =====
-- The texts of kernel/src/src/elf.c for types, machines and flags. `str_append` works on a C string in
-- a memory of bytes; what it appends is a literal, given by its bytes.
use ppo_os.Common.{
  ℕ, zero, suc, ◌+◌, bit_and, Bool, List, [], ◌∷◌, Option, none, some, ◌==◌, if◌then◌else◌,
  option_case, codes,
}
use ppo_os.CString.{Memory, write, memset}
use ppo_os.CString.Str.{strlen}

unfoldable pub elf_get_type_str : ℕ → List ℕ
elf_get_type_str e_type =
    if e_type == 0
    then codes "NONE (No file type)"
    else if e_type == 1
    then codes "REL (Relocatable file)"
    else if e_type == 2
    then codes "EXEC (Executable file)"
    else if e_type == 3
    then codes "DYN (Shared object file)"
    else if e_type == 4
    then codes "CORE (Core file)"
    else codes "UNKNOWN"

unfoldable pub elf_get_machine_str : ℕ → List ℕ
elf_get_machine_str e_machine =
    if e_machine == 3
    then codes "Intel 80386"
    else if e_machine == 40
    then codes "ARM"
    else if e_machine == 62
    then codes "AMD x86-64"
    else if e_machine == 183
    then codes "ARM 64-bits"
    else codes "Unknown Machine"

-- The names of the types from 0 on.
abbrev pub name_at : List (List ℕ) → ℕ → List ℕ
name_at [] i = codes "UNKNOWN"
name_at (name ∷ names) zero = name
name_at (name ∷ names) (suc i) = name_at names i

unfoldable pub elf_get_section_type_str : ℕ → List ℕ
elf_get_section_type_str = name_at (
    codes "NULL"
    ∷ codes "PROGBITS"
    ∷ codes "SYMTAB"
    ∷ codes "STRTAB"
    ∷ codes "RELA"
    ∷ codes "HASH"
    ∷ codes "DYNAMIC"
    ∷ codes "NOTE"
    ∷ codes "NOBITS"
    ∷ codes "REL"
    ∷ codes "SHLIB"
    ∷ codes "DYNSYM"
    ∷ [])

unfoldable pub elf_get_program_type_str : ℕ → List ℕ
elf_get_program_type_str = name_at (
    codes "NULL"
    ∷ codes "LOAD"
    ∷ codes "DYNAMIC"
    ∷ codes "INTERP"
    ∷ codes "NOTE"
    ∷ codes "SHLIB"
    ∷ codes "PHDR"
    ∷ [])

-- The bytes of `src` and a NUL, from `dest` on.
unfoldable pub append_bytes : Memory → ℕ → List ℕ → Memory
append_bytes m dest [] = write m dest 0
append_bytes m dest (c ∷ src) = append_bytes (write m dest c) (dest + 1) src

unfoldable pub str_append : ℕ → Memory → ℕ → List ℕ → Option Memory
str_append fuel m dest src =
    option_case (strlen fuel m dest) none (λ len. some (append_bytes m (dest + len) src))

-- `if (flags & mask) str_append(buf, letter);` on whether the flag is clear.
unfoldable pub append_flag : Bool → List ℕ → ℕ → ℕ → Memory → Option Memory
append_flag clear letter fuel buf m = if clear then some m else str_append fuel m buf letter

-- Three of these, in order, on a cleared buffer.
unfoldable pub append_flags :
    ℕ → Memory → ℕ → ℕ → Bool → List ℕ → Bool → List ℕ → Bool → List ℕ → Option Memory
append_flags fuel m buf size clear1 letter1 clear2 letter2 clear3 letter3 =
    option_case (append_flag clear1 letter1 fuel buf (memset m buf 0 size)) none λ m1.
      option_case (append_flag clear2 letter2 fuel buf m1) none
        λ m2. append_flag clear3 letter3 fuel buf m2

unfoldable pub elf_get_section_flags_str : ℕ → Memory → ℕ → ℕ → ℕ → Option Memory
elf_get_section_flags_str fuel m buf size sh_flags =
    append_flags fuel m buf size (bit_and sh_flags 1 == 0) (codes "W") (bit_and sh_flags 2 == 0)
      (codes "A") (bit_and sh_flags 4 == 0) (codes "X")

unfoldable pub elf_get_program_flags_str : ℕ → Memory → ℕ → ℕ → ℕ → Option Memory
elf_get_program_flags_str fuel m buf size p_flags =
    append_flags fuel m buf size (bit_and p_flags 4 == 0) (codes "R") (bit_and p_flags 2 == 0)
      (codes "W") (bit_and p_flags 1 == 0) (codes "X")
