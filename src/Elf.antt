-- ===== src/Elf.antt =====
-- The printer of kernel/src/src/elf.c and kernel/src/src/elf.h, for a file in a memory of bytes; the
-- program loader has its own tests. A print function is a step of a state of its own, and may be missing. `none`
-- says that an integer overflows or that a text does not end in its buffer.
pub mod Names
pub mod Numbers
pub mod RoundTrip
pub mod Hex
pub mod Print
pub mod Returns
pub mod Reads
mod Tests
use ppo_os.Common.{
  ℕ, zero, suc, ◌+◌, ◌*◌, ◌%◌, ◌^◌, Bool, true, false, not, ◌&&◌, ◌||◌, List, [], ◌∷◌, ◌++◌, Option,
  none, some, ltb, ◌==◌, if◌then◌else◌, option_case, codes,
}
use ppo_os.Common.Int.{ℤ, pos}
use ppo_os.Common.Loops.{for_range}
use ppo_os.Common.Numbers.{le16, le32, le64}
use ppo_os.CString.{Memory}
use ppo_os.Elf.Names.{
  elf_get_type_str, elf_get_machine_str, elf_get_section_type_str, elf_get_program_type_str,
  elf_get_section_flags_str, elf_get_program_flags_str,
}
use ppo_os.Elf.Numbers.{my_itoa, to_int32}

-- `sizeof(elf_common_header_t)` is 24.
unfoldable pub elf_is_valid : Memory → ℕ → ℕ → Bool
elf_is_valid m elf_data size =
    if ltb size 24
    then false
    else (le32 m elf_data == 0x464C457F)
      && ((m (elf_data + 4) == 1) || (m (elf_data + 4) == 2))
      && ((m (elf_data + 5) == 1) || (m (elf_data + 5) == 2))
      && (m (elf_data + 6) == 1)

unfoldable pub elf_is_64bit : Memory → ℕ → Bool
elf_is_64bit m elf_data = m (elf_data + 4) == 2

-- The string in a local array that stands at 0, the bytes before the NUL.
unfoldable pub text_at : ℕ → Memory → ℕ → Option (List ℕ)
text_at zero m p = none
text_at (suc left) m p =
    let rest = text_at left m (p + 1) in
    if m p == 0 then some [] else option_case rest none (λ cs. some (m p ∷ cs))

abbrev pub no_bytes : Memory
no_bytes a = 0

-- `my_itoa(n, buffer, base)` with `char buffer[64]`, which is not initialised and is used again: the text, and
-- what the buffer then holds.
unfoldable pub itoa_text : Memory → ℤ → ℕ → Option (List ℕ × Memory)
itoa_text buffer n base =
    option_case (my_itoa buffer n 0 base) none
      λ used. option_case (text_at 64 used 0) none λ text. some (text, used)

-- The flags with `char flags[4] = ""`.
unfoldable pub flags_text : (ℕ → Memory → ℕ → ℕ → ℕ → Option Memory) → ℕ → Option (List ℕ)
flags_text flags_str flags = option_case (flags_str 4 no_bytes 0 4 flags) none (λ m. text_at 4 m 0)

-- Where a table stands, how many entries it has and how far they are apart.
pub record Table : Type 0 where
  pub offset : ℕ
  pub entry_size : ℕ
  pub entries : ℕ

unfoldable pub program_table : Memory → ℕ → Table
program_table m elf_data =
    if elf_is_64bit m elf_data
    then record {
      offset = le64 m (elf_data + 32);
      entry_size = le16 m (elf_data + 54);
      entries = le16 m (elf_data + 56);
    }
    else record {
      offset = le32 m (elf_data + 28);
      entry_size = le16 m (elf_data + 42);
      entries = le16 m (elf_data + 44);
    }

unfoldable pub section_table : Memory → ℕ → Table
section_table m elf_data =
    if elf_is_64bit m elf_data
    then record {
      offset = le64 m (elf_data + 40);
      entry_size = le16 m (elf_data + 58);
      entries = le16 m (elf_data + 60);
    }
    else record {
      offset = le32 m (elf_data + 32);
      entry_size = le16 m (elf_data + 46);
      entries = le16 m (elf_data + 48);
    }

abbrev pub entry_at : ℕ → Table → ℕ → ℕ
entry_at elf_data table i = (elf_data + table.offset + i * table.entry_size) % 2 ^ 64

-- What is read of an entry; 64-bit entries have another layout.
pub record ProgramRow : Type 0 where
  pub p_type : ℕ
  pub p_flags : ℕ
  pub p_vaddr : ℕ

unfoldable pub program_row : Memory → Bool → ℕ → ProgramRow
program_row m true ph = record {
  p_type = le32 m ph;
  p_flags = le32 m (ph + 4);
  p_vaddr = le64 m (ph + 16);
}
program_row m false ph = record {
  p_type = le32 m ph;
  p_flags = le32 m (ph + 24);
  p_vaddr = le32 m (ph + 8);
}

pub record SectionRow : Type 0 where
  pub sh_type : ℕ
  pub sh_flags : ℕ
  pub sh_addr : ℕ
  pub sh_size : ℕ

unfoldable pub section_row : Memory → Bool → ℕ → SectionRow
section_row m true sh = record {
  sh_type = le32 m (sh + 4);
  sh_flags = le64 m (sh + 8);
  sh_addr = le64 m (sh + 16);
  sh_size = le64 m (sh + 32);
}
section_row m false sh = record {
  sh_type = le32 m (sh + 4);
  sh_flags = le32 m (sh + 8);
  sh_addr = le32 m (sh + 12);
  sh_size = le32 m (sh + 20);
}
