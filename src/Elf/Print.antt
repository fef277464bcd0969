-- ===== src/Elf/Print.antt =====
-- The order of what kernel/src/src/elf.c prints. The texts of a row are made first, and the
-- row is then printed.
use ppo_os.Common.{
  ℕ, ◌+◌, not, List, [], ◌∷◌, ◌++◌, Option, none, some, ltb, ◌==◌, if◌then◌else◌, option_case,
  codes,
}
use ppo_os.Common.Int.{pos}
use ppo_os.Common.Loops.{for_range}
use ppo_os.Common.Numbers.{le16}
use ppo_os.CString.{Memory}
use ppo_os.Elf.Names.{
  elf_get_type_str, elf_get_machine_str, elf_get_section_type_str, elf_get_program_type_str,
  elf_get_section_flags_str, elf_get_program_flags_str,
}
use ppo_os.Elf.Numbers.{to_int32}
use ppo_os.Elf.{
  ProgramRow, SectionRow, program_row, section_row, program_table, section_table, entry_at,
  itoa_text, flags_text, elf_is_valid, elf_is_64bit,
}

abbrev pub newline : List ℕ
newline = 10 ∷ []

-- `elf_print` for each of these texts. `print_func` is NULL before `elf_set_print_function`.
module _ {W : Type 0} (print_func : Option (List ℕ → W → W)) where
  abbrev pub elf_print : List ℕ → W → W
  elf_print str w = option_case print_func w (λ f. f str w)

  unfoldable pub elf_prints : List (List ℕ) → W → W
  elf_prints [] w = w
  elf_prints (str ∷ strs) w = elf_prints strs (elf_print str w)

  -- The third argument is what `buffer` holds at first.
  unfoldable pub elf_print_header : Memory → ℕ → Memory → W → Option W
  elf_print_header m elf_data buffer w =
      let w1 =
        elf_prints
          ((codes "ELF Header:" ++ newline)
            ∷ (codes "  Magic:   0x7F ELF" ++ newline)
            ∷ codes "  Class:   "
            ∷ (if m (elf_data + 4) == 1 then codes "ELF32" else codes "ELF64")
            ∷ newline
            ∷ codes "  Data:    "
            ∷ (if m (elf_data + 5) == 1
                then codes "2's complement, little endian"
                else codes "2's complement, big endian")
            ∷ newline
            ∷ (codes "  Version: 1 (current)" ++ newline)
            ∷ codes "  Type:    "
            ∷ elf_get_type_str (le16 m (elf_data + 16))
            ∷ newline
            ∷ codes "  Machine: "
            ∷ elf_get_machine_str (le16 m (elf_data + 18))
            ∷ newline
            ∷ [])
          w in
      let is_32bit = m (elf_data + 4) == 1 in
      let e_phnum = le16 m (elf_data + (if is_32bit then 44 else 56)) in
      let e_shnum = le16 m (elf_data + (if is_32bit then 48 else 60)) in
      option_case (itoa_text buffer (pos e_phnum) 10) none λ (program_headers, used).
        option_case (itoa_text used (pos e_shnum) 10) none λ (section_headers, used_again). some (
          elf_prints
            (codes "  Program headers: "
              ∷ program_headers
              ∷ newline
              ∷ codes "  Section headers: "
              ∷ section_headers
              ∷ newline
              ∷ [])
            w1)

  -- What a round of the loop over the program headers prints.
  unfoldable pub print_program_row : ProgramRow → Memory × W → Option (Memory × W)
  print_program_row ph (buffer, w) =
      option_case (flags_text elf_get_program_flags_str ph.p_flags) none λ flags.
        option_case (itoa_text buffer (to_int32 ph.p_vaddr) 16) none λ (vaddr, used). some (
          used,
          elf_prints
              (codes "  "
                ∷ elf_get_program_type_str ph.p_type
                ∷ codes "           "
                ∷ flags
                ∷ codes "    "
                ∷ codes "0x"
                ∷ vaddr
                ∷ newline
                ∷ [])
              w,
        )

  unfoldable pub print_program_header : Memory → ℕ → ℕ → Option (Memory × W) → Option (Memory × W)
  print_program_header m elf_data i state = option_case state none (
      print_program_row
        (program_row m (elf_is_64bit m elf_data) (entry_at elf_data (program_table m elf_data) i)))

  unfoldable pub elf_print_program_headers : Memory → ℕ → Memory → W → Option W
  elf_print_program_headers m elf_data buffer w =
      let w1 = elf_print (newline ++ codes "Program Headers:" ++ newline) w in
      let e_phnum = (program_table m elf_data).entries in
      if e_phnum == 0
      then some (elf_print (codes "  No program headers" ++ newline) w1)
      else option_case
          (for_range (if ltb e_phnum 10 then e_phnum else 10) 0 (print_program_header m elf_data) (
            some (
              buffer,
              elf_print (codes "  Type            Flags   Offset     VirtAddr" ++ newline) w1,
            )))
          none λ (used, w2). some w2

  unfoldable pub print_section_row : SectionRow → Memory × W → Option (Memory × W)
  print_section_row sh (buffer, w) =
      option_case (flags_text elf_get_section_flags_str sh.sh_flags) none λ flags.
        option_case (itoa_text buffer (to_int32 sh.sh_addr) 16) none λ (addr, used).
          option_case (itoa_text used (to_int32 sh.sh_size) 16) none λ (size, used_again). some (
            used_again,
            elf_prints
                (codes "  "
                  ∷ elf_get_section_type_str sh.sh_type
                  ∷ codes "           "
                  ∷ flags
                  ∷ codes "    "
                  ∷ codes "0x"
                  ∷ addr
                  ∷ codes "  "
                  ∷ codes "0x"
                  ∷ size
                  ∷ newline
                  ∷ [])
                w,
          )

  unfoldable pub print_section_header : Memory → ℕ → ℕ → Option (Memory × W) → Option (Memory × W)
  print_section_header m elf_data i state = option_case state none (
      print_section_row
        (section_row m (elf_is_64bit m elf_data) (entry_at elf_data (section_table m elf_data) i)))

  unfoldable pub elf_print_section_headers : Memory → ℕ → Memory → W → Option W
  elf_print_section_headers m elf_data buffer w =
      let w1 = elf_print (newline ++ codes "Section Headers:" ++ newline) w in
      let e_shnum = (section_table m elf_data).entries in
      if e_shnum == 0
      then some (elf_print (codes "  No section headers" ++ newline) w1)
      else option_case
          (for_range (if ltb e_shnum 15 then e_shnum else 15) 0 (print_section_header m elf_data) (
            some (
              buffer,
              elf_print (codes "  Type            Flags   Address    Size" ++ newline) w1,
            )))
          none λ (used, w2). some w2

  -- `stack 0`, `stack 1` and `stack 2` are what the buffers of the three functions hold at first.
  unfoldable pub elf_print_info : Memory → ℕ → ℕ → (ℕ → Memory) → W → Option W
  elf_print_info m elf_data size stack w =
      if not (elf_is_valid m elf_data size)
      then some (elf_print (codes "Not a valid ELF file" ++ newline) w)
      else option_case (elf_print_header m elf_data (stack 0) w) none λ w1.
        option_case (elf_print_program_headers m elf_data (stack 1) w1) none
          λ w2. elf_print_section_headers m elf_data (stack 2) w2
