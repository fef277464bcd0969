-- ===== src/Elf/Reads.antt =====
-- Which bytes the printer reads.
use ppo_os.Common.{
  ℕ, codes, ◌++◌, ◌+◌, ◌≤◌, ◌<◌, ◌≡◌, refl, ap, ap₂, fun_ext, ◌∙◌, List, Option, none, some, Bool,
  true, false, not, arith, ltb, ◌==◌, Bool-cases, inl, inr, if◌then◌else◌, option_case,
}
use ppo_os.Common.Loops.{for_range_same}
use ppo_os.Common.Numbers.{le16, le32, le64}
use ppo_os.CString.{Memory}
use ppo_os.Elf.{
  program_row, section_row, Table, program_table, section_table, entry_at, elf_is_valid,
  elf_is_64bit,
}
use ppo_os.Elf.Print.{
  newline, elf_print, print_program_row, print_section_row, print_program_header,
  print_section_header, elf_print_header, elf_print_program_headers, elf_print_section_headers,
  elf_print_info,
}

-- The first `limit` entries lie in the file, as far as `width` bytes.
abbrev pub Inside : ℕ → ℕ → Table → ℕ → ℕ → Type 0
Inside elf_data size table limit width =
    (i : ℕ)
    → i < table.entries
    → i < limit
    → (elf_data ≤ entry_at elf_data table i) × (entry_at elf_data table i + width ≤ elf_data + size)

-- The header and the entries that are printed lie in the file.
pub record FitsIn (m : Memory) (elf_data size : ℕ) : Type 0 where
  pub header : 64 ≤ size
  pub programs : Inside elf_data size (program_table m elf_data) 10 28
  pub sections : Inside elf_data size (section_table m elf_data) 15 40

-- The state behind a loop, without its buffer.
abbrev without_buffer : {W : Type 0} → Option (Memory × W) → Option W
without_buffer o = option_case o none (λ (used, w). some w)

module _ (m m' : Memory) (elf_data size : ℕ)
    (same : (a : ℕ) → elf_data ≤ a → a < elf_data + size → m a ≡ m' a) where
  le16_same : (a : ℕ) → elf_data ≤ a → a + 2 ≤ elf_data + size → le16 m a ≡ le16 m' a
  le16_same a lo hi = rw (same a lo (omega arith), same (a + 1) (omega arith) (omega arith)) refl

  le32_same : (a : ℕ) → elf_data ≤ a → a + 4 ≤ elf_data + size → le32 m a ≡ le32 m' a
  le32_same a lo hi =
      omega (arith, le16_same a lo (omega arith), le16_same (a + 2) (omega arith) (omega arith))

  le64_same : (a : ℕ) → elf_data ≤ a → a + 8 ≤ elf_data + size → le64 m a ≡ le64 m' a
  le64_same a lo hi =
      omega (arith, le32_same a lo (omega arith), le32_same (a + 4) (omega arith) (omega arith))

  program_row_same :
      (is_64bit : Bool) (ph : ℕ)
      → elf_data ≤ ph
      → ph + 28 ≤ elf_data + size
      → program_row m is_64bit ph ≡ program_row m' is_64bit ph
  unfolding program_row
  program_row_same true ph lo hi =
      rw
        (
          le32_same ph lo (omega arith),
          le32_same (ph + 4) (omega arith) (omega arith),
          le64_same (ph + 16) (omega arith) (omega arith),
        )
        refl
  program_row_same false ph lo hi =
      rw
        (
          le32_same ph lo (omega arith),
          le32_same (ph + 24) (omega arith) (omega arith),
          le32_same (ph + 8) (omega arith) (omega arith),
        )
        refl

  section_row_same :
      (is_64bit : Bool) (sh : ℕ)
      → elf_data ≤ sh
      → sh + 40 ≤ elf_data + size
      → section_row m is_64bit sh ≡ section_row m' is_64bit sh
  unfolding section_row
  section_row_same true sh lo hi =
      rw
        (
          le32_same (sh + 4) (omega arith) (omega arith),
          le64_same (sh + 8) (omega arith) (omega arith),
          le64_same (sh + 16) (omega arith) (omega arith),
          le64_same (sh + 32) (omega arith) (omega arith),
        )
        refl
  section_row_same false sh lo hi =
      rw
        (
          le32_same (sh + 4) (omega arith) (omega arith),
          le32_same (sh + 8) (omega arith) (omega arith),
          le32_same (sh + 12) (omega arith) (omega arith),
          le32_same (sh + 20) (omega arith) (omega arith),
        )
        refl

  module _ (header : 64 ≤ size) where
    byte_same : (k : ℕ) → k < 64 → m (elf_data + k) ≡ m' (elf_data + k)
    byte_same k lt = same (elf_data + k) (omega arith) (omega arith)

    half_same : (k : ℕ) → k + 2 ≤ 64 → le16 m (elf_data + k) ≡ le16 m' (elf_data + k)
    half_same k le = le16_same (elf_data + k) (omega arith) (omega arith)

    word_same : (k : ℕ) → k + 4 ≤ 64 → le32 m (elf_data + k) ≡ le32 m' (elf_data + k)
    word_same k le = le32_same (elf_data + k) (omega arith) (omega arith)

    long_same : (k : ℕ) → k + 8 ≤ 64 → le64 m (elf_data + k) ≡ le64 m' (elf_data + k)
    long_same k le = le64_same (elf_data + k) (omega arith) (omega arith)

    is_64bit_same : elf_is_64bit m elf_data ≡ elf_is_64bit m' elf_data
    unfolding elf_is_64bit
    is_64bit_same = rw (byte_same 4 (omega arith)) refl

    is_valid_same : elf_is_valid m elf_data size ≡ elf_is_valid m' elf_data size
    unfolding elf_is_valid
    is_valid_same =
        rw
          (
            le32_same elf_data (omega arith) (omega arith),
            byte_same 4 (omega arith),
            byte_same 5 (omega arith),
            byte_same 6 (omega arith),
          )
          refl

    program_table_same : program_table m elf_data ≡ program_table m' elf_data
    unfolding program_table
    program_table_same =
        rw
          (
            is_64bit_same,
            long_same 32 (omega arith),
            half_same 54 (omega arith),
            half_same 56 (omega arith),
            word_same 28 (omega arith),
            half_same 42 (omega arith),
            half_same 44 (omega arith),
          )
          refl

    section_table_same : section_table m elf_data ≡ section_table m' elf_data
    unfolding section_table
    section_table_same =
        rw
          (
            is_64bit_same,
            long_same 40 (omega arith),
            half_same 58 (omega arith),
            half_same 60 (omega arith),
            word_same 32 (omega arith),
            half_same 46 (omega arith),
            half_same 48 (omega arith),
          )
          refl

    module _ {W : Type 0} (print_func : Option (List ℕ → W → W)) where
      header_same :
          (buffer : Memory) (w : W)
          → elf_print_header print_func m elf_data buffer w
            ≡ elf_print_header print_func m' elf_data buffer w
      unfolding elf_print_header
      header_same buffer w =
          rw
            (
              byte_same 4 (omega arith),
              byte_same 5 (omega arith),
              half_same 16 (omega arith),
              half_same 18 (omega arith),
            )
            (elim (Bool-cases (m' (elf_data + 4) == 1)) [
              | inl e ↦ rw (e, half_same 44 (omega arith), half_same 48 (omega arith)) refl
              | inr e ↦ rw (e, half_same 56 (omega arith), half_same 60 (omega arith)) refl
            ])

      program_header_same :
          Inside elf_data size (program_table m elf_data) 10 28
          → (i : ℕ) (state : Option (Memory × W)) → i < (program_table m elf_data).entries
          → i < 10
          → print_program_header print_func m elf_data i state
            ≡ print_program_header print_func m' elf_data i state
      unfolding print_program_header
      program_header_same inside i state lt limit =
          let (lo, hi) = inside i lt limit in
          ap (λ row. option_case state none (print_program_row print_func row))
            (program_row_same (elf_is_64bit m elf_data)
                (entry_at elf_data (program_table m elf_data) i) lo hi
              ∙ ap₂ (λ b t. program_row m' b (entry_at elf_data t i)) is_64bit_same
                  program_table_same)

      program_headers_same :
          Inside elf_data size (program_table m elf_data) 10 28
          → (buffer : Memory) (w : W)
          → elf_print_program_headers print_func m elf_data buffer w
            ≡ elf_print_program_headers print_func m' elf_data buffer w
      unfolding elf_print_program_headers
      program_headers_same inside buffer w =
          let entries = (program_table m elf_data).entries in
          rw (← program_table_same) (elim (Bool-cases (entries == 0)) [
            | inl none_there ↦ rw none_there refl
            | inr some_there ↦ rw some_there (
                ap without_buffer (
                  for_range_same _ _ (if ltb entries 10 then entries else 10) 0 _
                    (λ i s _ lt. program_header_same inside i s (ground arith) (ground arith))))
          ])

      section_header_same :
          Inside elf_data size (section_table m elf_data) 15 40
          → (i : ℕ) (state : Option (Memory × W)) → i < (section_table m elf_data).entries
          → i < 15
          → print_section_header print_func m elf_data i state
            ≡ print_section_header print_func m' elf_data i state
      unfolding print_section_header
      section_header_same inside i state lt limit =
          let (lo, hi) = inside i lt limit in
          ap (λ row. option_case state none (print_section_row print_func row))
            (section_row_same (elf_is_64bit m elf_data)
                (entry_at elf_data (section_table m elf_data) i) lo hi
              ∙ ap₂ (λ b t. section_row m' b (entry_at elf_data t i)) is_64bit_same
                  section_table_same)

      section_headers_same :
          Inside elf_data size (section_table m elf_data) 15 40
          → (buffer : Memory) (w : W)
          → elf_print_section_headers print_func m elf_data buffer w
            ≡ elf_print_section_headers print_func m' elf_data buffer w
      unfolding elf_print_section_headers
      section_headers_same inside buffer w =
          let entries = (section_table m elf_data).entries in
          rw (← section_table_same) (elim (Bool-cases (entries == 0)) [
            | inl none_there ↦ rw none_there refl
            | inr some_there ↦ rw some_there (
                ap without_buffer (
                  for_range_same _ _ (if ltb entries 15 then entries else 15) 0 _
                    (λ i s _ lt. section_header_same inside i s (ground arith) (ground arith))))
          ])

-- For a size of at least 64 bytes, if of each of the first 10 program entries and the first 15
-- section entries the first 28 and 40 bytes lie in the file, two memories that agree on the bytes
-- of the file give the same result of `elf_print_info`, for every print function.
pub elf_print_info_same :
    {W : Type 0} (print_func : Option (List ℕ → W → W)) (m m' : Memory) (elf_data size : ℕ)
    (stack : ℕ → Memory) (w : W)
    → FitsIn m elf_data size
    → ((a : ℕ) → elf_data ≤ a → a < elf_data + size → m a ≡ m' a)
    → elf_print_info print_func m elf_data size stack w
      ≡ elf_print_info print_func m' elf_data size stack w
unfolding elf_print_info
elf_print_info_same print_func m m' elf_data size stack w fits same =
    rw
      (
        is_valid_same m m' elf_data size same fits.header,
        header_same m m' elf_data size same fits.header print_func (stack 0) w,
      )
      (ap
        (λ f.
          if not (elf_is_valid m' elf_data size)
          then some (elf_print print_func (codes "Not a valid ELF file" ++ newline) w)
          else option_case (elf_print_header print_func m' elf_data (stack 0) w) none f)
        (fun_ext λ w1.
          ap₂ (λ o f. option_case o none f)
            (program_headers_same m m' elf_data size same fits.header print_func fits.programs
              (stack 1) w1)
            (fun_ext λ w2.
              section_headers_same m m' elf_data size same fits.header print_func fits.sections
                (stack 2) w2)))
