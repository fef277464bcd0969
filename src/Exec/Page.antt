-- ===== src/Exec/Page.antt =====
-- What a page of a loaded program holds.
use ppo_os.Common.{
  ℕ, ◌+◌, ◌-◌, ◌^◌, ◌≤◌, ◌<◌, ◌≡◌, refl, min, ◌⊎◌, inl, inr, Bool, true, false, ◌&&◌, ltb, leb,
  arith, if◌then◌else◌, Bool-cases,
}
use ppo_os.Pmm.{page_size}
use ppo_os.Fs.{fill}
use ppo_os.Vmm.{Memory}
use ppo_os.Exec.{ProgramHeader, copy_range, fill_frame}

-- The byte that the program is to find at a virtual address: the file's, or 0.
abbrev pub segment_byte : Memory → ℕ → ProgramHeader → ℕ → ℕ
segment_byte m elf_data ph va =
    if leb ph.p_vaddr va && ltb va (ph.p_vaddr + min ph.p_filesz ph.p_memsz)
    then m (elf_data + ph.p_offset + (va - ph.p_vaddr))
    else 0

-- No sum of the segment's fields wraps.
pub record Fits (ph : ProgramHeader) : Type 0 where
  pub in_memory : ph.p_vaddr + ph.p_memsz < 2 ^ 64
  pub in_file : ph.p_offset + ph.p_filesz < 2 ^ 64
  pub as_far : ph.p_offset + ph.p_memsz < 2 ^ 64

module _ (ph : ProgramHeader) (fits : Fits ph) (page : ℕ) (low : page + page_size < 2 ^ 64) where
  abbrev start : ℕ
  start = if ltb ph.p_vaddr page then page else ph.p_vaddr

  offset_in_page_lem : (copy_range ph page).offset_in_page ≡ start - page
  unfolding copy_range
  offset_in_page_lem = refl

  bytes_to_copy_lem :
      (copy_range ph page).bytes_to_copy
      ≡ min (page + page_size) (ph.p_vaddr + min ph.p_filesz ph.p_memsz) - start
  unfolding copy_range
  bytes_to_copy_lem = ground (arith, fits.in_memory, fits.in_file, fits.as_far)

  file_offset_lem :
      start ≤ ph.p_vaddr + ph.p_memsz
      → (copy_range ph page).file_offset ≡ ph.p_offset + (start - ph.p_vaddr)
  unfolding copy_range
  file_offset_lem h = ground (arith, fits.as_far)

  -- Whether `memcpy` writes the byte at `a`.
  abbrev is_copied : ℕ → ℕ → Bool
  is_copied frame a =
      leb (frame + (start - page)) a
      && ltb a (
          frame
          + (start - page)
          + (min (page + page_size) (ph.p_vaddr + min ph.p_filesz ph.p_memsz) - start))

  -- If no sum of a segment's fields wraps and the file's bytes of the segment do not overlap with
  -- the frame, then a frame that `exec_elf` has filled for a page holds at each virtual address of
  -- the page the byte of the file for that address, and 0 at those outside the segment or behind
  -- its bytes in the file, and every byte outside the frame stays.
  pub fill_frame-segment_byte :
      (m : Memory) (frame elf_data : ℕ)
      → (frame + page_size ≤ elf_data + ph.p_offset)
        ⊎ (elf_data + ph.p_offset + ph.p_filesz ≤ frame)
      → ((i : ℕ)
          → i < page_size
          → fill_frame m frame elf_data ph page (frame + i) ≡ segment_byte m elf_data ph (page + i))
        × ((a : ℕ)
            → (a < frame) ⊎ (frame + page_size ≤ a)
            → fill_frame m frame elf_data ph page a ≡ m a)
  unfolding fill_frame
  fill_frame-segment_byte m frame elf_data apart = (
    (λ i lt.
        elim (Bool-cases
          (leb ph.p_vaddr (page + i) && ltb (page + i) (ph.p_vaddr + min ph.p_filesz ph.p_memsz))) [
            | inl e ↦
                let far : start ≤ ph.p_vaddr + ph.p_memsz = ground arith in
                let source : elf_data
                      + (ph.p_offset + (start - ph.p_vaddr))
                      + (frame + i - (frame + (start - page)))
                    ≡ elf_data + ph.p_offset + (page + i - ph.p_vaddr) =
                  ground arith in
                let taken : is_copied frame (frame + i) ≡ true = ground arith in
                let foreign : (leb frame (elf_data + ph.p_offset + (page + i - ph.p_vaddr))
                      && ltb (elf_data + ph.p_offset + (page + i - ph.p_vaddr)) (frame + page_size))
                    ≡ false =
                  ground arith in
                rw
                  (
                    e,
                    bytes_to_copy_lem,
                    offset_in_page_lem,
                    file_offset_lem far,
                    source,
                    taken,
                    foreign,
                  )
                  refl
            | inr e ↦
                let left : is_copied frame (frame + i) ≡ false = ground arith in
                let cleared : fill m frame 0 page_size (frame + i) ≡ 0 = ground arith in
                rw (e, bytes_to_copy_lem, offset_in_page_lem, left, cleared) refl
          ]),
    (λ a out.
        let left : is_copied frame a ≡ false = ground arith in
        let kept : fill m frame 0 page_size a ≡ m a = ground arith in
        rw (bytes_to_copy_lem, offset_in_page_lem, left, kept) refl),
  )
