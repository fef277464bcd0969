-- ===== src/Exec.antt =====
-- kernel/src/src/exec.c: loading an ELF program into an address space of its own and running it.
-- The page tables are those of Vmm. The bytes of files and of the frames that hold the program are a
-- memory of bytes of its own at the kernel's addresses, since no such frame is a table at that time.
-- `hhdm` is the offset of the direct map. `jmp_usermode` is assembly: it is a parameter, which takes
-- the machine to the one that the program leaves when it exits. Serial messages are left out.
pub mod Page
pub mod Cover
mod Tests
use ppo_os.Common.Numbers.{le16, le32, le64}
use ppo_os.Common.{
  ℕ, zero, suc, ◌+◌, ◌-◌, ◌*◌, ◌/◌, ◌%◌, ◌^◌, bit_and, bit_or, Bool, true, false, not, ◌&&◌, ◌||◌,
  Option, none, some, ltb, leb, ◌==◌, if◌then◌else◌, option_case,
}
use ppo_os.Common.Loops.{for_range}
use ppo_os.Pmm.{page_size, pmm_alloc_frame, pmm_free_frame}
use ppo_os.Fs.{File, fill, copy}
use ppo_os.Vmm.{
  Vmm, Memory, pte_present, pte_writable, pte_user, pte_nx, page_mask, phys_to_virt, vmm_map_page,
  vmm_unmap_page, vmm_get_physical_address, vmm_create_address_space, vmm_get_current_address_space,
  vmm_switch_address_space,
}

-- `elf64_program_header_t`, as far as it is used.
pub record ProgramHeader : Type 0 where
  pub p_type : ℕ
  pub p_flags : ℕ
  pub p_offset : ℕ
  pub p_vaddr : ℕ
  pub p_filesz : ℕ
  pub p_memsz : ℕ

abbrev pub program_header : Memory → ℕ → ProgramHeader
program_header m a = record {
  p_type = le32 m a;
  p_flags = le32 m (a + 4);
  p_offset = le64 m (a + 8);
  p_vaddr = le64 m (a + 16);
  p_filesz = le64 m (a + 32);
  p_memsz = le64 m (a + 40);
}

-- The tests of `exec_elf` on the fields of the header: magic, class, data, type, machine, version.
unfoldable pub valid_header : Memory → ℕ → Bool
valid_header m header =
    (le32 m header == 0x464C457F)
    && (m (header + 4) == 2)
    && (m (header + 5) == 1)
    && (le16 m (header + 16) == 2)
    && (le16 m (header + 18) == 62)
    && (m (header + 6) == 1)

-- The bytes that a page takes from the file: where in the page, where in the file, how many.
pub record CopyRange : Type 0 where
  pub offset_in_page : ℕ
  pub file_offset : ℕ
  pub bytes_to_copy : ℕ

unfoldable pub copy_range : ProgramHeader → ℕ → CopyRange
copy_range ph page_vaddr =
    let segment_end_in_file = (ph.p_offset + ph.p_filesz) % 2 ^ 64 in
    let page_end_vaddr = (page_vaddr + page_size) % 2 ^ 64 in
    let segment_end_vaddr = (ph.p_vaddr + ph.p_memsz) % 2 ^ 64 in
    let copy_start = if ltb ph.p_vaddr page_vaddr then page_vaddr else ph.p_vaddr in
    let copy_end =
      if ltb page_end_vaddr segment_end_vaddr then page_end_vaddr else segment_end_vaddr in
    let file_offset = (ph.p_offset + (copy_start - ph.p_vaddr)) % 2 ^ 64 in
    let wanted = copy_end - copy_start in
    record {
      offset_in_page = copy_start - page_vaddr;
      file_offset = file_offset;
      bytes_to_copy =
          if not (ltb copy_start copy_end)
          then 0
          else if ltb segment_end_in_file ((file_offset + wanted) % 2 ^ 64)
          then (if leb segment_end_in_file file_offset
              then 0
              else segment_end_in_file - file_offset)
          else wanted;
    }

-- What a frame holds after `memset` and `memcpy`.
unfoldable pub fill_frame : Memory → ℕ → ℕ → ProgramHeader → ℕ → Memory
fill_frame m virt_frame_dest elf_data ph page_vaddr =
    let range = copy_range ph page_vaddr in
    copy (fill m virt_frame_dest 0 page_size) (virt_frame_dest + range.offset_in_page)
      (elf_data + range.file_offset) range.bytes_to_copy

unfoldable pub page_flags : ℕ → ℕ
page_flags segment_flags =
    let base = bit_or pte_present pte_user in
    let writable = if not (bit_and segment_flags 2 == 0) then bit_or base pte_writable else base in
    if bit_and segment_flags 1 == 0 then bit_or writable pte_nx else writable

-- `(ph->p_vaddr + offset) & PAGE_MASK` in round `k` of the loop over a segment.
unfoldable pub segment_page : ProgramHeader → ℕ → ℕ
segment_page ph k = bit_and ((ph.p_vaddr + k * page_size) % 2 ^ 64) page_mask

-- The rounds of `for (offset = 0; offset < p_memsz; offset += PAGE_SIZE)`.
unfoldable pub segment_rounds : ProgramHeader → ℕ
segment_rounds ph = (ph.p_memsz + page_size - 1) / page_size

pub record Machine : Type 0 where
  pub vmm : Vmm
  pub bytes : Memory

-- USER_STACK_PAGES, USER_STACK_TOP_VADDR, USER_STACK_BOTTOM_VADDR
abbrev pub user_stack_pages : ℕ
user_stack_pages = 8

abbrev pub user_stack_top_vaddr : ℕ
user_stack_top_vaddr = 0x80000000 - page_size

abbrev pub user_stack_bottom_vaddr : ℕ
user_stack_bottom_vaddr = user_stack_top_vaddr - (user_stack_pages - 1) * page_size

module _ (hhdm : ℕ) where
  -- One round of the loop over a segment; false makes `exec_elf` return.
  unfoldable pub load_page : ℕ → ℕ → ProgramHeader → ℕ → Machine × Bool → Machine × Bool
  load_page elf_data pml4 ph k (s, false) = (s, false)
  load_page elf_data pml4 ph k (s, true) =
      let page_vaddr = segment_page ph k in
      let (pmm, frame) = pmm_alloc_frame s.vmm.pmm in
      option_case frame (record s { vmm = record s.vmm { pmm = pmm } }, false)
        λ phys_frame.
          let (vmm, mapped) =
            vmm_map_page hhdm (record s.vmm { pmm = pmm }) pml4 page_vaddr phys_frame
              (page_flags ph.p_flags) in
          if not mapped
          then (record s { vmm = record vmm { pmm = pmm_free_frame vmm.pmm phys_frame } }, false)
          else (
            record {
              vmm = vmm;
              bytes = fill_frame s.bytes (phys_to_virt hhdm phys_frame) elf_data ph page_vaddr;
            },
            true,
          )

  unfoldable pub load_segment : ℕ → ℕ → ProgramHeader → Machine × Bool → Machine × Bool
  load_segment elf_data pml4 ph s =
      if not (ph.p_type == 1) || (ph.p_memsz == 0)
      then s
      else for_range (segment_rounds ph) 0 (load_page elf_data pml4 ph) s

  unfoldable pub load_segments : ℕ → ℕ → ℕ → ℕ → Machine → Machine × Bool
  load_segments elf_data pml4 phdrs phnum s =
      for_range phnum 0
        (λ i state.
          load_segment elf_data pml4 (program_header state.0.bytes (phdrs + 56 * i)) state)
        (s, true)

  -- A page of the user's stack.
  unfoldable pub map_stack_page : ℕ → ℕ → Machine × Bool → Machine × Bool
  map_stack_page pml4 k (s, false) = (s, false)
  map_stack_page pml4 k (s, true) =
      let vaddr = user_stack_bottom_vaddr + k * page_size in
      let (pmm, frame) = pmm_alloc_frame s.vmm.pmm in
      option_case frame (record s { vmm = record s.vmm { pmm = pmm } }, false)
        λ phys_frame.
          let (vmm, mapped) =
            vmm_map_page hhdm (record s.vmm { pmm = pmm }) pml4 vaddr phys_frame
              (bit_or (bit_or pte_present pte_user) pte_writable) in
          if not mapped
          then (record s { vmm = record vmm { pmm = pmm_free_frame vmm.pmm phys_frame } }, false)
          else (record s { vmm = vmm }, true)

  -- A page of the stack in the clean-up.
  unfoldable pub free_stack_page : ℕ → ℕ → Vmm → Vmm
  free_stack_page pml4 k s =
      let vaddr = user_stack_bottom_vaddr + k * page_size in
      let phys_addr = vmm_get_physical_address hhdm s.mem pml4 vaddr in
      if phys_addr == 0
      then s
      else vmm_unmap_page hhdm (record s { pmm = pmm_free_frame s.pmm phys_addr }) pml4 vaddr

  -- From the switch to the program's address space to the end of `exec_elf`.
  unfoldable pub run_program : (Machine → ℕ → ℕ → Machine) → ℕ → ℕ → Machine → Machine
  run_program jmp_usermode pml4 entry s =
      let kernel = vmm_get_current_address_space s.vmm in
      let user_rsp = user_stack_top_vaddr + page_size - 8 in
      let left =
        jmp_usermode (record s { vmm = vmm_switch_address_space s.vmm pml4 }) entry user_rsp in
      let back = vmm_switch_address_space left.vmm kernel in
      record left { vmm = for_range user_stack_pages 0 (free_stack_page pml4) back }

  -- `exec_elf` where `fs_open` has given this file or NULL. `none` is the endless loop of
  -- `vmm_create_address_space`.
  unfoldable pub exec_elf : (Machine → ℕ → ℕ → Machine) → Option File → Machine → Option Machine
  exec_elf jmp_usermode elf_file_struct s = option_case elf_file_struct (some s) λ file.
      let header = file.content in
      let entry = le64 s.bytes (header + 24) in
      let e_phoff = le64 s.bytes (header + 32) in
      let e_phnum = le16 s.bytes (header + 56) in
      if ltb file.size 64
      then some s
      else if not (valid_header s.bytes header)
      then some s
      else option_case (vmm_create_address_space hhdm s.vmm) none λ (vmm, root).
        let s1 = record s { vmm = vmm } in
        option_case root (some s1) λ pml4.
          let (s2, loaded) = load_segments header pml4 (header + e_phoff) e_phnum s1 in
          let (s3, stacked) = for_range user_stack_pages 0 (map_stack_page pml4) (s2, true) in
          if ltb file.size ((e_phoff + e_phnum * 56) % 2 ^ 64)
          then some s1
          else if not loaded
          then some s2
          else if not stacked
          then some s3
          else some (run_program jmp_usermode pml4 entry s3)
