-- ===== src/Pmm.antt =====
-- The physical memory manager of kernel/src/src/vmm.c: a bitmap with one bit for each 4 KiB frame,
-- `pmm_init`, `pmm_alloc_frame` and `pmm_free_frame`. Messages on the serial port are left out.
pub mod Bitmap
pub mod Flags
pub mod Init
pub mod Alloc
pub mod Trace
pub mod Tests
use ppo_os.Common.{
  ℕ, zero, suc, ◌+◌, ◌-◌, ◌*◌, ◌/◌, ◌%◌, ◌^◌, Bool, true, false, not, Option, none, some, List, [],
  ◌∷◌, bit_and, bit_or, ltb, leb, ◌==◌, if◌then◌else◌, ◌||◌,
}
use ppo_os.Common.Loops.{for_range}

abbrev pub page_size : ℕ
page_size = 4096

-- PMM_MAX_PHYS_ADDR, 4 GiB
abbrev pub max_phys_addr : ℕ
max_phys_addr = 4 * 1024 * 1024 * 1024

-- PMM_BITMAP_SIZE, in bytes
abbrev pub bitmap_size : ℕ
bitmap_size = max_phys_addr / page_size / 8

-- `pmm_bitmap`: the byte at each index
abbrev pub Bitmap : Type 0
Bitmap = ℕ → ℕ

abbrev pub write_byte : Bitmap → ℕ → ℕ → Bitmap
write_byte m i v j = if j == i then v else m j

unfoldable pub bitmap_set : Bitmap → ℕ → Bitmap
bitmap_set m bit = write_byte m (bit / 8) (bit_or (m (bit / 8)) (2 ^ (bit % 8)))

-- On a byte, `~(1 << k)` is the complement to 255.
unfoldable pub bitmap_unset : Bitmap → ℕ → Bitmap
bitmap_unset m bit = write_byte m (bit / 8) (bit_and (m (bit / 8)) (255 - 2 ^ (bit % 8)))

unfoldable pub bitmap_test : Bitmap → ℕ → Bool
bitmap_test m bit = not (bit_and (m (bit / 8)) (2 ^ (bit % 8)) == 0)

-- The static variables of the allocator.
pub record Pmm : Type 0 where
  pub bitmap : Bitmap
  pub last_alloc_index : ℕ
  pub highest_address : ℕ

-- `struct limine_memmap_entry`
pub record MemmapEntry : Type 0 where
  pub base : ℕ
  pub length : ℕ
  pub type : ℕ

-- LIMINE_MEMMAP_USABLE
abbrev pub memmap_usable : ℕ
memmap_usable = 0

-- What `pmm_init` reads of the boot loader's responses, the linker symbol `_kernel_end` and the
-- address of `pmm_bitmap`. A missing response is `none`.
pub record BootInfo : Type 0 where
  pub memmap : Option (List MemmapEntry)
  pub kernel_base : Option (ℕ × ℕ)
  pub kernel_end : ℕ
  pub bitmap_addr : ℕ

-- One round of the loop over the frames of a usable entry.
unfoldable pub free_round : ℕ → Pmm → Pmm
free_round frame s = if leb max_phys_addr (frame * page_size % 2 ^ 64) then s else record s {
  bitmap = bitmap_unset s.bitmap frame;
  highest_address =
      if ltb s.highest_address ((frame + 1) * page_size % 2 ^ 64)
      then (frame + 1) * page_size % 2 ^ 64
      else s.highest_address;
}

abbrev pub start_frame : MemmapEntry → ℕ
start_frame e = (e.base + (page_size - 1)) % 2 ^ 64 / page_size

abbrev pub end_frame : MemmapEntry → ℕ
end_frame e = (e.base + e.length) % 2 ^ 64 / page_size

unfoldable pub free_entry : MemmapEntry → Pmm → Pmm
free_entry e s =
    if e.type == memmap_usable
    then for_range (end_frame e - start_frame e) (start_frame e) free_round s
    else s

unfoldable pub free_entries : List MemmapEntry → Pmm → Pmm
unfolding free_entry
free_entries [] s = s
free_entries (e ∷ es) s = free_entries es (free_entry e s)

unfoldable pub mark_round : ℕ → Pmm → Pmm
mark_round frame s =
    if leb max_phys_addr (frame * page_size % 2 ^ 64)
    then s
    else record s { bitmap = bitmap_set s.bitmap frame }

-- Marks the frames that the `size` bytes from `addr` touch.
abbrev pub first_frame : ℕ → ℕ
first_frame addr = addr / page_size

abbrev pub last_frame : ℕ → ℕ → ℕ
last_frame addr size = (addr + size + page_size - 1) % 2 ^ 64 / page_size

unfoldable pub mark_range : ℕ → ℕ → Pmm → Pmm
mark_range addr size s =
    for_range (last_frame addr size - first_frame addr) (first_frame addr) mark_round s

-- The kernel's size by its linker symbol, or the 16 MiB placeholder.
unfoldable pub kernel_size : ℕ → ℕ → ℕ
kernel_size kernel_end virt_base =
    let size = (kernel_end + 2 ^ 64 - virt_base) % 2 ^ 64 in
    if (size == 0) || ltb (512 * 1024 * 1024) size then 16 * 1024 * 1024 else size

-- `none` is the endless loop after a missing response.
unfoldable pub pmm_init : BootInfo → Pmm → Option Pmm
pmm_init info s = elim info.memmap [
  | none ↦ none
  | some entries ↦ elim info.kernel_base [
    | none ↦ none
    | some (phys_base, virt_base) ↦
        let used = record s { bitmap = λ j. if ltb j bitmap_size then 255 else s.bitmap j } in
        let freed = free_entries entries used in
        let kernel_marked = mark_range phys_base (kernel_size info.kernel_end virt_base) freed in
        let bitmap_marked = mark_range info.bitmap_addr bitmap_size kernel_marked in
        some (record bitmap_marked { last_alloc_index = 0 })
  ]
]

-- The scan of `pmm_alloc_frame` with `n` rounds left, at round `i`.
unfoldable pub alloc_scan : ℕ → ℕ → ℕ → Pmm → Pmm × Option ℕ
alloc_scan max_bits zero i s = (s, none)
alloc_scan max_bits (suc n) i s =
    let current_index = (s.last_alloc_index + i) % 2 ^ 64 % max_bits in
    let rest = alloc_scan max_bits n (i + 1) s in
    if ltb (current_index * page_size % 2 ^ 64) 0x100000
    then rest
    else if bitmap_test s.bitmap current_index
    then rest
    else (
      record s {
        bitmap = bitmap_set s.bitmap current_index;
        last_alloc_index = (current_index + 1) % 2 ^ 64;
      },
      some (current_index * page_size % 2 ^ 64),
    )

-- The physical address of the frame, or `none` for NULL.
unfoldable pub pmm_alloc_frame : Pmm → Pmm × Option ℕ
pmm_alloc_frame s = let max_bits = s.highest_address / page_size in alloc_scan max_bits max_bits 0 s

unfoldable pub pmm_free_frame : Pmm → ℕ → Pmm
pmm_free_frame s phys_addr =
    if not (phys_addr % page_size == 0)
    then s
    else if leb s.highest_address (phys_addr / page_size * page_size)
    then s
    else record s { bitmap = bitmap_unset s.bitmap (phys_addr / page_size) }
