-- ===== src/Pmm/Init.antt =====
-- `pmm_init`: which frames are free once the memory map has been read.
use ppo_os.Common.{
  ℕ, ◌*◌, bit_and, ◌+◌, ◌-◌, ◌/◌, ◌%◌, ◌^◌, ◌≤◌, ◌<◌, ◌≡◌, refl, Bool, true, false, not, ◌&&◌, ◌||◌,
  some, List, [], ◌∷◌, arith, leb, ltb, if◌then◌else◌, ◌==◌,
}
use ppo_os.Common.Bits.{all_below, all_below_sound}
use ppo_os.Pmm.{
  Pmm, MemmapEntry, BootInfo, page_size, max_phys_addr, bitmap_size, bitmap_test, start_frame,
  end_frame, kernel_size, pmm_init,
}
use ppo_os.Pmm.Bitmap.{IsBytes}
use ppo_os.Pmm.Alloc.{IsValid}
use ppo_os.Pmm.Flags.{
  frames, within, released, marked, IsSound, free_entries-Flags, mark_range-Flags,
}

-- The 4096 bytes of a frame all lie from `start` on and before `end`, or some of them do.
abbrev pub inside : ℕ → ℕ → ℕ → Bool
inside start end f = leb start (f * 4096) && leb (f * 4096 + 4096) end

abbrev pub overlaps : ℕ → ℕ → ℕ → Bool
overlaps start end f = ltb start (f * 4096 + 4096) && ltb (f * 4096) end

-- The frame lies wholly inside a usable entry of the memory map.
abbrev pub usable : List MemmapEntry → ℕ → Bool
usable [] f = false
usable (e ∷ es) f = ((e.type == 0) && inside e.base (e.base + e.length) f) || usable es f

-- The bytes from the kernel's address to its end, or 16 MiB where these are none or more than 512 MiB.
abbrev pub kernel_bytes : ℕ → ℕ → ℕ
kernel_bytes kernel_end virt_base =
    let bytes = kernel_end - virt_base in
    if (bytes == 0) || ltb (512 * 1024 * 1024) bytes then 16 * 1024 * 1024 else bytes

-- No range reaches into the last page of the address space.
abbrev pub AllFit : List MemmapEntry → Type 0
AllFit [] = Unit
AllFit (e ∷ es) = (e.base + e.length + 4096 ≤ 2 ^ 64) × AllFit es

pub record FitsIn (info : BootInfo) (entries : List MemmapEntry) (kernel : ℕ × ℕ) : Type 0 where
  pub entries_fit : AllFit entries
  pub kernel_order : kernel.1 ≤ info.kernel_end
  pub kernel_end_fits : info.kernel_end < 2 ^ 64
  pub kernel_fits : kernel.0 + kernel_bytes info.kernel_end kernel.1 + 4096 ≤ 2 ^ 64
  pub bitmap_fits : info.bitmap_addr + 128 * 1024 + 4096 ≤ 2 ^ 64

inside_lem :
    (e : MemmapEntry) (f : ℕ)
    → e.base + e.length + 4096 ≤ 2 ^ 64
    → within (start_frame e) (end_frame e) f ≡ inside e.base (e.base + e.length) f
inside_lem e f fits =
    let up : (e.base + 4095) % 2 ^ 64 ≡ e.base + 4095 = omega arith in
    let end : (e.base + e.length) % 2 ^ 64 ≡ e.base + e.length = omega arith in
    rw (up, end) (ground arith)

overlaps_lem :
    (addr size f : ℕ)
    → 0 < size
    → addr + size + 4096 ≤ 2 ^ 64
    → marked addr size f ≡ overlaps addr (addr + size) f
overlaps_lem addr size f some_bytes fits =
    let end : (addr + size + 4096 - 1) % 2 ^ 64 ≡ addr + size + 4095 = omega arith in
    rw end (ground arith)

usable_lem : (es : List MemmapEntry) (f : ℕ) → AllFit es → released es f ≡ usable es f
usable_lem [] f fits = refl
usable_lem (e ∷ es) f (fits, all) = rw (inside_lem e f fits, usable_lem es f all) refl

kernel_size_lem :
    (kernel_end virt_base : ℕ)
    → virt_base ≤ kernel_end
    → kernel_end < 2 ^ 64
    → kernel_size kernel_end virt_base ≡ kernel_bytes kernel_end virt_base
unfolding kernel_size
kernel_size_lem kernel_end virt_base le lt =
    let bytes : (kernel_end + 2 ^ 64 - virt_base) % 2 ^ 64 ≡ kernel_end - virt_base = omega arith in
    rw bytes refl

some_kernel_bytes : (kernel_end virt_base : ℕ) → 0 < kernel_bytes kernel_end virt_base
some_kernel_bytes kernel_end virt_base = ground arith

-- The allocator before `pmm_init`: static storage, or what an earlier call has left.
pub record IsFresh (s : Pmm) : Type 0 where
  pub bytes : IsBytes s.bitmap
  pub aligned : s.highest_address % page_size ≡ 0
  pub managed : s.highest_address ≤ max_phys_addr

-- `pmm_init` may be called again at any time.
pub IsFresh-valid : {s : Pmm} → IsValid s → IsFresh s
IsFresh-valid h = record { bytes = h.bytes; aligned = h.aligned; managed = h.managed }

-- The frame is in use: no usable entry holds it, or the kernel or the bitmap overlaps it.
abbrev pub init_flag : BootInfo → List MemmapEntry → ℕ × ℕ → ℕ → Bool
init_flag info entries (phys_base, virt_base) f =
    not (usable entries f)
    || overlaps phys_base (phys_base + kernel_bytes info.kernel_end virt_base) f
    || overlaps info.bitmap_addr (info.bitmap_addr + 128 * 1024) f

pub record Initialised (flag : ℕ → Bool) (s : Pmm) : Type 0 where
  pub flags : (f : ℕ) → f < frames → bitmap_test s.bitmap f ≡ flag f
  pub valid : IsValid s
  pub covers :
      (f : ℕ) → f < frames → bitmap_test s.bitmap f ≡ false → f < s.highest_address / page_size

all_ones : (k : ℕ) → k < 8 → not (bit_and 255 (2 ^ k) == 0) ≡ true
unfolding all_below
all_ones k lt = all_below_sound 8 (λ k. not (bit_and 255 (2 ^ k) == 0)) k table lt
  where
    table : all_below 8 (λ k. not (bit_and 255 (2 ^ k) == 0)) ≡ true
    table = refl

-- If the boot loader gave both responses, no entry of the memory map, nor the kernel's range nor
-- the bitmap's, reaches into the last page of the address space, the kernel's end is not below its
-- start, the bitmap holds bytes, and the managed end is a multiple of the page size up to 4 GiB,
-- `pmm_init` returns; a frame below 4 GiB is then free exactly if its 4096 bytes all lie in a
-- usable entry of the memory map and none of them in the kernel or in the range taken for the
-- bitmap, where a kernel of no bytes or of more than 512 MiB counts as 16 MiB; the allocator's
-- invariant holds, and every free frame below 4 GiB lies below the managed end.
pub pmm_init-Initialised :
    (info : BootInfo) (s : Pmm) (entries : List MemmapEntry) (kernel : ℕ × ℕ)
    → IsFresh s
    → info.memmap ≡ some entries
    → info.kernel_base ≡ some kernel
    → FitsIn info entries kernel
    → (t : Pmm) × (pmm_init info s ≡ some t) × Initialised (init_flag info entries kernel) t
unfolding pmm_init bitmap_test
pmm_init-Initialised info s entries (phys_base, virt_base) fresh em ek fits =
    let used : Pmm = record s { bitmap = λ j. if ltb j bitmap_size then 255 else s.bitmap j } in
    let used_flag : (f : ℕ) → f < frames → bitmap_test used.bitmap f ≡ true =
      λ f fr. ground (arith, all_ones (f % 8)) in
    let sound : IsSound used = record {
      bytes = λ i. ground (arith, fresh.bytes i);
      aligned = fresh.aligned;
      managed = fresh.managed;
      covers = λ f fr clear. cc (used_flag f fr, clear);
    } in
    let (h1, p1) = free_entries-Flags entries sound in
    let (h2, p2) = mark_range-Flags h1 phys_base (kernel_size info.kernel_end virt_base) in
    let (h3, p3) = mark_range-Flags h2 info.bitmap_addr bitmap_size in
    rw (em, ek)
      (
        _,
        refl,
        record {
          flags = λ f fr.
              rw
                (
                  ← usable_lem entries f fits.entries_fit,
                  ← overlaps_lem phys_base (kernel_bytes info.kernel_end virt_base) f
                      (some_kernel_bytes info.kernel_end virt_base) fits.kernel_fits,
                  ← overlaps_lem info.bitmap_addr bitmap_size f (omega arith) fits.bitmap_fits,
                  ← kernel_size_lem info.kernel_end virt_base fits.kernel_order
                      fits.kernel_end_fits,
                )
                (ground (arith, used_flag f fr, p1 f fr, p2 f fr, p3 f fr));
          valid = record {
            bytes = h3.bytes;
            aligned = h3.aligned;
            managed = h3.managed;
            start = omega arith;
          };
          covers = h3.covers;
        },
      )
