-- ===== src/Pmm/Tests.antt =====
-- Runs of the frame allocator on small memories.
use ppo_os.Common.{
  ℕ, ◌+◌, ◌*◌, ◌≡◌, refl, true, false, some, List, [], ◌∷◌, arith, ◌==◌, if◌then◌else◌,
}
use ppo_os.Pmm.{
  Pmm, MemmapEntry, BootInfo, bitmap_set, bitmap_test, alloc_scan, pmm_alloc_frame, pmm_free_frame,
  pmm_init,
}
use ppo_os.Pmm.Alloc.{
  IsValid, AllocOutcome, Allocated, pmm_alloc_frame_cases, alloc-Allocated, free-alloc,
  bitmap_test-free,
}
use ppo_os.Pmm.Init.{Initialised, init_flag, FitsIn, pmm_init-Initialised}
use ppo_os.Pmm.Trace.{alloc, free, Reach, here, next, IsSafe, Reach-IsSafe}

-- The frames 256 to 263 are free, and 2 MiB are managed.
abbrev pub eight_free : Pmm
eight_free = record {
  bitmap = λ j. if j == 32 then 0 else 255;
  last_alloc_index = 0;
  highest_address = 512 * 4096;
}

pub eight_free-IsValid : IsValid eight_free
eight_free-IsValid = record {
  bytes = λ i. ground arith;
  aligned = refl;
  managed = omega arith;
  start = omega arith;
}

abbrev pub taken : Pmm
taken = record {
  bitmap = bitmap_set eight_free.bitmap 256;
  last_alloc_index = 257;
  highest_address = 512 * 4096;
}

abbrev pub first : ℕ
first = 256 * 4096

pub alloc_run : pmm_alloc_frame eight_free ≡ (taken, some first)
unfolding pmm_alloc_frame alloc_scan bitmap_test
alloc_run = refl

pmm_alloc_frame_cases_example : AllocOutcome eight_free-IsValid (pmm_alloc_frame eight_free)
pmm_alloc_frame_cases_example = pmm_alloc_frame_cases eight_free-IsValid

alloc-Allocated_example : Allocated eight_free first taken × IsValid taken
alloc-Allocated_example = alloc-Allocated eight_free-IsValid alloc_run

frame_restored :
    bitmap_test (pmm_free_frame taken first).bitmap 256 ≡ bitmap_test eight_free.bitmap 256
frame_restored = free-alloc 256 eight_free-IsValid alloc_run

taken-IsValid : IsValid taken
taken-IsValid = (alloc-Allocated eight_free-IsValid alloc_run).1

bitmap_test-free_example :
    bitmap_test (pmm_free_frame taken first).bitmap 257 ≡ bitmap_test taken.bitmap 257
bitmap_test-free_example = bitmap_test-free taken-IsValid first 257 refl (omega arith)

run : Reach (eight_free, []) (pmm_free_frame taken first, [])
run = next (next here (alloc alloc_run)) (free first refl)

Reach-IsSafe_example : IsSafe (pmm_free_frame taken first, [])
Reach-IsSafe_example = Reach-IsSafe eight_free-IsValid run

-- A machine with 4 MiB of memory, whose kernel lies at 1 MiB.
abbrev pub small_entries : List MemmapEntry
small_entries = record { base = 0; length = 4 * 1024 * 1024; type = 0 } ∷ []

abbrev pub kernel_at : ℕ × ℕ
kernel_at = (1024 * 1024, 0xffffffff80000000)

abbrev pub small_machine : BootInfo
small_machine = record {
  memmap = some small_entries;
  kernel_base = some kernel_at;
  kernel_end = 0xffffffff80000000 + 64 * 1024;
  bitmap_addr = 0xffffffff80004000;
}

abbrev pub static_storage : Pmm
static_storage = record { bitmap = λ j. 0; last_alloc_index = 0; highest_address = 0 }

pub small_machine-FitsIn : FitsIn small_machine small_entries kernel_at
small_machine-FitsIn = record {
  entries_fit = (omega arith, tt);
  kernel_order = omega arith;
  kernel_end_fits = omega arith;
  kernel_fits = omega arith;
  bitmap_fits = omega arith;
}

pmm_init-Initialised_example :
    (t : Pmm) × (pmm_init small_machine static_storage ≡ some t)
    × Initialised (init_flag small_machine small_entries kernel_at) t
pmm_init-Initialised_example =
    pmm_init-Initialised small_machine static_storage small_entries kernel_at
      (record { bytes = λ i. omega arith; aligned = omega arith; managed = omega arith }) refl refl
      small_machine-FitsIn

-- The kernel's first frame is marked, the frame behind the kernel is free.
kernel_marked : init_flag small_machine small_entries kernel_at 256 ≡ true
kernel_marked = refl

behind_kernel_free : init_flag small_machine small_entries kernel_at 272 ≡ false
behind_kernel_free = refl
