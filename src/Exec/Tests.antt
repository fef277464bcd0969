-- ===== src/Exec/Tests.antt =====
-- A segment that starts 256 bytes into a page and has 4096 bytes, of which the file has 2048.
use ppo_os.Common.{◌/◌, ℕ, ◌+◌, ◌*◌, ◌%◌, ◌<◌, ◌≤◌, ◌≡◌, ◌↔◌, ◌⊎◌, inr, refl, arith}
use ppo_os.Pmm.{page_size}
use ppo_os.Vmm.{Memory}
use ppo_os.Exec.{ProgramHeader, fill_frame, page_flags}
use ppo_os.Exec.Page.{segment_byte, Fits, fill_frame-segment_byte}
use ppo_os.Exec.Cover.{Covered, Covered-iff}

abbrev segment : ProgramHeader
segment = record {
  p_type = 1;
  p_flags = 5;
  p_offset = 64;
  p_vaddr = 0x400100;
  p_filesz = 2048;
  p_memsz = 4096;
}

abbrev counting : Memory
counting a = a % 256

segment-Fits : Fits segment
segment-Fits = record { in_memory = omega arith; in_file = omega arith; as_far = omega arith }

fill_frame-segment_byte_example :
    ((i : ℕ)
      → i < page_size
      → fill_frame counting 1_000_000 5000 segment 0x400000 (1_000_000 + i)
        ≡ segment_byte counting 5000 segment (0x400000 + i))
    × ((a : ℕ)
        → (a < 1_000_000) ⊎ (1_000_000 + page_size ≤ a)
        → fill_frame counting 1_000_000 5000 segment 0x400000 a ≡ counting a)
fill_frame-segment_byte_example =
    fill_frame-segment_byte segment segment-Fits 0x400000 (omega arith) counting 1_000_000 5000
      (inr (omega arith))

Covered-iff_example : Covered segment ↔ (0x400100 % 4096 + 4096 ≤ (4096 + 4095) / 4096 * 4096)
Covered-iff_example = Covered-iff segment (omega arith) (omega arith)

-- Readable and executable, not writable.
page_flags_run : page_flags 5 ≡ 5
unfolding page_flags
page_flags_run = refl
