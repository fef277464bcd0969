-- ===== src/Exec/Cover.antt =====
-- Which pages the loop over a segment maps.
use ppo_os.Common.{ℕ, ◌+◌, ◌-◌, ◌*◌, ◌/◌, ◌%◌, ◌^◌, ◌≤◌, ◌<◌, ◌≡◌, ◌↔◌, ◌∙◌, arith}
use ppo_os.Pmm.{page_size}
use ppo_os.Vmm.Entry.{page_mask_lem}
use ppo_os.Exec.{ProgramHeader, segment_page, segment_rounds}

-- Every byte of the segment lies in a page of some round.
abbrev pub Covered : ProgramHeader → Type 0
Covered ph =
    (va : ℕ)
    → ph.p_vaddr ≤ va
    → va < ph.p_vaddr + ph.p_memsz
    → (k : ℕ) × (k < segment_rounds ph) × (segment_page ph k ≡ va / 4096 * 4096)

module _ (ph : ProgramHeader) (some_bytes : 0 < ph.p_memsz)
    (low : ph.p_vaddr + ph.p_memsz + page_size ≤ 2 ^ 64) where
  segment_page_lem :
      (k : ℕ) → k < segment_rounds ph → segment_page ph k ≡ (ph.p_vaddr / page_size + k) * page_size
  unfolding segment_page segment_rounds
  segment_page_lem k lt =
      let no_wrap : (ph.p_vaddr + k * page_size) % 2 ^ 64 ≡ ph.p_vaddr + k * page_size =
        omega arith in
      rw no_wrap (page_mask_lem (ph.p_vaddr + k * page_size) (omega arith) ∙ omega arith)

  -- For a segment that is not empty and ends at least a page below the end of the address space,
  -- the pages that `exec_elf` maps cover all its bytes exactly if its size and the offset of its
  -- start in its page together fit in as many pages as its size alone fills, rounded up.
  pub Covered-iff :
      Covered ph ↔ (ph.p_vaddr % 4096 + ph.p_memsz ≤ (ph.p_memsz + 4095) / 4096 * 4096)
  unfolding segment_rounds
  Covered-iff = (
    (λ all.
        let (k, lt, e) = all (ph.p_vaddr + ph.p_memsz - 1) (omega arith) (omega arith) in
        omega (arith, segment_page_lem k lt)),
    (λ room va lo hi.
        let k = va / page_size - ph.p_vaddr / page_size in
        let lt : va / page_size - ph.p_vaddr / page_size
            < (ph.p_memsz + page_size - 1) / page_size =
          omega arith in
        (k, lt, segment_page_lem k lt ∙ omega arith)),
  )
