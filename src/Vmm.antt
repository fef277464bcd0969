-- ===== src/Vmm.antt =====
-- The virtual memory manager of kernel/src/src/vmm.c: four-level page tables, reached through the
-- direct map. Memory holds 64-bit words at kernel virtual addresses. `hhdm` is the offset that the
-- boot loader reports; without a report the kernel stops in `phys_to_virt`. Messages on the serial
-- port and the TLB (`invlpg`) are left out.
pub mod Entry
pub mod Tree
pub mod Walk
pub mod Grow
pub mod Leaf
pub mod Map
pub mod Unmap
pub mod Translate
pub mod Space
mod Tests
use ppo_os.Common.{
  ℕ, zero, suc, ◌+◌, ◌-◌, ◌*◌, ◌/◌, ◌%◌, ◌^◌, Bool, true, false, not, ◌&&◌, Option, none, some,
  bit_and, bit_or, ltb, leb, ◌==◌, option_case, if◌then◌else◌,
}
use ppo_os.Common.Loops.{for_range}
use ppo_os.Pmm.{Pmm, page_size, pmm_alloc_frame}

-- PTE_PRESENT, PTE_WRITABLE, PTE_USER, PTE_NX
abbrev pub pte_present : ℕ
pte_present = 1

abbrev pub pte_writable : ℕ
pte_writable = 2

abbrev pub pte_user : ℕ
pte_user = 4

abbrev pub pte_nx : ℕ
pte_nx = 2 ^ 63

-- PAGE_MASK, `~(PAGE_SIZE - 1)` widened to 64 bits
abbrev pub page_mask : ℕ
page_mask = 2 ^ 64 - 4096

abbrev pub Memory : Type 0
Memory = ℕ → ℕ

pub record Vmm : Type 0 where
  pub pmm : Pmm
  pub mem : Memory
  pub g_kernel_pml4 : ℕ
  pub cr3 : ℕ

abbrev pub write_word : Memory → ℕ → ℕ → Memory
write_word m p w a = if a == p then w else m a

-- memset(p, 0, PAGE_SIZE)
abbrev pub zero_page : Memory → ℕ → Memory
zero_page m p a = if leb p a && ltb a (p + page_size) then 0 else m a

-- `*entry & PTE_PRESENT`
unfoldable pub present : ℕ → Bool
present e = not (bit_and e pte_present == 0)

-- `(virt_addr >> shift) & 0x1FF`
unfoldable pub table_index : ℕ → ℕ → ℕ
table_index shift virt_addr = bit_and (virt_addr / 2 ^ shift) 0x1FF

-- The address of `entries[i]` in the table at `table`.
abbrev pub entry_addr : ℕ → ℕ → ℕ
entry_addr table i = table + 8 * i

-- What `vmm_map_page` stores for a table that it has just allocated.
unfoldable pub table_entry : ℕ → ℕ
table_entry phys = bit_or (bit_or (bit_or phys pte_present) pte_writable) pte_user

-- One round of the copy of the kernel's half in `vmm_create_address_space`.
unfoldable pub copy_entry : ℕ → ℕ → ℕ → Memory → Memory
copy_entry kernel_virt user_virt i m =
    let e = m (entry_addr kernel_virt i) in
    if present e then write_word m (entry_addr user_virt i) e else m

module _ (hhdm : ℕ) where
  unfoldable pub phys_to_virt : ℕ → ℕ
  phys_to_virt phys_addr = (phys_addr + hhdm) % 2 ^ 64

  -- One level of the walk in `vmm_map_page`: the virtual address of the next table, which is
  -- allocated, cleared and entered if it is missing; `none` if there is no frame for it.
  unfoldable pub next_table : Vmm → ℕ → ℕ → Vmm × Option ℕ
  next_table s table i =
      let entry = entry_addr table i in
      if not (present (s.mem entry))
      then (let (pmm', frame) = pmm_alloc_frame s.pmm in
          option_case frame (record s { pmm = pmm' }, none)
            λ phys.
              let next = phys_to_virt phys in
              (
                record s {
                  pmm = pmm';
                  mem = write_word (zero_page s.mem next) entry (table_entry phys);
                },
                some next,
              ))
      else (s, some (phys_to_virt (bit_and (s.mem entry) page_mask)))

  unfoldable pub vmm_map_page : Vmm → ℕ → ℕ → ℕ → ℕ → Vmm × Bool
  vmm_map_page s pml4 virt_addr phys_addr flags =
      let (s1, pdpt) = next_table s (phys_to_virt pml4) (table_index 39 virt_addr) in
      option_case pdpt (s1, false)
        λ pdpt_virt.
          let (s2, pd) = next_table s1 pdpt_virt (table_index 30 virt_addr) in
          option_case pd (s2, false)
            λ pd_virt.
              let (s3, pt) = next_table s2 pd_virt (table_index 21 virt_addr) in
              option_case pt (s3, false)
                λ pt_virt. (
                  record s3 {
                    mem =
                        write_word s3.mem (entry_addr pt_virt (table_index 12 virt_addr))
                          (bit_or phys_addr flags);
                  },
                  true,
                )

  -- The next table of an existing walk, if the entry is present.
  unfoldable pub follow : Memory → ℕ → ℕ → Option ℕ
  follow m table i =
      let e = m (entry_addr table i) in
      if not (present e) then none else some (phys_to_virt (bit_and e page_mask))

  unfoldable pub vmm_unmap_page : Vmm → ℕ → ℕ → Vmm
  unfolding follow
  vmm_unmap_page s pml4 virt_addr =
      option_case (follow s.mem (phys_to_virt pml4) (table_index 39 virt_addr)) s λ pdpt.
        option_case (follow s.mem pdpt (table_index 30 virt_addr)) s λ pd.
          option_case (follow s.mem pd (table_index 21 virt_addr)) s λ pt.
            let pte = entry_addr pt (table_index 12 virt_addr) in
            if not (present (s.mem pte)) then s else record s { mem = write_word s.mem pte 0 }

  unfoldable pub vmm_get_physical_address : Memory → ℕ → ℕ → ℕ
  unfolding follow
  vmm_get_physical_address m pml4 virt_addr =
      option_case (follow m (phys_to_virt pml4) (table_index 39 virt_addr)) 0 λ pdpt.
        option_case (follow m pdpt (table_index 30 virt_addr)) 0 λ pd.
          option_case (follow m pd (table_index 21 virt_addr)) 0 λ pt.
            let pte = m (entry_addr pt (table_index 12 virt_addr)) in
            if not (present pte) then 0 else bit_or (bit_and pte page_mask) (bit_and virt_addr 4095)

  -- The outer `none` is the endless loop before `vmm_init`, the inner one NULL.
  unfoldable pub vmm_create_address_space : Vmm → Option (Vmm × Option ℕ)
  vmm_create_address_space s =
      if s.g_kernel_pml4 == 0
      then none
      else (let (pmm', frame) = pmm_alloc_frame s.pmm in
          option_case frame (some (record s { pmm = pmm' }, none)) λ user.
            let kernel_virt = phys_to_virt s.g_kernel_pml4 in
            let user_virt = phys_to_virt user in
            let copied =
              for_range 256 256 (copy_entry kernel_virt user_virt) (zero_page s.mem user_virt) in
            some (record s { pmm = pmm'; mem = copied }, some user))

unfoldable pub vmm_init : Vmm → Vmm
vmm_init s = record s { g_kernel_pml4 = bit_and s.cr3 page_mask }

unfoldable pub vmm_switch_address_space : Vmm → ℕ → Vmm
vmm_switch_address_space s pml4 = record s { cr3 = pml4 }

unfoldable pub vmm_get_current_address_space : Vmm → ℕ
vmm_get_current_address_space s = bit_and s.cr3 page_mask
