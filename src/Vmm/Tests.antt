-- ===== src/Vmm/Tests.antt =====
-- Page tables on a memory that is all zero, with an empty root in frame 1.
use ppo_os.Common.{
  ℕ, ◌+◌, ◌*◌, ◌/◌, ◌≡◌, refl, true, some, arith, ◌==◌, if◌then◌else◌, Bool-cases, inl, inr, ==→eq,
}
use ppo_os.Pmm.{page_size, bitmap_set, bitmap_test, alloc_scan, pmm_alloc_frame}
use ppo_os.Pmm.Tests.{eight_free, eight_free-IsValid, taken, first, alloc_run}
use ppo_os.Vmm.{
  Vmm, pte_nx, present, next_table, vmm_map_page, vmm_unmap_page, vmm_get_physical_address,
  vmm_create_address_space, phys_to_virt, table_index, table_entry,
}
use ppo_os.Vmm.Tree.{Owners, IsTree, present-zero, slot}
use ppo_os.Vmm.Walk.{IsDirect}
use ppo_os.Vmm.Map.{Mapped, vmm_map_page-Mapped}
use ppo_os.Vmm.Unmap.{get-unmap}
use ppo_os.Vmm.Translate.{map-get_plain, map-get_nx}
use ppo_os.Vmm.Space.{kernel_half, create-kernel_half}

abbrev offset : ℕ
offset = 0xffff800000000000

direct : IsDirect offset
direct = omega arith

abbrev boot : Vmm
boot = record { pmm = eight_free; mem = λ a. 0; g_kernel_pml4 = 4096; cr3 = 4096 }

abbrev one_root : Owners
one_root f = record { level = if f == 1 then 4 else 0; parent = 0; index = 0 }

boot-IsTree : IsTree offset one_root boot
unfolding bitmap_test
boot-IsTree = record {
  valid = eight_free-IsValid;
  unowned = λ f lt clear. elim (Bool-cases (f == 1)) [
    | inl e ↦ absurd (cc (clear, ==→eq f 1 e))
    | inr n ↦ rw n refl
  ];
  tables = λ f l. ground arith;
  entries = λ f i l lt p. absurd (cc (p, present-zero offset));
}

abbrev virt : ℕ
virt = 0x400123

vmm_map_page-Mapped_example :
    Mapped offset direct boot 1 virt 0x200000 7 boot-IsTree refl
      (vmm_map_page offset boot (1 * page_size) virt 0x200000 7)
vmm_map_page-Mapped_example =
    vmm_map_page-Mapped offset direct boot 1 virt 0x200000 7 boot-IsTree refl

get-unmap_example :
    vmm_get_physical_address offset
      (vmm_unmap_page offset boot (1 * page_size) virt).mem
      (1 * page_size)
      0x400000
    ≡ 0
get-unmap_example = get-unmap offset direct 1 virt 0x400000 boot-IsTree refl

map_runs : (vmm_map_page offset boot (1 * page_size) virt 0x200000 7).1 ≡ true
unfolding vmm_map_page next_table pmm_alloc_frame alloc_scan bitmap_test present phys_to_virt
    table_index table_entry bitmap_set
map_runs = refl

map_runs_nx : (vmm_map_page offset boot (1 * page_size) virt 0x200000 (pte_nx + 7)).1 ≡ true
unfolding vmm_map_page next_table pmm_alloc_frame alloc_scan bitmap_test present phys_to_virt
    table_index table_entry bitmap_set
map_runs_nx = refl

plain_page :
    vmm_get_physical_address offset
      (vmm_map_page offset boot (1 * page_size) virt 0x200000 7).0.mem
      (1 * page_size)
      0x400456
    ≡ 0x200456
plain_page =
    map-get_plain offset direct boot-IsTree 1 virt 0x200000 7 refl refl (omega arith) (omega arith)
      refl 0x400456 map_runs refl

map-get_nx_example :
    vmm_get_physical_address offset
      (vmm_map_page offset boot (1 * page_size) virt 0x200000 (pte_nx + 7)).0.mem
      (1 * page_size)
      0x400456
    ≡ 0x8000000000200456
map-get_nx_example =
    map-get_nx offset direct boot-IsTree 1 virt 0x200000 7 refl refl (omega arith) (omega arith)
      refl 0x400456 map_runs_nx refl

create-kernel_half_example :
    (s' : Vmm) × (vmm_create_address_space offset boot ≡ some (s', some first))
    × (s'.pmm ≡ taken)
    × (s'.mem (slot offset (first / page_size) 300) ≡ kernel_half offset boot.mem 1 300)
    × (s'.mem (slot offset 1 300) ≡ boot.mem (slot offset 1 300))
unfolding bitmap_test
create-kernel_half_example =
    create-kernel_half offset boot 1 300 direct eight_free-IsValid refl (omega arith) (omega arith)
      refl alloc_run (omega arith)
