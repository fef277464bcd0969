-- ===== src/Syscall/Fork.antt =====
-- `sys_fork` and the dispatch in `syscall` of kernel/src/src/syscall.c.
use ppo_os.Common.{
  ℕ, ◌+◌, ◌-◌, ◌*◌, ◌/◌, ◌%◌, ◌^◌, Bool, true, false, not, ◌&&◌, Option, none, some, ltb, leb, ◌==◌,
  if◌then◌else◌, option_case, bit_or,
}
use ppo_os.Common.Int.{ℤ, pos, negsuc}
use ppo_os.Common.Loops.{for_range}
use ppo_os.Fs.{Driver}
use ppo_os.Pmm.{page_size, pmm_alloc_frame, pmm_free_frame}
use ppo_os.Vmm.{
  Vmm, Memory, pte_present, pte_writable, pte_user, phys_to_virt, vmm_map_page,
  vmm_get_physical_address, vmm_create_address_space, vmm_get_current_address_space,
}
use ppo_os.Syscall.{Kernel, error, sys_exit, sys_write, sys_read, sys_open, sys_close, sys_readdir}

-- USER_STACK_TOP_VADDR, USER_STACK_BOTTOM_VADDR
abbrev pub user_stack_top : ℕ
user_stack_top = 0x80000000 - page_size

abbrev pub user_stack_bottom : ℕ
user_stack_bottom = user_stack_top - 7 * page_size

-- memcpy of a page of words
abbrev pub copy_page : Memory → ℕ → ℕ → Memory
copy_page m dst src a = if leb dst a && ltb a (dst + page_size) then m (src + (a - dst)) else m a

abbrev pub fork_flags : ℕ → ℕ
fork_flags vaddr =
    if leb user_stack_bottom vaddr && leb vaddr user_stack_top
    then bit_or (bit_or pte_present pte_user) pte_writable
    else bit_or pte_present pte_user

module _ (hhdm : ℕ) where
  -- One round of the copy of the parent's pages; false ends the loop with an error.
  unfoldable pub fork_round : ℕ → ℕ → ℕ → Vmm × Bool → Vmm × Bool
  fork_round parent child page (s, go_on) =
      let vaddr = page * page_size in
      let parent_phys = vmm_get_physical_address hhdm s.mem parent vaddr in
      if not go_on
      then (s, false)
      else if parent_phys == 0
      then (s, true)
      else (let (pmm, frame) = pmm_alloc_frame s.pmm in
          option_case frame (record s { pmm = pmm }, false)
            λ child_phys.
              let copied =
                copy_page s.mem (phys_to_virt hhdm child_phys) (phys_to_virt hhdm parent_phys) in
              let (s1, mapped) =
                vmm_map_page hhdm (record s { pmm = pmm; mem = copied }) child vaddr child_phys
                  (fork_flags vaddr) in
              if not mapped
              then (record s1 { pmm = pmm_free_frame s1.pmm child_phys }, false)
              else (s1, true))

  -- The loop over the user's pages.
  unfoldable pub fork_pages : ℕ → ℕ → Vmm → Vmm × Bool
  fork_pages parent child vmm =
      for_range ((user_stack_top + page_size) / page_size) 0 (fork_round parent child) (vmm, true)

  module _ {S : Type 0} where
    -- `none` is the endless loop of `vmm_create_address_space`.
    unfoldable pub sys_fork : Kernel S → Option (Kernel S × ℤ)
    sys_fork s =
        let parent = vmm_get_current_address_space s.vmm in
        if parent == 0
        then some (s, error)
        else option_case (vmm_create_address_space hhdm s.vmm) none λ (vmm, root).
          option_case root (some (record s { vmm = vmm }, error)) λ child.
            let (copied, done) = fork_pages parent child vmm in
            if not done
            then some (record s { vmm = copied }, error)
            else some
                (record s { vmm = copied; next_pid = (s.next_pid + 1) % 2 ^ 64 }, pos s.next_pid)

    -- The system call `num`, with the handler that `syscall_table` has for it.
    unfoldable pub syscall : Driver S → Kernel S → ℤ → ℕ → ℕ → ℕ → Option (Kernel S × ℤ)
    syscall driver s (negsuc n) arg1 arg2 arg3 = some (s, error)
    syscall driver s (pos num) arg1 arg2 arg3 =
        if num == 0
        then some ((sys_exit s arg1).0, pos 0)
        else if num == 1
        then some (sys_write s arg1 arg2 arg3)
        else if num == 2
        then sys_read driver s arg1 arg2 arg3
        else if num == 3
        then some (sys_open driver s arg1)
        else if num == 4
        then some (sys_close s arg1)
        else if num == 5
        then some (sys_readdir driver s arg1 arg2 arg3)
        else if num == 6
        then sys_fork s
        else some (s, error)
