-- ===== src/Syscall/Tests.antt =====
-- System calls of a program on a kernel with one file.
use ppo_os.Common.{
  ℕ, ◌+◌, ◌≤◌, ◌≡◌, refl, ap, true, false, none, List, [], ◌∷◌, ◌++◌, arith, ltb, leb, ◌==◌, ◌&&◌,
  if◌then◌else◌,
}
use ppo_os.Common.Int.{ℤ, pos}
use ppo_os.Fs.{File, initramfs, Driver, no_file, fs_open, find_file, name_matches, strip_dot_slash}
use ppo_os.Syscall.{
  Kernel, kernel_vma_base, validate_user_memory, sys_exit, sys_open, sys_close, exit_msg, free_fd,
  copy_from_user, until_nul, syscall_init,
}
use ppo_os.Syscall.Fork.{syscall}
use ppo_os.Syscall.Safety.{validate_user_memory_lem, Untouched, syscall-Untouched}
use ppo_os.Syscall.Descriptors.{
  IsTable, IsFirst, KeepsTable, syscall_init-IsTable, syscall-KeepsTable, close-open,
}
use ppo_os.Syscall.Decimal.{decimal_value, all_digits, sys_exit-output}

abbrev pub no_ext2 : Driver ℕ
no_ext2 = record {
  ext2_detect = λ m p n. false;
  ext2_init = λ d m p n. (d, false);
  ext2_open = λ d m name. none;
  ext2_read = λ d m f offset len. [];
  ext2_list = λ d m path. [];
  ext2_change_dir = λ d m path. (d, false);
}

abbrev file_a : File
file_a = record {
  name = 97 ∷ [];
  content = 1000;
  size = 3;
  capacity = 256;
  mode = 0;
  is_dir = false;
  fs_type = initramfs;
}

-- The program has the string "a" at 0x400000.
abbrev pub running : Kernel ℕ
running = syscall_init (record {
  fs = record {
    files = file_a ∷ [];
    dirs = [];
    current_dir = 47 ∷ [];
    active_fs = initramfs;
    mem = λ a. 7;
    mem_used = 256;
    ext2_file = no_file;
    driver_state = 0;
  };
  vmm = record {
    pmm = record { bitmap = λ j. 255; last_alloc_index = 0; highest_address = 0 };
    mem = λ a. 0;
    g_kernel_pml4 = 4096;
    cr3 = 4096;
  };
  fd_table = [];
  next_pid = 0;
  user = λ a. if a == 0x400000 then 97 else 0;
  keys = [];
  has_terminal = true;
  output = [];
})

running-IsTable : IsTable running.fd_table
running-IsTable = syscall_init-IsTable _

validate_run :
    validate_user_memory 0x400000 16
    ≡ (ltb 0 0x400000 && ltb 0 16 && leb (0x400000 + 16) kernel_vma_base)
validate_run = validate_user_memory_lem 0x400000 16

above : kernel_vma_base ≤ 0xffff800000001000
above = omega arith

syscall-Untouched_example :
    Untouched no_ext2 0 0xffff800000001000 above running
      (syscall 0 no_ext2 running (pos 5) 0 0xffff800000000f80 264)
syscall-Untouched_example =
    syscall-Untouched no_ext2 0 0xffff800000001000 above running (pos 5) 0 0xffff800000000f80 264

syscall-KeepsTable_example : KeepsTable no_ext2 0 (syscall 0 no_ext2 running (pos 3) 0x400000 0 0)
syscall-KeepsTable_example =
    syscall-KeepsTable no_ext2 0 running running-IsTable (pos 3) 0x400000 0 0

open_run : (sys_open no_ext2 running 0x400000).1 ≡ pos 3
unfolding syscall_init sys_open free_fd copy_from_user validate_user_memory until_nul fs_open
    find_file name_matches strip_dot_slash
open_run = refl

abbrev after_open : Kernel ℕ
after_open = (sys_open no_ext2 running 0x400000).0

close-open_example :
    IsFirst running.fd_table 0 3
    × ((sys_close after_open 3).0.fd_table ≡ running.fd_table)
    × ((sys_close after_open 3).1 ≡ pos 0)
close-open_example =
    close-open no_ext2 running 0x400000 running-IsTable (ap (λ (z : ℤ). (after_open, z)) open_run)

exit_code_42 :
    (l : List ℕ) × ((sys_exit running 42).0.output ≡ running.output ++ (exit_msg ++ l ++ (10 ∷ [])))
    × (decimal_value 0 l ≡ 42)
    × (all_digits l ≡ true)
unfolding syscall_init
exit_code_42 = sys_exit-output running 42 refl (omega arith)
