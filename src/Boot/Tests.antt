-- ===== src/Boot/Tests.antt =====
-- A machine with one module, and endings of strings.
use ppo_os.Common.{
  ℕ, ◌-◌, ltb, leb, ◌&&◌, if◌then◌else◌, ◌≡◌, refl, List, [], ◌∷◌, ◌++◌, true, false, Option, none,
  some, arith, get_or, codes,
}
use ppo_os.CString.{Memory}
use ppo_os.CString.Str.{strlen, strlen_from}
use ppo_os.CString.Str.Held.{Held}
use ppo_os.Pmm.Init.{init_flag}
use ppo_os.Pmm.Tests.{small_machine, small_entries, kernel_at, static_storage, small_machine-FitsIn}
use ppo_os.Syscall.Tests.{no_ext2, running}
use ppo_os.Boot.{BootModule, Framebuffer, Boot, kmain}
use ppo_os.Boot.Suffix.{compare_back, check_string_ends_with}
use ppo_os.Boot.Ends.{Outcome, EndsButFirst, check_string_ends_with-EndsButFirst}
use ppo_os.Boot.Modules.{first_archive}
use ppo_os.Boot.Started.{IsStarted, kmain-IsStarted}

-- The strings "cat", "bat" and "at" at 0, 4 and 8.
abbrev texts : Memory
texts a = get_or (codes "cat" ++ (0 ∷ codes "bat") ++ (0 ∷ codes "at") ++ (0 ∷ [])) a 0

-- The first character of the ending is not compared.
ends_without_first : check_string_ends_with 8 texts 0 4 ≡ some true
unfolding check_string_ends_with compare_back strlen strlen_from
ends_without_first = refl

cat-Held : Held texts 0 (codes "cat")
cat-Held = (refl, omega arith, (refl, omega arith, (refl, omega arith, refl)))

bat-Held : Held texts 4 (codes "bat")
bat-Held = (refl, omega arith, (refl, omega arith, (refl, omega arith, refl)))

check_string_ends_with-EndsButFirst_example :
    Outcome (check_string_ends_with 8 texts 0 4) (EndsButFirst texts 0 3 4 3)
check_string_ends_with-EndsButFirst_example =
    check_string_ends_with-EndsButFirst 8 texts 0 4 (codes "cat") (codes "bat") (omega arith)
      (omega arith) cat-Held bat-Held (omega arith) (omega arith)

-- The path of a module stands at 100, the name that the kernel looks for at 200. The archive at 4096
-- is empty.
abbrev boot_bytes : Memory
boot_bytes a =
    if leb 100 a && ltb a 200
    then get_or (codes "boot():/initramfs.cpio") (a - 100) 0
    else if leb 200 a
    then get_or (codes "initramfs.cpio") (a - 200) 0
    else 0

abbrev machine : Boot ℕ
machine = record {
  system = record running {
    fs = record running.fs { mem = boot_bytes; mem_used = 0 };
    vmm = record running.vmm { pmm = static_storage; cr3 = 0x5003 };
    has_terminal = false;
  };
  ramfs = record { ramfs_base = 0; ramfs_len = 0; files = [] };
  gui = record { fb = λ a. 0; backbuffer = λ a. 0; width = 0; height = 0; pitch = 0 };
  msrs = λ k. 0;
  serial = [];
}

abbrev screen : Framebuffer
screen = record { base_address = λ a. 0; width = 800; height = 600; pixels_per_scan_line = 800 }

abbrev modules : List BootModule
modules =
    record { path = 0; address = 9; size = 9 }
    ∷ (record { path = 100; address = 4096; size = 512 } ∷ [])

abbrev paths : List (Option (List ℕ))
paths = none ∷ (some (codes "boot():/initramfs.cpio") ∷ [])

kmain-IsStarted_example :
    (t : Boot ℕ) × (kmain no_ext2 1000 5000 64 200 small_machine
        (some modules)
        (some (screen ∷ []))
        machine
      ≡ some t)
    × IsStarted no_ext2 1000
        (init_flag small_machine small_entries kernel_at)
        (first_archive modules paths)
        machine
        t
kmain-IsStarted_example =
    kmain-IsStarted no_ext2 1000 5000 64 200 small_machine small_entries kernel_at refl refl
      small_machine-FitsIn modules paths screen [] machine
      (record { bytes = λ i. omega arith; aligned = omega arith; managed = omega arith })
      (omega arith) (omega arith) (omega arith)

-- The second module holds the archive.
second_module : first_archive modules paths ≡ (4096, 512)
second_module = refl
