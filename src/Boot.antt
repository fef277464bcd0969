-- ===== src/Boot.antt =====
-- The start of the kernel: kernel/src/main.c and kernel/src/src/kernel.c. The answers of the boot loader are arguments. The
-- texts of modules and files stand in the memory of bytes of the file system. `serial` holds the bytes that are sent,
-- with no wait for the port. Descriptor tables and the terminal's own state are left out. `none`
-- is a halt, or a text that does not end in `fuel` bytes.
pub mod Suffix
pub mod Ends
pub mod Modules
pub mod Started
mod Tests
use ppo_os.Common.{
  ℕ, zero, suc, ◌+◌, ◌-◌, Bool, true, false, not, ◌&&◌, ◌||◌, List, [], ◌∷◌, ◌++◌, map, Option,
  none, some, ltb, ◌==◌, if◌then◌else◌, option_case, is_empty, take, length, codes,
}
use ppo_os.Common.Int.{ℤ, pos, negsuc}
use ppo_os.CString.{Memory}
use ppo_os.CString.Str.{strlen, strcmp}
use ppo_os.Pmm.{Pmm, BootInfo, pmm_init}
use ppo_os.Vmm.{vmm_init}
use ppo_os.Fs.{Driver, File, read_bytes, fs_list}
use ppo_os.Fs.Dirs.{Source, fs_init}
use ppo_os.Initramfs.{InitramfsFile, Ramfs, initramfs_init}
use ppo_os.Syscall.{Kernel, print, until_nul, syscall_init}
use ppo_os.Cpu.{Msrs, cpu_init, syscall_msrs}
use ppo_os.Gui.{GuiContext, Buffer, gui_init}

-- `struct limine_file`, as far as it is used; a path of 0 is NULL.
pub record BootModule : Type 0 where
  pub path : ℕ
  pub address : ℕ
  pub size : ℕ

-- `struct Framebuffer`
pub record Framebuffer : Type 0 where
  pub base_address : Buffer
  pub width : ℕ
  pub height : ℕ
  pub pixels_per_scan_line : ℕ

pub record Boot (S : Type 0) : Type 0 where
  pub system : Kernel S
  pub ramfs : Ramfs
  pub gui : GuiContext
  pub msrs : Msrs
  pub serial : List ℕ

-- The loop that looks for the last slash or backslash.
unfoldable pub file_name : ℕ → Memory → ℕ → ℕ → Option ℕ
file_name zero m path last_slash = none
file_name (suc fuel) m path last_slash =
    let rest =
      file_name fuel m (path + 1)
        (if (m path == 47) || (m path == 92) then path + 1 else last_slash) in
    if m path == 0 then some last_slash else rest

-- "Welcome to limine-shell (flanterm)!\n"
abbrev pub greeting : List ℕ
greeting = codes "Welcome to limine-shell (flanterm)!" ++ (10 ∷ [])

-- `r == 0`
abbrev pub is_zero : ℤ → Bool
is_zero (pos zero) = true
is_zero (pos (suc n)) = false
is_zero (negsuc n) = false

-- The files of the archive with their bytes; a name is read up to its NUL or 4096 bytes.
abbrev pub source_of : Memory → InitramfsFile → Source
source_of m f = record {
  name = until_nul (read_bytes m f.name 4096);
  bytes = read_bytes m f.data_start f.size;
}

module _ {S : Type 0} where
  -- `flanterm_write(ft_ctx, text, n)` and `serial_write(text, n)`.
  unfoldable pub say : ℕ → List ℕ → Boot S → Boot S
  say n text s = record s {
    system = print s.system (take n text);
    serial = s.serial ++ take n text;
  }

  -- `say` with the string at `p` and its length.
  unfoldable pub say_string : ℕ → ℕ → Boot S → Option (Boot S)
  say_string fuel p s =
      option_case (strlen fuel s.system.fs.mem p) none
        λ len. some (say len (read_bytes s.system.fs.mem p len) s)

  -- The loop over the modules: the machine, and `mod_base` and `mod_len`. The name looked for stands at `wanted`.
  unfoldable pub find_module : ℕ → ℕ → List BootModule → Boot S → Option (Boot S × ℕ × ℕ)
  find_module fuel wanted [] s = some (s, 0, 0)
  find_module fuel wanted (mod1 ∷ mods) s =
      let null_path =
        find_module fuel wanted mods (say 1 (codes " ") (say 11 (codes "(null path)") s)) in
      if mod1.path == 0
      then null_path
      else option_case (say_string fuel mod1.path s) none λ said.
        let s1 = say 1 (codes " ") said in
        let rest = find_module fuel wanted mods s1 in
        option_case (file_name fuel s1.system.fs.mem mod1.path mod1.path) none λ last_slash.
          option_case (strcmp fuel s1.system.fs.mem last_slash wanted) none
            λ r. if is_zero r then some (s1, mod1.address, mod1.size) else rest

  -- The loop over the files; the second comma does not belong to the `if`.
  unfoldable pub list_files : List File → Boot S → Boot S
  list_files [] s = s
  list_files (f ∷ files) s =
      let named = say (length f.name) f.name s in
      list_files files (record named {
        system = if is_empty files then named.system else print named.system (codes ", ");
        serial = named.serial ++ codes ", ";
      })

-- The machine behind `vmm_init`, `cpu_init`, `flanterm_fb_init`, `gui_init` and `syscall_init`.
unfoldable pub prepared : {S : Type 0} → ℕ → Framebuffer → Pmm → Boot S → Boot S
prepared syscall_asm_entry fb pmm s =
    let vmm = vmm_init (record s.system.vmm { pmm = pmm }) in
    let (msrs, system) = cpu_init syscall_asm_entry s.msrs (record s.system { vmm = vmm }) in
    record s {
      system = syscall_init (record system { has_terminal = true });
      msrs = syscall_msrs syscall_asm_entry msrs;
      gui = gui_init s.gui fb.base_address fb.width fb.height fb.pixels_per_scan_line;
    }

module _ {S : Type 0} (driver : Driver S) (pool : ℕ) where
  -- `initramfs_init` and `fs_init`, and the list of the files.
  unfoldable pub load_archive : ℕ → ℕ → Boot S → Boot S
  load_archive mod_base mod_len s =
      let fs = s.system.fs in
      let ramfs = initramfs_init fs.mem mod_base mod_len in
      let imported = fs_init driver pool fs (map (source_of fs.mem) ramfs.files) in
      let s1 = record s { ramfs = ramfs; system = record s.system { fs = imported } } in
      say 2 (93 ∷ (10 ∷ []))
        (list_files (fs_list driver imported) (say 18 (codes "[initramfs: files: ") s1))

  -- From the search for the archive to the call of `shell_run`.
  unfoldable pub load_modules : ℕ → ℕ → Option (List BootModule) → Boot S → Option (Boot S)
  load_modules fuel wanted modules s =
      option_case modules
        (some (say 48 (codes "[initramfs: no module response or count is zero]") s))
        λ mods.
          if is_empty mods
          then some (say 48 (codes "[initramfs: no module response or count is zero]") s)
          else option_case
              (find_module fuel wanted mods (say 26 (codes "[initramfs: found modules: ") s)) none
              λ (s1, mod_base, mod_len).
                let s2 = say 2 (93 ∷ (10 ∷ [])) s1 in
                some (
                  if not (mod_base == 0) && not (mod_len == 0)
                  then load_archive mod_base mod_len s2
                  else say 34 (codes "[initramfs: no module found by path]") s2)

  module _ (syscall_asm_entry : ℕ) where
    -- `kernel` up to the call of `shell_run`.
    unfoldable pub start_kernel :
        ℕ → ℕ → BootInfo → Option (List BootModule) → Framebuffer → Boot S → Option (Boot S)
    start_kernel fuel wanted info modules fb s =
        option_case (pmm_init info s.system.vmm.pmm) none λ pmm.
          load_modules fuel wanted modules (say 36 greeting (prepared syscall_asm_entry fb pmm s))

    -- `kmain` up to the call of `shell_run` in `kernel`. There is a frame buffer if the list is not empty.
    unfoldable pub kmain :
        ℕ
        → ℕ
        → BootInfo
        → Option (List BootModule)
        → Option (List Framebuffer)
        → Boot S
        → Option (Boot S)
    kmain fuel wanted info modules none s = none
    kmain fuel wanted info modules (some []) s = none
    kmain fuel wanted info modules (some (fb ∷ fbs)) s =
        let greeted = record s { serial = s.serial ++ codes "Kernel started." } in
        option_case (pmm_init info greeted.system.vmm.pmm) none λ pmm.
          let system = record greeted.system { vmm = record greeted.system.vmm { pmm = pmm } } in
          start_kernel fuel wanted info modules fb (record greeted {
            system = syscall_init system;
            msrs = syscall_msrs syscall_asm_entry greeted.msrs;
          })
