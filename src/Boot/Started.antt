-- ===== src/Boot/Started.antt =====
-- The state in which the shell is entered.
use mathlib.Core.Path.{subst}
use ppo_os.Common.{
  ℕ, ◌*◌, ◌/◌, ◌<◌, ◌^◌, ◌≡◌, refl, sym, ap, ◌∙◌, Bool, true, false, not, ◌&&◌, List, [], ◌∷◌, map,
  Option, some, ◌==◌, Bool-cases, inl, inr, if◌then◌else◌, codes,
}
use ppo_os.CString.Str.Held.{Held}
use ppo_os.Pmm.{Pmm, BootInfo, MemmapEntry}
use ppo_os.Pmm.Init.{IsFresh, IsFresh-valid, FitsIn, Initialised, init_flag, pmm_init-Initialised}
use ppo_os.Vmm.{Vmm, vmm_init}
use ppo_os.Fs.{Driver, Fs, fs_list}
use ppo_os.Fs.Dirs.{fs_init}
use ppo_os.Initramfs.{initramfs_init}
use ppo_os.Syscall.{syscall_init}
use ppo_os.Syscall.Descriptors.{IsEmpty, syscall_init-IsEmpty}
use ppo_os.Vmm.Entry.{page_mask_lem}
use ppo_os.Cpu.{cpu_init}
use ppo_os.Boot.{
  greeting, prepared, BootModule, Framebuffer, Boot, source_of, say, list_files, load_archive,
  load_modules, start_kernel, kmain,
}
use ppo_os.Boot.Modules.{
  archive_name, Named, first_archive, Kept, Kept-trans, say-Kept, list_files-Kept,
  find_module-first,
}

-- What the kernel has loaded: the archive, where one was found, or nothing.
abbrev pub loaded_fs : {S : Type 0} → Driver S → ℕ → ℕ × ℕ → Fs S → Fs S
loaded_fs driver pool (mod_base, mod_len) fs =
    if not (mod_base == 0) && not (mod_len == 0)
    then fs_init driver pool fs
        (map (source_of fs.mem) (initramfs_init fs.mem mod_base mod_len).files)
    else fs

-- The allocator knows the memory map, the page table in cr3 is recorded as the kernel's and nothing else of
-- the tables changes, no descriptor is in use, and the files are those of the archive.
pub record IsStarted {S : Type 0} (driver : Driver S) (pool : ℕ) (flag : ℕ → Bool) (archive : ℕ × ℕ)
    (s t : Boot S) : Type 0 where
  pub memory : Initialised flag t.system.vmm.pmm
  pub tables : t.system.vmm ≡ record s.system.vmm {
    pmm = t.system.vmm.pmm;
    g_kernel_pml4 = s.system.vmm.cr3 / 4096 * 4096;
  }
  pub descriptors : IsEmpty t.system.fd_table
  pub files : t.system.fs ≡ loaded_fs driver pool archive s.system.fs

module _ {S : Type 0} (driver : Driver S) (pool : ℕ) where
  record Loads (archive : ℕ × ℕ) (s t : Boot S) : Type 0 where
    fs : t.system.fs ≡ loaded_fs driver pool archive s.system.fs
    vmm : t.system.vmm ≡ s.system.vmm
    fd_table : t.system.fd_table ≡ s.system.fd_table

  Loads-around :
      (archive : ℕ × ℕ) {s t u v : Boot S}
      → Kept s t
      → Loads archive t u
      → Kept u v
      → Loads archive s v
  Loads-around archive h l k = record {
    fs = k.fs ∙ l.fs ∙ ap (loaded_fs driver pool archive) h.fs;
    vmm = k.vmm ∙ l.vmm ∙ h.vmm;
    fd_table = k.fd_table ∙ l.fd_table ∙ h.fd_table;
  }

  load_archive-Loads :
      (mod_base mod_len : ℕ) (s : Boot S)
      → (not (mod_base == 0) && not (mod_len == 0)) ≡ true
      → Loads (mod_base, mod_len) s (load_archive driver pool mod_base mod_len s)
  unfolding load_archive
  load_archive-Loads mod_base mod_len s some_there =
      let fs = s.system.fs in
      let ramfs = initramfs_init fs.mem mod_base mod_len in
      let imported = fs_init driver pool fs (map (source_of fs.mem) ramfs.files) in
      let s1 = record s { ramfs = ramfs; system = record s.system { fs = imported } } in
      let named = say 18 (codes "[initramfs: files: ") s1 in
      let listed = list_files (fs_list driver imported) named in
      let kept = Kept-trans (say-Kept 18 (codes "[initramfs: files: ") s1) (
        Kept-trans (list_files-Kept (fs_list driver imported) named)
          (say-Kept 2 (93 ∷ (10 ∷ [])) listed)) in
      record { fs = kept.fs ∙ rw some_there refl; vmm = kept.vmm; fd_table = kept.fd_table }

  no_archive-Loads :
      (archive : ℕ × ℕ) {s t : Boot S}
      → (not (archive.0 == 0) && not (archive.1 == 0)) ≡ false
      → Kept s t
      → Loads archive s t
  no_archive-Loads archive none_there kept = record {
    fs = kept.fs ∙ rw none_there refl;
    vmm = kept.vmm;
    fd_table = kept.fd_table;
  }

  -- The modules, or none, and the archive among them.
  load_modules-Loads :
      (fuel wanted : ℕ) (bs : List BootModule) (ns : List (Option (List ℕ))) (s : Boot S)
      → Held s.system.fs.mem wanted archive_name
      → Named fuel s.system.fs.mem bs ns
      → (t : Boot S) × (load_modules driver pool fuel wanted (some bs) s ≡ some t)
        × Loads (first_archive bs ns) s t
  unfolding load_modules
  load_modules-Loads fuel wanted [] ns s held named =
      (_, refl, no_archive-Loads (0, 0) refl (say-Kept 48 _ s))
  load_modules-Loads fuel wanted (b ∷ bs) ns s held named =
      let archive = first_archive (b ∷ bs) ns in
      let s0 = say 26 (codes "[initramfs: found modules: ") s in
      let before = say-Kept 26 (codes "[initramfs: found modules: ") s in
      let (s1, e, during) =
        find_module-first fuel wanted s.system.fs.mem (b ∷ bs) ns s0
          (ap (λ (fs : Fs S). fs.mem) before.fs) held named in
      let s2 = say 2 (93 ∷ (10 ∷ [])) s1 in
      let kept = Kept-trans before (Kept-trans during (say-Kept 2 (93 ∷ (10 ∷ [])) s1)) in
      rw e (elim (Bool-cases (not (archive.0 == 0) && not (archive.1 == 0))) [
        | inl found ↦ rw found (
          load_archive driver pool archive.0 archive.1 s2,
          refl,
          Loads-around archive kept (load_archive-Loads archive.0 archive.1 s2 found)
              (record { fs = refl; vmm = refl; fd_table = refl }),
        )
        | inr missing ↦ rw missing (
          say 34 (codes "[initramfs: no module found by path]") s2,
          refl,
          no_archive-Loads archive missing (Kept-trans kept (say-Kept 34 _ s2)),
        )
      ])

  vmm_init_lem :
      (v : Vmm) → v.cr3 < 2 ^ 64 → vmm_init v ≡ record v { g_kernel_pml4 = v.cr3 / 4096 * 4096 }
  unfolding vmm_init
  vmm_init_lem v small = rw (page_mask_lem v.cr3 small) refl

  module _ (syscall_asm_entry fuel wanted : ℕ) (info : BootInfo) (entries : List MemmapEntry)
      (kernel : ℕ × ℕ) (em : info.memmap ≡ some entries) (ek : info.kernel_base ≡ some kernel)
      (fits : FitsIn info entries kernel) (bs : List BootModule) (ns : List (Option (List ℕ)))
      (fb : Framebuffer) where
    prepared_fs :
        (pmm : Pmm) (s : Boot S) → (prepared syscall_asm_entry fb pmm s).system.fs ≡ s.system.fs
    unfolding prepared cpu_init syscall_init
    prepared_fs pmm s = refl

    prepared_vmm :
        (pmm : Pmm) (s : Boot S)
        → (prepared syscall_asm_entry fb pmm s).system.vmm
          ≡ vmm_init (record s.system.vmm { pmm = pmm })
    unfolding prepared cpu_init syscall_init
    prepared_vmm pmm s = refl

    start_kernel-IsStarted :
        (s : Boot S)
        → IsFresh s.system.vmm.pmm
        → s.system.vmm.cr3 < 2 ^ 64
        → Held s.system.fs.mem wanted archive_name
        → Named fuel s.system.fs.mem bs ns
        → (t : Boot S) × (start_kernel driver pool syscall_asm_entry fuel wanted info (some bs) fb s
            ≡ some t)
          × IsStarted driver pool (init_flag info entries kernel) (first_archive bs ns) s t
    unfolding start_kernel prepared cpu_init
    start_kernel-IsStarted s fresh small held named =
        let (pmm, e, ready) =
          pmm_init-Initialised info s.system.vmm.pmm entries kernel fresh em ek fits in
        let first = prepared syscall_asm_entry fb pmm s in
        let kept = say-Kept 36 greeting first in
        let s0 = say 36 greeting first in
        let same : s0.system.fs ≡ s.system.fs = kept.fs ∙ prepared_fs pmm s in
        let (t, e', loads) =
          load_modules-Loads fuel wanted bs ns s0 (rw same held) (rw same named) in
        let vmm =
          loads.vmm
          ∙ kept.vmm
          ∙ prepared_vmm pmm s
          ∙ vmm_init_lem (record s.system.vmm { pmm = pmm }) small in
        let is_pmm = ap (λ (v : Vmm). v.pmm) vmm in
        rw e (
          t,
          e',
          record {
            memory = subst (Initialised (init_flag info entries kernel)) (sym is_pmm) ready;
            tables =
                vmm
                ∙ ap
                    (λ p. record s.system.vmm {
                      pmm = p;
                      g_kernel_pml4 = s.system.vmm.cr3 / 4096 * 4096;
                    })
                    (sym is_pmm);
            descriptors =
                subst IsEmpty (sym (loads.fd_table ∙ kept.fd_table)) (syscall_init-IsEmpty _);
            files = loads.fs ∙ ap (loaded_fs driver pool (first_archive bs ns)) same;
          },
        )

    -- If the boot loader has given a frame buffer, the memory map, the kernel's address and a list
    -- of modules, the allocator's variables and these ranges are as `pmm_init` needs them, cr3 has
    -- 64 bits, the name that is looked for is initramfs.cpio, and each module's path is NULL or
    -- ends within the fuel, then `kmain` reaches the shell; then exactly those frames below 4 GiB
    -- are free that lie in a usable entry and neither in the kernel nor in the range taken for the
    -- bitmap, the page table in cr3, without its low 12 bits, is recorded as the kernel's and no
    -- other table has changed, none of the 16 descriptors is in use, and the files are those of
    -- the first module whose file name is initramfs.cpio, or those before where there is none or
    -- it is empty.
    pub kmain-IsStarted :
        (fbs : List Framebuffer) (s : Boot S)
        → IsFresh s.system.vmm.pmm
        → s.system.vmm.cr3 < 2 ^ 64
        → Held s.system.fs.mem wanted archive_name
        → Named fuel s.system.fs.mem bs ns
        → (t : Boot S) × (kmain driver pool syscall_asm_entry fuel wanted info
              (some bs)
              (some (fb ∷ fbs))
              s
            ≡ some t)
          × IsStarted driver pool (init_flag info entries kernel) (first_archive bs ns) s t
    unfolding kmain syscall_init
    kmain-IsStarted fbs s fresh small held named =
        let (pmm, e, ready) =
          pmm_init-Initialised info s.system.vmm.pmm entries kernel fresh em ek fits in
        let (t, e', started) =
          start_kernel-IsStarted _ (IsFresh-valid ready.valid) small held named in
        rw e (
          t,
          e',
          record {
            memory = started.memory;
            tables = started.tables;
            descriptors = started.descriptors;
            files = started.files;
          },
        )
