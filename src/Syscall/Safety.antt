-- ===== src/Syscall/Safety.antt =====
-- The checks on user addresses: no system call writes at or above KERNEL_VMA_BASE.
use ppo_os.Common.{
  ℕ, ◌+◌, ◌≤◌, ◌≡◌, refl, min, not, ◌&&◌, ◌||◌, Option, none, some, List, arith, ltb, leb, ◌==◌,
  length, get_or, Bool-cases, inl, inr,
}
use ppo_os.Common.Int.{ℤ, pos, negsuc}
use ppo_os.Common.Branch.{if_elim, option_elim}
use ppo_os.Fs.{Driver, Memory, write_bytes, fs_list, fs_open, no_file}
use ppo_os.Vmm.{vmm_create_address_space, vmm_get_current_address_space}
use ppo_os.Syscall.{
  Kernel, kernel_vma_base, validate_user_memory, copy_to_user, copy_from_user, print, sys_exit,
  sys_write, sys_read, sys_read_file, fd_bytes, sys_open, sys_close, sys_readdir, read_keys,
  fd_open, dirent_bytes, free_fd, until_nul, dirent_size,
}
use ppo_os.Syscall.Fork.{fork_pages, sys_fork, syscall}

-- `validate_user_memory` accepts a range exactly if it is not empty, does not start at 0 and ends
-- at or below KERNEL_VMA_BASE.
pub validate_user_memory_lem :
    (vaddr size : ℕ)
    → validate_user_memory vaddr size
      ≡ (ltb 0 vaddr && ltb 0 size && leb (vaddr + size) kernel_vma_base)
unfolding validate_user_memory
validate_user_memory_lem vaddr size = ground arith

copy_to_user-above :
    (user : Memory) (dest a : ℕ) (bytes : List ℕ) {user' : Memory}
    → kernel_vma_base ≤ a
    → copy_to_user user dest bytes ≡ some user'
    → user' a ≡ user a
unfolding copy_to_user
copy_to_user-above user dest a bytes {user'} above e =
    elim (Bool-cases (validate_user_memory dest (length bytes))) [
      | inr bad ↦ absurd (cc (e, bad))
      | inl good ↦
          let out : copy_to_user user dest bytes ≡ some (write_bytes user dest bytes) =
            rw good refl in
          let same : user' ≡ write_bytes user dest bytes = cc (e, out) in
          rw same (ground (arith, validate_user_memory_lem dest (length bytes), good))
    ]

module _ {S : Type 0} (driver : Driver S) (hhdm : ℕ) (a : ℕ) (above : kernel_vma_base ≤ a) where
  -- The byte at `a` is the same after the call, if it returns.
  pub data Untouched (s : Kernel S) : Option (Kernel S × ℤ) → Type 0 where
    waits : Untouched s none
    same : {out : Kernel S × ℤ} → out.0.user a ≡ s.user a → Untouched s (some out)

  abbrev One : Kernel S → Kernel S × ℤ → Type 0
  One s out = Untouched s (some out)

  sys_read_file-Untouched :
      (s : Kernel S) (fd buf count : ℕ) → Untouched s (some (sys_read_file driver s fd buf count))
  unfolding sys_read_file
  sys_read_file-Untouched s fd buf count =
      if_elim (One s) (length (fd_bytes driver s fd count) == 0) (λ end. same refl)
        λ more.
          option_elim (One s) (copy_to_user s.user buf (fd_bytes driver s fd count)) (same refl)
            λ user copied.
              same (copy_to_user-above s.user buf a (fd_bytes driver s fd count) above copied)

  sys_read-Untouched :
      (s : Kernel S) (fd buf count : ℕ) → Untouched s (sys_read driver s fd buf count)
  unfolding sys_read
  sys_read-Untouched s fd buf count =
      if_elim P (count == 0) (λ z. same refl)
        λ some_bytes.
          if_elim P (fd == 0)
            (λ keyboard. option_elim P (read_keys (min count 4096) s.keys) waits λ (line, keys) e.
              option_elim (One s) (copy_to_user s.user buf line) (same refl)
                λ user copied. same (copy_to_user-above s.user buf a line above copied))
            λ file.
              if_elim P (fd_open s fd) (λ opened. sys_read_file-Untouched s fd buf count)
                (λ closed. same refl)
    where
      P : Option (Kernel S × ℤ) → Type 0
      P = Untouched s

  sys_readdir-Untouched :
      (s : Kernel S) (index buf size : ℕ) → Untouched s (some (sys_readdir driver s index buf size))
  unfolding sys_readdir
  sys_readdir-Untouched s index buf size =
      if_elim (One s) (ltb size dirent_size) (λ small. same refl)
        λ large.
          if_elim (One s) (not (validate_user_memory buf dirent_size)) (λ bad. same refl)
            λ good.
              if_elim (One s) (leb (length (fs_list driver s.fs)) index) (λ end. same refl)
                λ entry.
                  let bytes = dirent_bytes (get_or (fs_list driver s.fs) index no_file) in
                  option_elim (One s) (copy_to_user s.user buf bytes) (same refl)
                    λ user copied. same (copy_to_user-above s.user buf a bytes above copied)

  sys_open-Untouched : (s : Kernel S) (path : ℕ) → Untouched s (some (sys_open driver s path))
  unfolding sys_open
  sys_open-Untouched s path = option_elim (One s) (free_fd 0 s.fd_table) (same refl) λ fd e.
      option_elim (One s) (copy_from_user s.user path 255) (same refl) λ kpath copied.
        if_elim (One s) (leb 255 (length (until_nul kpath))) (λ long. same refl)
          λ short.
            option_elim (One s) (fs_open driver s.fs (until_nul kpath)).1 (same refl)
              λ file found. same refl

  sys_fork-Untouched : (s : Kernel S) → Untouched s (sys_fork hhdm s)
  unfolding sys_fork
  sys_fork-Untouched s =
      if_elim P (vmm_get_current_address_space s.vmm == 0) (λ none_running. same refl)
        λ running. option_elim P (vmm_create_address_space hhdm s.vmm) waits λ (vmm, root) e.
          option_elim P root (same refl) λ child f.
            if_elim P (not (fork_pages hhdm (vmm_get_current_address_space s.vmm) child vmm).1)
              (λ failed. same refl) (λ done. same refl)
    where
      P : Option (Kernel S × ℤ) → Type 0
      P = Untouched s

  print-user : (s : Kernel S) (bytes : List ℕ) → (print s bytes).user a ≡ s.user a
  print-user s bytes =
      if_elim (λ (k : Kernel S). k.user a ≡ s.user a) s.has_terminal (λ e. refl) (λ e. refl)

  sys_write-Untouched :
      (s : Kernel S) (fd buf count : ℕ) → Untouched s (some (sys_write s fd buf count))
  unfolding sys_write
  sys_write-Untouched s fd buf count =
      if_elim (One s) (count == 0) (λ empty. same refl)
        λ some_bytes.
          if_elim (One s) ((fd == 1) || (fd == 2))
            (λ terminal.
              option_elim (One s) (copy_from_user s.user buf (min count 4096)) (same refl)
                λ bytes copied. same (print-user s bytes))
            (λ other. same refl)

  sys_close-Untouched : (s : Kernel S) (fd : ℕ) → Untouched s (some (sys_close s fd))
  unfolding sys_close
  sys_close-Untouched s fd =
      if_elim (One s) (fd_open s fd) (λ opened. same refl) (λ closed. same refl)

  -- No system call, with whatever number and arguments, changes a byte at or above KERNEL_VMA_BASE
  -- through an address that the program gave, if it returns.
  pub syscall-Untouched :
      (s : Kernel S) (num : ℤ) (arg1 arg2 arg3 : ℕ)
      → Untouched s (syscall hhdm driver s num arg1 arg2 arg3)
  unfolding syscall sys_exit
  syscall-Untouched s (negsuc n) arg1 arg2 arg3 = same refl
  syscall-Untouched s (pos num) arg1 arg2 arg3 =
      if_elim P (num == 0) (λ e. same (print-user s _))
        λ n0.
          if_elim P (num == 1) (λ e. sys_write-Untouched s arg1 arg2 arg3)
            λ n1.
              if_elim P (num == 2) (λ e. sys_read-Untouched s arg1 arg2 arg3)
                λ n2.
                  if_elim P (num == 3) (λ e. sys_open-Untouched s arg1)
                    λ n3.
                      if_elim P (num == 4) (λ e. sys_close-Untouched s arg1)
                        λ n4.
                          if_elim P (num == 5) (λ e. sys_readdir-Untouched s arg1 arg2 arg3)
                            λ n5. if_elim P (num == 6) (λ e. sys_fork-Untouched s) λ n6. same refl
    where
      P : Option (Kernel S × ℤ) → Type 0
      P = Untouched s
