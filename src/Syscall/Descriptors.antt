-- ===== src/Syscall/Descriptors.antt =====
-- The table of file descriptors: its invariant, and which descriptor `sys_open` gives.
use ppo_os.Common.{
  ℕ, zero, suc, ◌+◌, ◌-◌, ◌≤◌, ◌<◌, ◌≡◌, ◌≢◌, refl, sym, ap, ◌∙◌, min, true, false, not, ◌&&◌, ◌||◌,
  Option, none, some, List, [], ◌∷◌, arith, ltb, leb, ◌==◌, length, get_or, set, get_or-set,
  length-set, Bool-cases, inl, inr,
}
use ppo_os.Common.Int.{ℤ, pos, negsuc}
use ppo_os.Common.Branch.{if_elim, option_elim}
use ppo_os.Fs.{Driver, FilePtr, fs_list, fs_open, no_file}
use ppo_os.Vmm.{vmm_create_address_space, vmm_get_current_address_space}
use ppo_os.Syscall.{
  Kernel, Descriptor, unused, cleared_fds, syscall_init, validate_user_memory, copy_to_user,
  copy_from_user, error, print, sys_exit, sys_write, sys_read, sys_read_file, fd_bytes, sys_open,
  sys_close, sys_readdir, read_keys, fd_open, free_fd, until_nul, dirent_size, dirent_bytes,
}
use ppo_os.Syscall.Fork.{fork_pages, sys_fork, syscall}

-- There are 16 descriptors, the first three are never used, an unused one is cleared, and a used one
-- has a file.
pub record IsTable (t : List Descriptor) : Type 0 where
  pub size : length t ≡ 16
  pub low : (i : ℕ) → i < 3 → (get_or t i unused).used ≡ false
  pub clear : (i : ℕ) → (get_or t i unused).used ≡ false → get_or t i unused ≡ unused
  pub file : (i : ℕ) → (get_or t i unused).used ≡ true → (get_or t i unused).file ≢ none

get_or-cleared_fds : (n i : ℕ) → get_or (cleared_fds n) i unused ≡ unused
get_or-cleared_fds zero i = refl
get_or-cleared_fds (suc n) zero = refl
get_or-cleared_fds (suc n) (suc i) = get_or-cleared_fds n i

-- A table of 16 descriptors that are not in use and hold nothing.
pub record IsEmpty (t : List Descriptor) : Type 0 where
  pub size : length t ≡ 16
  pub every : (i : ℕ) → get_or t i unused ≡ unused

pub syscall_init-IsEmpty : {S : Type 0} (s : Kernel S) → IsEmpty (syscall_init s).fd_table
unfolding syscall_init
syscall_init-IsEmpty s = record { size = refl; every = get_or-cleared_fds 16 }

pub syscall_init-IsTable : {S : Type 0} (s : Kernel S) → IsTable (syscall_init s).fd_table
unfolding syscall_init
syscall_init-IsTable s = record {
  size = refl;
  low = λ i lt. ap (λ (d : Descriptor). d.used) (get_or-cleared_fds 16 i);
  clear = λ i e. get_or-cleared_fds 16 i;
  file = λ i e. absurd (cc (e, ap (λ (d : Descriptor). d.used) (get_or-cleared_fds 16 i)));
}

set-IsTable :
    {t : List Descriptor} (fd : ℕ) (d : Descriptor)
    → IsTable t
    → 3 ≤ fd
    → (d.used ≡ false → d ≡ unused)
    → (d.used ≡ true → d.file ≢ none)
    → IsTable (set t fd d)
set-IsTable {t} fd d h above cleared opened = record {
  size = length-set t fd d ∙ h.size;
  low = λ i lt. ground (arith, get_or-set t fd i d unused, h.low i lt);
  clear = λ i. rw (get_or-set t fd i d unused) (
      if_elim (λ (x : Descriptor). x.used ≡ false → x ≡ unused) ((fd == i) && ltb fd (length t))
        (λ e. cleared) (λ e. h.clear i));
  file = λ i. rw (get_or-set t fd i d unused) (
      if_elim (λ (x : Descriptor). x.used ≡ true → x.file ≢ none) ((fd == i) && ltb fd (length t))
        (λ e. opened) (λ e. h.file i));
}

-- The first unused descriptor from 3 on.
pub record IsFirst (t : List Descriptor) (i k : ℕ) : Type 0 where
  pub bounds : (i ≤ k) × (3 ≤ k) × (k < i + length t)
  pub is_free : (get_or t (k - i) unused).used ≡ false
  pub below : (j : ℕ) → i ≤ j → 3 ≤ j → j < k → (get_or t (j - i) unused).used ≡ true

free_fd-IsFirst : (t : List Descriptor) (i : ℕ) {k : ℕ} → free_fd i t ≡ some k → IsFirst t i k
unfolding free_fd
free_fd-IsFirst [] i e = absurd (cc (e))
free_fd-IsFirst (d ∷ t) i {k} e = elim (Bool-cases (leb 3 i && not d.used)) [
  | inl here ↦
      let out : free_fd i (d ∷ t) ≡ some i = rw here refl in
      let same : k ≡ i = cc (e, out) in
      let at : k - i ≡ 0 = omega arith in
      record {
        bounds = ground arith;
        is_free = rw at (ground arith);
        below = λ j ij above lt. absurd (omega arith);
      }
  | inr later ↦
      let out : free_fd i (d ∷ t) ≡ free_fd (i + 1) t = rw later refl in
      let rest = free_fd-IsFirst t (i + 1) (sym out ∙ e) in
      let bounds = rest.bounds in
      let at : k - i ≡ suc (k - (i + 1)) = omega arith in
      record {
        bounds = omega arith;
        is_free = rw at rest.is_free;
        below = λ j ij above lt. elim (Bool-cases (j == i)) [
          | inl e' ↦ let z : j - i ≡ 0 = ground arith in rw z (ground arith)
          | inr n ↦
              let next : j - i ≡ suc (j - (i + 1)) = ground arith in
              rw next (rest.below j (ground arith) above lt)
        ];
      }
]

module _ {S : Type 0} (driver : Driver S) (hhdm : ℕ) where
  -- The table is well formed after the call, if it returns.
  pub data KeepsTable : Option (Kernel S × ℤ) → Type 0 where
    waits : KeepsTable none
    keeps : {out : Kernel S × ℤ} → IsTable out.0.fd_table → KeepsTable (some out)

  module _ (s : Kernel S) (h : IsTable s.fd_table) where
    abbrev One : Kernel S × ℤ → Type 0
    One out = KeepsTable (some out)

    print-IsTable : (bytes : List ℕ) → IsTable (print s bytes).fd_table
    print-IsTable bytes =
        if_elim (λ (k : Kernel S). IsTable k.fd_table) s.has_terminal (λ e. h) (λ e. h)

    sys_read_file-KeepsTable :
        (fd buf count : ℕ) → fd_open s fd ≡ true → One (sys_read_file driver s fd buf count)
    unfolding sys_read_file
    sys_read_file-KeepsTable fd buf count opened =
        let bytes = fd_bytes driver s fd count in
        if_elim One (length bytes == 0) (λ end. keeps h)
          λ more. option_elim One (copy_to_user s.user buf bytes) (keeps h) λ user copied.
            keeps (set-IsTable fd _ h (ground arith) (λ closed. absurd (ground arith)) (h.file fd))

    sys_read-KeepsTable : (fd buf count : ℕ) → KeepsTable (sys_read driver s fd buf count)
    unfolding sys_read
    sys_read-KeepsTable fd buf count =
        if_elim KeepsTable (count == 0) (λ z. keeps h)
          λ some_bytes.
            if_elim KeepsTable (fd == 0)
              (λ keyboard.
                option_elim KeepsTable (read_keys (min count 4096) s.keys) waits λ (line, keys) e.
                  option_elim One (copy_to_user s.user buf line) (keeps h) λ user copied. keeps h)
              λ file.
                if_elim KeepsTable (fd_open s fd)
                  (λ opened. sys_read_file-KeepsTable fd buf count opened) (λ closed. keeps h)

    sys_open-KeepsTable : (path : ℕ) → One (sys_open driver s path)
    unfolding sys_open
    sys_open-KeepsTable path = option_elim One (free_fd 0 s.fd_table) (keeps h) λ fd e.
        option_elim One (copy_from_user s.user path 255) (keeps h) λ kpath copied.
          if_elim One (leb 255 (length (until_nul kpath))) (λ long. keeps h)
            λ short.
              option_elim One (fs_open driver s.fs (until_nul kpath)).1 (keeps h) λ file found.
                let first = free_fd-IsFirst s.fd_table 0 e in
                let bounds = first.bounds in
                keeps (set-IsTable fd _ h (omega arith) (λ z. absurd (cc z)) (λ z n. absurd (cc n)))

    sys_close-KeepsTable : (fd : ℕ) → One (sys_close s fd)
    unfolding sys_close
    sys_close-KeepsTable fd =
        if_elim One (fd_open s fd)
          (λ opened.
            keeps (set-IsTable fd unused h (ground arith) (λ z. refl) (λ z. absurd (cc z))))
          (λ closed. keeps h)

    sys_write-KeepsTable : (fd buf count : ℕ) → One (sys_write s fd buf count)
    unfolding sys_write
    sys_write-KeepsTable fd buf count =
        if_elim One (count == 0) (λ empty. keeps h)
          λ some_bytes.
            if_elim One ((fd == 1) || (fd == 2))
              (λ terminal.
                option_elim One (copy_from_user s.user buf (min count 4096)) (keeps h)
                  λ bytes copied. keeps (print-IsTable bytes))
              (λ other. keeps h)

    sys_readdir-KeepsTable : (index buf size : ℕ) → One (sys_readdir driver s index buf size)
    unfolding sys_readdir
    sys_readdir-KeepsTable index buf size =
        if_elim One (ltb size dirent_size) (λ small. keeps h)
          λ large.
            if_elim One (not (validate_user_memory buf dirent_size)) (λ bad. keeps h)
              λ good.
                if_elim One (leb (length (fs_list driver s.fs)) index) (λ end. keeps h)
                  λ entry.
                    let bytes = dirent_bytes (get_or (fs_list driver s.fs) index no_file) in
                    option_elim One (copy_to_user s.user buf bytes) (keeps h) λ user copied. keeps h

    sys_fork-KeepsTable : KeepsTable (sys_fork hhdm s)
    unfolding sys_fork
    sys_fork-KeepsTable =
        let parent = vmm_get_current_address_space s.vmm in
        if_elim KeepsTable (parent == 0) (λ none_running. keeps h)
          λ running.
            option_elim KeepsTable (vmm_create_address_space hhdm s.vmm) waits λ (vmm, root) e.
              option_elim KeepsTable root (keeps h) λ child f.
                if_elim KeepsTable (not (fork_pages hhdm parent child vmm).1) (λ failed. keeps h)
                  (λ done. keeps h)

    -- Every system call that returns keeps the table of descriptors well formed: 16 descriptors,
    -- the first three never used, unused ones cleared, used ones with a file.
    pub syscall-KeepsTable :
        (num : ℤ) (arg1 arg2 arg3 : ℕ) → KeepsTable (syscall hhdm driver s num arg1 arg2 arg3)
    unfolding syscall sys_exit
    syscall-KeepsTable (negsuc n) arg1 arg2 arg3 = keeps h
    syscall-KeepsTable (pos num) arg1 arg2 arg3 =
        if_elim KeepsTable (num == 0) (λ e. keeps (print-IsTable _))
          λ n0.
            if_elim KeepsTable (num == 1) (λ e. sys_write-KeepsTable arg1 arg2 arg3)
              λ n1.
                if_elim KeepsTable (num == 2) (λ e. sys_read-KeepsTable arg1 arg2 arg3)
                  λ n2.
                    if_elim KeepsTable (num == 3) (λ e. sys_open-KeepsTable arg1)
                      λ n3.
                        if_elim KeepsTable (num == 4) (λ e. sys_close-KeepsTable arg1)
                          λ n4.
                            if_elim KeepsTable (num == 5)
                              (λ e. sys_readdir-KeepsTable arg1 arg2 arg3)
                              λ n5.
                                if_elim KeepsTable (num == 6) (λ e. sys_fork-KeepsTable)
                                  λ n6. keeps h

set-set_back :
    (t : List Descriptor) (fd : ℕ) (d x : Descriptor)
    → fd < length t
    → get_or t fd unused ≡ x
    → set (set t fd d) fd x ≡ t
set-set_back [] fd d x lt e = absurd (omega arith)
set-set_back (y ∷ t) zero d x lt e = rw e refl
set-set_back (y ∷ t) (suc fd) d x lt e =
    ap (λ (l : List Descriptor). y ∷ l) (set-set_back t fd d x (omega arith) e)

module _ {S : Type 0} (driver : Driver S) (s : Kernel S) (path : ℕ) where
  -- How `sys_open` ends: with an error, or with a descriptor for the file that it found.
  data Opened : Kernel S × ℤ → Type 0 where
    failed : {s' : Kernel S} → s'.fd_table ≡ s.fd_table → Opened (s', error)
    opened :
        {s' : Kernel S} (fd : ℕ) (f : FilePtr)
        → IsFirst s.fd_table 0 fd
        → s'.fd_table ≡ set s.fd_table fd (record { file = some f; position = 0; used = true })
        → Opened (s', pos fd)

  sys_open-Opened : Opened (sys_open driver s path)
  unfolding sys_open
  sys_open-Opened = option_elim Opened (free_fd 0 s.fd_table) (failed refl) λ fd e.
      option_elim Opened (copy_from_user s.user path 255) (failed refl) λ kpath copied.
        if_elim Opened (leb 255 (length (until_nul kpath))) (λ long. failed refl)
          λ short.
            option_elim Opened (fs_open driver s.fs (until_nul kpath)).1 (failed refl)
              λ file found. opened fd file (free_fd-IsFirst s.fd_table 0 e) refl

  abbrev Closes : Kernel S × ℤ → Type 0
  Closes (s', negsuc n) = Unit {0}
  Closes (s', pos fd) =
      IsFirst s.fd_table 0 fd
      × ((sys_close s' fd).0.fd_table ≡ s.fd_table)
      × ((sys_close s' fd).1 ≡ pos 0)

  closes : IsTable s.fd_table → {out : Kernel S × ℤ} → Opened out → Closes out
  unfolding sys_close
  closes h (failed e) = tt
  closes h (opened {s'} fd f first e) =
      let d : Descriptor = record { file = some f; position = 0; used = true } in
      let bounds = first.bounds in
      let size = h.size in
      let at : get_or s'.fd_table fd unused ≡ d =
        rw (e, get_or-set s.fd_table fd fd d unused) (ground arith) in
      let whole : fd - 0 ≡ fd = omega arith in
      let free : (get_or s.fd_table fd unused).used ≡ false =
        sym (ap (λ (k : ℕ). (get_or s.fd_table k unused).used) whole) ∙ first.is_free in
      let is_open : fd_open s' fd ≡ true = rw at (ground arith) in
      (
        first,
        rw (is_open, e) (set-set_back s.fd_table fd d unused (omega arith) (h.clear fd free)),
        rw is_open refl,
      )

  -- On a well-formed table, a descriptor that `sys_open` returns is the first unused one from 3
  -- on, and closing it at once returns 0 and restores the whole table.
  pub close-open :
      {s' : Kernel S} {fd : ℕ}
      → IsTable s.fd_table
      → sys_open driver s path ≡ (s', pos fd)
      → IsFirst s.fd_table 0 fd
        × ((sys_close s' fd).0.fd_table ≡ s.fd_table)
        × ((sys_close s' fd).1 ≡ pos 0)
  close-open {s'} {fd} h e = back e (closes h sys_open-Opened)
    where
      back : {out out' : Kernel S × ℤ} → out ≡ out' → Closes out → Closes out'
      back e c = rw (← e) c
