-- ===== src/Syscall.antt =====
-- The system calls of kernel/src/src/syscall.c over the file system and the virtual memory manager.
-- `user` holds the bytes at virtual addresses of the running program; page faults are not modelled.
-- `keys` are the results of the next calls of `keyboard_read_char`; a call that waits for a key that
-- never comes has no result. `output` is what the terminal was given. The registers that `sys_fork`
-- gathers in a local variable are not used by it and left out.
pub mod Fork
pub mod Safety
pub mod Descriptors
pub mod Decimal
pub mod Tests
use ppo_os.Common.{
  ℕ, zero, suc, ◌+◌, ◌-◌, ◌*◌, ◌/◌, ◌%◌, ◌^◌, min, Bool, true, false, not, ◌&&◌, ◌||◌, Option, none,
  some, List, [], ◌∷◌, ◌++◌, ltb, leb, ◌==◌, if◌then◌else◌, option_case, length, get_or, set, take,
}
use ppo_os.Common.Int.{ℤ, pos, negsuc}
use ppo_os.Fs.{
  Fs, File, FilePtr, Driver, Memory, read_bytes, write_bytes, no_file, fs_open, fs_read, fs_list,
}
use ppo_os.Vmm.{Vmm}

-- KERNEL_VMA_BASE
abbrev pub kernel_vma_base : ℕ
kernel_vma_base = 0xffff800000000000

abbrev pub max_fds : ℕ
max_fds = 16

-- `sizeof(struct dirent)`
abbrev pub dirent_size : ℕ
dirent_size = 264

pub record Descriptor : Type 0 where
  pub file : Option FilePtr
  pub position : ℕ
  pub used : Bool

abbrev pub unused : Descriptor
unused = record { file = none; position = 0; used = false }

pub record Kernel (S : Type 0) : Type 0 where
  pub fs : Fs S
  pub vmm : Vmm
  pub fd_table : List Descriptor
  pub next_pid : ℕ
  pub user : Memory
  pub keys : List ℕ
  pub has_terminal : Bool
  pub output : List ℕ

unfoldable pub validate_user_memory : ℕ → ℕ → Bool
validate_user_memory vaddr size =
    if (vaddr == 0) || (size == 0)
    then false
    else if leb (2 ^ 64) (vaddr + (size - 1))
    then false
    else not (leb kernel_vma_base vaddr || leb kernel_vma_base (vaddr + (size - 1)))

-- The bytes that are copied, or `none` for -1.
unfoldable pub copy_from_user : Memory → ℕ → ℕ → Option (List ℕ)
copy_from_user user src size =
    if not (validate_user_memory src size) then none else some (read_bytes user src size)

unfoldable pub copy_to_user : Memory → ℕ → List ℕ → Option Memory
copy_to_user user dest bytes =
    if not (validate_user_memory dest (length bytes))
    then none
    else some (write_bytes user dest bytes)

-- The decimal digits of a number that is not 0, the loop on at most 20 digits.
unfoldable pub digits : ℕ → ℕ → List ℕ → List ℕ
digits zero n l = l
digits (suc fuel) n l =
    let more = digits fuel (n / 10) ((48 + n % 10) ∷ l) in if n == 0 then l else more

abbrev pub decimal : ℕ → List ℕ
decimal n = if n == 0 then 48 ∷ [] else digits 20 n []

-- "\nProgram exited with code "
abbrev pub exit_msg : List ℕ
exit_msg =
    10 ∷ 80 ∷ 114 ∷ 111 ∷ 103 ∷ 114 ∷ 97 ∷ 109 ∷ 32 ∷ 101 ∷ 120 ∷ 105 ∷ 116 ∷ 101 ∷ 100 ∷ 32 ∷ 119
    ∷ 105 ∷ 116 ∷ 104 ∷ 32 ∷ 99 ∷ 111 ∷ 100 ∷ 101 ∷ 32 ∷ []

-- The loop of `sys_read` on the keyboard, for at most `n` characters: those read, and the keys left.
unfoldable pub read_keys : ℕ → List ℕ → Option (List ℕ × List ℕ)
read_keys n [] = if n == 0 then some ([], []) else none
read_keys n (k ∷ ks) =
    let c = if k == 13 then 10 else k in
    let skipped = read_keys n ks in
    let more = read_keys (n - 1) ks in
    if n == 0
    then some ([], k ∷ ks)
    else if k == 0
    then skipped
    else if c == 10
    then some (c ∷ [], ks)
    else option_case more none (λ (l, rest). some (c ∷ l, rest))

-- The first unused descriptor from `i` on.
unfoldable pub free_fd : ℕ → List Descriptor → Option ℕ
free_fd i [] = none
free_fd i (d ∷ ds) = let rest = free_fd (i + 1) ds in if leb 3 i && not d.used then some i else rest

-- The bytes before the first NUL.
unfoldable pub until_nul : List ℕ → List ℕ
until_nul [] = []
until_nul (c ∷ l) = let rest = until_nul l in if c == 0 then [] else c ∷ rest

abbrev pub pad : ℕ → List ℕ → List ℕ
pad zero l = []
pad (suc n) [] = 0 ∷ pad n []
pad (suc n) (c ∷ l) = c ∷ pad n l

-- The bytes of a number, the lowest first.
abbrev pub little_endian : ℕ → ℕ → List ℕ
little_endian zero n = []
little_endian (suc w) n = n % 256 ∷ little_endian w (n / 256)

abbrev pub dirent_bytes : File → List ℕ
dirent_bytes f = pad 256 (take 255 f.name) ++ little_endian 8 f.size

abbrev pub error : ℤ
error = negsuc 0

module _ {S : Type 0} where
  abbrev pub print : Kernel S → List ℕ → Kernel S
  print s bytes = if s.has_terminal then record s { output = s.output ++ bytes } else s

  unfoldable pub sys_exit : Kernel S → ℕ → Kernel S × ℤ
  sys_exit s code = (print s (exit_msg ++ decimal code ++ (10 ∷ [])), pos 0xDEAD)

  abbrev pub fd_open : Kernel S → ℕ → Bool
  fd_open s fd = leb 3 fd && ltb fd max_fds && (get_or s.fd_table fd unused).used

  -- Writing to files is not implemented by the code.
  unfoldable pub sys_write : Kernel S → ℕ → ℕ → ℕ → Kernel S × ℤ
  sys_write s fd buf_ptr count =
      if count == 0
      then (s, pos 0)
      else if (fd == 1) || (fd == 2)
      then option_case (copy_from_user s.user buf_ptr (min count 4096)) (s, error)
          (λ bytes. (print s bytes, pos (length bytes)))
      else (s, error)

  unfoldable pub sys_close : Kernel S → ℕ → Kernel S × ℤ
  sys_close s fd =
      if fd_open s fd then (record s { fd_table = set s.fd_table fd unused }, pos 0) else (s, error)

module _ {S : Type 0} (driver : Driver S) where
  -- What `fs_read` gives at the descriptor's position, at most 4096 bytes; nothing for a NULL file.
  unfoldable pub fd_bytes : Kernel S → ℕ → ℕ → List ℕ
  fd_bytes s fd count =
      let d = get_or s.fd_table fd unused in
      option_case d.file [] (λ file. fs_read driver s.fs file d.position (min count 4096))

  -- The part of `sys_read` for an open file.
  unfoldable pub sys_read_file : Kernel S → ℕ → ℕ → ℕ → Kernel S × ℤ
  sys_read_file s fd buf_ptr count =
      let d = get_or s.fd_table fd unused in
      let bytes = fd_bytes s fd count in
      if length bytes == 0
      then (s, pos 0)
      else option_case (copy_to_user s.user buf_ptr bytes) (s, error)
          λ user. (
            record s {
              user = user;
              fd_table =
                  set s.fd_table fd (record d { position = (d.position + length bytes) % 2 ^ 64 });
            },
            pos (length bytes),
          )

  unfoldable pub sys_read : Kernel S → ℕ → ℕ → ℕ → Option (Kernel S × ℤ)
  sys_read s fd buf_ptr count =
      if count == 0
      then some (s, pos 0)
      else if fd == 0
      then option_case (read_keys (min count 4096) s.keys) none (λ (line, keys). some (
          option_case (copy_to_user s.user buf_ptr line) (record s { keys = keys }, error)
            (λ user. (record s { keys = keys; user = user }, pos (length line)))))
      else if fd_open s fd
      then some (sys_read_file s fd buf_ptr count)
      else some (s, error)

  unfoldable pub sys_open : Kernel S → ℕ → Kernel S × ℤ
  sys_open s path_ptr =
      option_case (free_fd 0 s.fd_table) (s, error)
        (λ fd.
          option_case (copy_from_user s.user path_ptr 255) (s, error)
            (λ kpath.
              let path = until_nul kpath in
              if leb 255 (length path)
              then (s, error)
              else (let (fs, file) = fs_open driver s.fs path in
                  option_case file (record s { fs = fs }, error)
                    (λ f. (
                      record s {
                        fs = fs;
                        fd_table =
                            set s.fd_table fd (record { file = some f; position = 0; used = true });
                      },
                      pos fd,
                    )))))

  unfoldable pub sys_readdir : Kernel S → ℕ → ℕ → ℕ → Kernel S × ℤ
  sys_readdir s index buf_ptr buf_size =
      if ltb buf_size dirent_size
      then (s, error)
      else if not (validate_user_memory buf_ptr dirent_size)
      then (s, error)
      else (let files = fs_list driver s.fs in
          if leb (length files) index
          then (s, pos 0)
          else option_case (copy_to_user s.user buf_ptr (dirent_bytes (get_or files index no_file)))
              (s, error) (λ user. (record s { user = user }, pos 1)))

-- The loop of `syscall_init` over the descriptors.
abbrev pub cleared_fds : ℕ → List Descriptor
cleared_fds zero = []
cleared_fds (suc n) = unused ∷ cleared_fds n

-- The descriptors and the process counter that `syscall_init` sets.
unfoldable pub syscall_init : {S : Type 0} → Kernel S → Kernel S
syscall_init s = record s { fd_table = cleared_fds max_fds; next_pid = 1 }
