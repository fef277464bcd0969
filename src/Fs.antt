-- ===== src/Fs.antt =====
-- The file system of kernel/src/src/fs.c. The kernel's memory is a function from addresses to bytes
-- in which `pool` is the address of `mem_pool`; a pointer is its address and NULL is 0. A C string
-- is the list of its bytes before the terminator, so a `strncpy` into 32 bytes keeps 31 of them. The
-- caller's buffers lie outside this memory. Names are not NULL. Serial messages are left out.
pub mod Dirs
pub mod Valid
pub mod Write
pub mod Read
pub mod Lookup
pub mod Create
pub mod Import
pub mod Spill
mod Tests
use ppo_os.Common.{
  ℕ, zero, suc, ◌+◌, ◌-◌, ◌*◌, ◌%◌, ◌^◌, min, Bool, true, false, not, ◌&&◌, ◌||◌, Option, none,
  some, List, [], ◌∷◌, ◌++◌, ltb, leb, ◌==◌, if◌then◌else◌, option_case, length, get_or, set, take,
  drop, bytes_eq,
}

abbrev pub Memory : Type 0
Memory = ℕ → ℕ

-- memset, memcpy of a caller's bytes, memcpy between regions that do not overlap, and a byte.
abbrev pub fill : Memory → ℕ → ℕ → ℕ → Memory
fill m p v n a = if leb p a && ltb a (p + n) then v else m a

abbrev pub write_bytes : Memory → ℕ → List ℕ → Memory
write_bytes m p l a = if leb p a && ltb a (p + length l) then get_or l (a - p) 0 else m a

abbrev pub copy : Memory → ℕ → ℕ → ℕ → Memory
copy m dst src n a = if leb dst a && ltb a (dst + n) then m (src + (a - dst)) else m a

abbrev pub read_bytes : Memory → ℕ → ℕ → List ℕ
read_bytes m p zero = []
read_bytes m p (suc n) = m p ∷ read_bytes m (p + 1) n

-- `fs_type_t`
pub data FsType : Type 0 where
  initramfs : FsType
  ext2 : FsType

abbrev pub is_ext2 : FsType → Bool
is_ext2 initramfs = false
is_ext2 ext2 = true

pub record File : Type 0 where
  pub name : List ℕ
  -- `data`
  pub content : ℕ
  pub size : ℕ
  pub capacity : ℕ
  pub mode : ℕ
  pub is_dir : Bool
  pub fs_type : FsType

pub record Dir : Type 0 where
  pub name : List ℕ
  pub path : List ℕ

-- What fs.c calls of ext2.c, over the driver's own state.
pub record Driver (S : Type 0) : Type 0 where
  pub ext2_detect : Memory → ℕ → ℕ → Bool
  pub ext2_init : S → Memory → ℕ → ℕ → S × Bool
  pub ext2_open : S → Memory → List ℕ → Option File
  pub ext2_read : S → Memory → File → ℕ → ℕ → List ℕ
  pub ext2_list : S → Memory → List ℕ → List File
  pub ext2_change_dir : S → Memory → List ℕ → S × Bool

-- `struct fs_mount` with the statics of `fs_alloc`, and the static structure that `ext2_open` fills.
pub record Fs (S : Type 0) : Type 0 where
  pub files : List File
  pub dirs : List Dir
  pub current_dir : List ℕ
  pub active_fs : FsType
  pub mem : Memory
  pub mem_used : ℕ
  pub ext2_file : File
  pub driver_state : S

-- A `struct fs_file *`: an entry of `fs.files`, or the static structure of `ext2_open`.
pub data FilePtr : Type 0 where
  entry : ℕ → FilePtr
  ext2_static : FilePtr

abbrev pub fs_max_path : ℕ
fs_max_path = 128

abbrev pub fs_max_files : ℕ
fs_max_files = 32

abbrev pub fs_max_dirs : ℕ
fs_max_dirs = 8

abbrev pub pool_size : ℕ
pool_size = 64 * 1024

abbrev pub no_file : File
no_file = record {
  name = [];
  content = 0;
  size = 0;
  capacity = 0;
  mode = 0;
  is_dir = false;
  fs_type = initramfs;
}

-- Strips a leading "./".
unfoldable pub strip_dot_slash : List ℕ → List ℕ
strip_dot_slash [] = []
strip_dot_slash (c ∷ []) = c ∷ []
strip_dot_slash (c ∷ d ∷ l) = if (c == 46) && (d == 47) then l else c ∷ d ∷ l

abbrev pub last_is_slash : List ℕ → Bool
last_is_slash [] = false
last_is_slash (c ∷ []) = c == 47
last_is_slash (c ∷ d ∷ l) = last_is_slash (d ∷ l)

-- The three comparisons of `fs_open`.
unfoldable pub name_matches : List ℕ → File → Bool
name_matches name f =
    let processed = take 31 (strip_dot_slash name) in
    bytes_eq (strip_dot_slash (take 31 f.name)) processed
    || bytes_eq f.name processed
    || bytes_eq f.name name

-- The first index from `i` on whose entry matches.
unfoldable pub find_file : List ℕ → ℕ → List File → Option ℕ
find_file name i [] = none
find_file name i (f ∷ fs) =
    let rest = find_file name (i + 1) fs in if name_matches name f then some i else rest

-- The bytes that `fs_write` stores in the buffer of `f`.
unfoldable pub store : Memory → File → ℕ → List ℕ → Memory
store m f offset buf =
    let new_size = (offset + length buf) % 2 ^ 64 in
    let gap = if ltb f.size offset then fill m (f.content + f.size) 0 (offset - f.size) else m in
    let written = write_bytes gap (f.content + offset) buf in
    if ltb f.size new_size then fill written (f.content + new_size) 0 1 else written

module _ {S : Type 0} where
  abbrev pub deref : Fs S → FilePtr → File
  deref s (entry i) = get_or s.files i no_file
  deref s ext2_static = s.ext2_file

  abbrev pub update : Fs S → FilePtr → File → Fs S
  update s (entry i) f = record s { files = set s.files i f }
  update s ext2_static f = record s { ext2_file = f }

module _ {S : Type 0} (pool : ℕ) where
  unfoldable pub fs_alloc : Fs S → ℕ → Fs S × Option ℕ
  fs_alloc s size =
      let used = (s.mem_used + size) % 2 ^ 64 in
      if ltb pool_size used
      then (s, none)
      else (record s { mem_used = used }, some (pool + s.mem_used))

  -- The buffer that a write to `new_size` bytes uses, after it has grown if need be.
  unfoldable pub grow : Fs S → File → ℕ → Fs S × Option File
  grow s f new_size =
      if ltb f.capacity new_size
      then (let new_capacity = new_size * 2 % 2 ^ 64 in
          let (s1, new_data) = fs_alloc s new_capacity in
          option_case new_data (s1, none)
            λ d. (
              record s1 { mem = copy (fill s1.mem d 0 new_capacity) d f.content f.size },
              some (record f { content = d; capacity = new_capacity }),
            ))
      else (s, some f)

  unfoldable pub fs_write : Fs S → FilePtr → ℕ → List ℕ → Fs S × ℕ
  fs_write s p offset buf =
      let f = deref s p in
      if is_ext2 f.fs_type || (f.content == 0)
      then (s, 0)
      else (let new_size = (offset + length buf) % 2 ^ 64 in
          let (s1, grown) = grow s f new_size in
          option_case grown (s1, 0)
            λ g. (
              update (record s1 { mem = store s1.mem g offset buf }) p
                  (record g { size = if ltb g.size new_size then new_size else g.size }),
              length buf,
            ))

module _ {S : Type 0} (driver : Driver S) where
  unfoldable pub fs_open : Fs S → List ℕ → Fs S × Option FilePtr
  fs_open s [] = (s, none)
  fs_open s (c ∷ l) =
      if is_ext2 s.active_fs
      then option_case (driver.ext2_open s.driver_state s.mem (c ∷ l)) (s, none)
          (λ f. (record s { ext2_file = f }, some ext2_static))
      else option_case (find_file (c ∷ l) 0 s.files) (s, none) (λ i. (s, some (entry i)))

  -- The bytes that are copied to the caller; their number is the result.
  unfoldable pub fs_read : Fs S → FilePtr → ℕ → ℕ → List ℕ
  fs_read s p offset len =
      let f = deref s p in
      if leb f.size offset
      then []
      else if is_ext2 f.fs_type
      then driver.ext2_read s.driver_state s.mem f offset len
      else if f.content == 0
      then []
      else read_bytes s.mem (f.content + offset) (min (f.size - offset) len)

  unfoldable pub fs_list : Fs S → List File
  fs_list s =
      if is_ext2 s.active_fs then driver.ext2_list s.driver_state s.mem s.current_dir else s.files

  unfoldable pub fs_chmod : Fs S → List ℕ → ℕ → Fs S × Bool
  fs_chmod s name mode =
      let (s1, p) = fs_open s name in
      option_case p (s1, false)
        (λ q. (update s1 q (record (deref s1 q) { mode = mode % 2 ^ 16 }), true))

module _ {S : Type 0} (driver : Driver S) (pool : ℕ) where
  unfoldable pub fs_create_file : Fs S → List ℕ → Fs S × Option FilePtr
  fs_create_file s name =
      let (s1, existing) = fs_open driver s name in
      option_case existing
        (if is_ext2 s1.active_fs
          then (s1, none)
          else if leb fs_max_files (length s1.files)
          then (s1, none)
          else (let (s2, got) = fs_alloc pool s1 256 in
              option_case got (s2, none)
                λ d. (
                  record s2 {
                    files =
                        s2.files
                        ++ (record {
                          name = take 31 name;
                          content = d;
                          size = 0;
                          capacity = 256;
                          mode = 0o644;
                          is_dir = false;
                          fs_type = initramfs;
                        }
                            ∷ []);
                    mem = fill s2.mem d 0 1;
                  },
                  some (entry (length s2.files)),
                )))
        (λ p. (s1, some p))
