-- ===== src/Fs/Dirs.antt =====
-- The directories of kernel/src/src/fs.c, and `fs_init`, which imports the initial RAM file system
-- and mounts an ext2 image if it finds one. Under the ext2 driver `strncat` is given the room that
-- the C code computes, with the wrap-around of `size_t`.
use ppo_os.Common.{
  ℕ, ◌+◌, ◌-◌, ◌%◌, ◌^◌, Bool, true, false, ◌&&◌, ◌||◌, Option, none, some, List, [], ◌∷◌, ◌++◌,
  ltb, leb, ◌==◌, if◌then◌else◌, option_case, length, take, bytes_eq,
}
use ppo_os.Fs.{
  File, Dir, Fs, initramfs, ext2, is_ext2, Driver, fs_max_path, fs_max_files, fs_max_dirs, fs_alloc,
  write_bytes, last_is_slash,
}

abbrev pub slash : List ℕ
slash = 47 ∷ []

-- The path of the first directory with the given name or path.
unfoldable pub find_dir : List ℕ → List Dir → Option (List ℕ)
find_dir path [] = none
find_dir path (d ∷ ds) =
    let rest = find_dir path ds in
    if bytes_eq d.name path || bytes_eq d.path path then some d.path else rest

abbrev pub has_dir : List ℕ → List Dir → Bool
has_dir name [] = false
has_dir name (d ∷ ds) = bytes_eq d.name name || has_dir name ds

-- `abs_path` in `fs_change_dir` under the ext2 driver.
unfoldable pub absolute : List ℕ → List ℕ → List ℕ
absolute current [] = []
absolute current (c ∷ l) =
    if c == 47
    then take 127 (c ∷ l)
    else (let base = take 127 current in
        let ends = last_is_slash base in
        let with_slash = if ends then base else base ++ take (127 - length base) slash in
        let len = if ends then length base else length base + 1 in
        with_slash ++ take ((fs_max_path + 2 ^ 64 - len - 1) % 2 ^ 64) (c ∷ l))

-- `dir->path` in `fs_create_dir`; `none` if it is too long.
unfoldable pub child_path : List ℕ → List ℕ → Option (List ℕ)
child_path current name =
    if bytes_eq current slash
    then (if ltb fs_max_path (1 + length name + 1) then none else some (slash ++ name))
    else if ltb fs_max_path (length current + 1 + length name + 1)
    then none
    else some (current ++ slash ++ name)

-- `struct initramfs_file` with the bytes that it points to.
pub record Source : Type 0 where
  pub name : List ℕ
  pub bytes : List ℕ

abbrev pub is_image : List ℕ → Bool
is_image name =
    bytes_eq name (101 ∷ 120 ∷ 116 ∷ 50 ∷ 46 ∷ 105 ∷ 109 ∷ 103 ∷ [])
    || bytes_eq name (100 ∷ 105 ∷ 115 ∷ 107 ∷ 46 ∷ 105 ∷ 109 ∷ 103 ∷ [])

module _ {S : Type 0} where
  unfoldable pub fs_create_dir : Fs S → List ℕ → Fs S × Bool
  fs_create_dir s name =
      if is_ext2 s.active_fs
      then (s, false)
      else if has_dir name s.dirs
      then (s, true)
      else if leb fs_max_dirs (length s.dirs)
      then (s, false)
      else option_case (child_path s.current_dir name) (s, false)
          λ path. (
            record s {
              dirs = s.dirs ++ (record { name = take 31 name; path = path } ∷ []);
              files =
                  if ltb (length s.files) fs_max_files
                  then s.files
                    ++ (record {
                      name = take 31 name;
                      content = 0;
                      size = 0;
                      capacity = 0;
                      mode = 0;
                      is_dir = true;
                      fs_type = initramfs;
                    }
                        ∷ [])
                  else s.files;
            },
            true,
          )

module _ {S : Type 0} (pool : ℕ) where
  -- One file of the initial RAM file system; `none` ends the import.
  unfoldable pub import_file : Fs S → Source → Fs S × Bool
  import_file s src =
      if leb fs_max_files (length s.files)
      then (s, false)
      else if last_is_slash src.name
      then (let name_len = if leb 32 (length src.name - 1) then 31 else length src.name in
          ((fs_create_dir s (take (name_len - 1) src.name)).0, true))
      else (let (s1, got) = fs_alloc pool s (length src.bytes) in
          option_case got (s1, false)
            λ d. (
              record s1 {
                files =
                    s1.files
                    ++ (record {
                      name = take 31 src.name;
                      content = d;
                      size = length src.bytes;
                      capacity = length src.bytes;
                      mode = 0o644;
                      is_dir = false;
                      fs_type = initramfs;
                    }
                        ∷ []);
                mem = write_bytes s1.mem d src.bytes;
              },
              true,
            ))

  unfoldable pub import_files : Fs S → List Source → Fs S
  import_files s [] = s
  import_files s (src ∷ l) =
      let (s1, go_on) = import_file s src in
      let rest = import_files s1 l in if go_on then rest else s1

module _ {S : Type 0} (driver : Driver S) where
  unfoldable pub fs_change_dir : Fs S → List ℕ → Fs S × Bool
  fs_change_dir s [] = (s, false)
  fs_change_dir s (c ∷ l) =
      if bytes_eq (c ∷ l) slash
      then (record s { current_dir = slash }, true)
      else if is_ext2 s.active_fs
      then (let path = absolute s.current_dir (c ∷ l) in
          let (d, ok) = driver.ext2_change_dir s.driver_state s.mem path in
          if ok
          then (record s { driver_state = d; current_dir = take 127 path }, true)
          else (record s { driver_state = d }, false))
      else option_case (find_dir (c ∷ l) s.dirs) (s, false)
          (λ path. (record s { current_dir = path }, true))

  unfoldable pub fs_mount_ext2 : Fs S → ℕ → ℕ → Fs S × Bool
  fs_mount_ext2 s image size =
      let (d, ok) = driver.ext2_init s.driver_state s.mem image size in
      if ok
      then (record s { driver_state = d; active_fs = ext2 }, true)
      else (record s { driver_state = d }, false)

  -- The search for an image among the files that the import left.
  unfoldable pub mount_image : List File → Fs S → Fs S
  mount_image [] s = s
  mount_image (f ∷ fs) s =
      let (s1, ok) = fs_mount_ext2 s f.content f.size in
      let without = mount_image fs s in
      let failed = mount_image fs s1 in
      if is_image f.name && driver.ext2_detect s.mem f.content f.size
      then (if ok then s1 else failed)
      else without

module _ {S : Type 0} (driver : Driver S) (pool : ℕ) where
  unfoldable pub fs_init : Fs S → List Source → Fs S
  fs_init s sources =
      let cleared = record s {
        files = [];
        dirs = record { name = slash; path = slash } ∷ [];
        current_dir = slash;
        active_fs = initramfs;
      } in
      let imported = import_files pool cleared sources in mount_image driver imported.files imported
