-- ===== src/Ext2/Files.antt =====
-- The operations of kernel/src/src/ext2.c that fs.c calls.
use ppo_os.Common.{
  ℕ, zero, suc, ◌+◌, ◌-◌, ◌*◌, ◌%◌, ◌^◌, Bool, true, false, not, ◌&&◌, ◌||◌, Option, none, some,
  List, [], ◌∷◌, ◌++◌, ltb, leb, ◌==◌, if◌then◌else◌, option_case, length, take, get_or, is_empty,
}
use ppo_os.Fs.{Memory, File, initramfs, fs_max_path, fs_max_files}
use ppo_os.Ext2.{
  Ext2, log_block_size, super_magic, inodes_count, inode_bytes, inode_blocks, inode_block,
  is_directory, ext2_read_block, ext2_read_inode, ext2_read_inode_data,
}
use ppo_os.Ext2.Path.{entry_inode, rec_len, name_len, entry_name, ext2_find_inode_by_path}

unfoldable pub ext2_detect : Memory → ℕ → ℕ → Bool
ext2_detect m image size =
    if (image == 0) || ltb size 2048 then false else super_magic m (image + 1024) == 0xEF53

-- `1024 << log_block_size`, where the processor takes the shift modulo 32.
abbrev pub shifted_size : ℕ → ℕ
shifted_size log = 1024 * 2 ^ (log % 32) % 2 ^ 32

unfoldable pub ext2_init : Ext2 → Memory → ℕ → ℕ → Ext2 × Bool
ext2_init s m image size = if not (ext2_detect m image size) then (s, false) else (
  record {
    ext2_data = image;
    ext2_size = size;
    superblock = image + 1024;
    block_size = shifted_size (log_block_size m (image + 1024));
    current_dir = 47 ∷ [];
  },
  true,
)

-- What follows the last slash, or all: `strrchr(path, '/') + 1`.
abbrev pub after_last_slash : List ℕ → List ℕ → List ℕ
after_last_slash [] name = name
after_last_slash (c ∷ cs) name = after_last_slash cs (if c == 47 then cs else name)

-- The structure for an inode. `memset` leaves `fs_type` at 0, which is FS_TYPE_INITRAMFS, and `data`
-- gets the inode's field `blocks`.
abbrev pub file_of : Memory → ℕ → List ℕ → File
file_of m inode name = record {
  name = name;
  content = inode_blocks m inode;
  size = inode_bytes m inode;
  capacity = inode_bytes m inode;
  mode = 0;
  is_dir = is_directory m inode;
  fs_type = initramfs;
}

unfoldable pub ext2_open : Ext2 → Memory → Memory → List ℕ → Option (Option File)
ext2_open s m behind path =
    if is_empty path
    then some none
    else option_case (ext2_find_inode_by_path s m behind path) none (λ found.
      option_case found (some none)
        (λ inode. some (some (file_of m inode (take 31 (after_last_slash path path))))))

-- The loop of `ext2_read` with `left` inodes to go. After the last of 2^32 - 1 inodes the counter
-- wraps and the loop has no end.
unfoldable pub find_blocks : Ext2 → Memory → ℕ → ℕ → Option (Option ℕ)
find_blocks s m blocks zero = if inodes_count m s.superblock == 2 ^ 32 - 1 then none else some none
find_blocks s m blocks (suc left) =
    let rest = find_blocks s m blocks left in
    option_case (ext2_read_inode s m (inodes_count m s.superblock - left)) none (λ temp_inode.
      option_case temp_inode rest
        (λ inode. if inode_blocks m inode == blocks then some (some inode) else rest))

-- The bytes that come into the buffer. `file` and `buf` are not NULL.
unfoldable pub ext2_read : Ext2 → Memory → File → ℕ → ℕ → Option (List ℕ)
ext2_read s m file offset len =
    if leb file.size offset
    then some []
    else option_case (find_blocks s m (file.content % 2 ^ 32) (inodes_count m s.superblock)) none
        (λ inode. option_case inode (some []) (λ i. ext2_read_inode_data s m (some i) offset len))

-- The bytes before a NUL.
abbrev pub before_nul : List ℕ → List ℕ
before_nul [] = []
before_nul (c ∷ cs) = let rest = before_nul cs in if c == 0 then [] else c ∷ rest

abbrev pub is_dot : Memory → ℕ → Bool
is_dot m e =
    ((name_len m e == 1) && (m (e + 8) == 46))
    || ((name_len m e == 2) && (m (e + 8) == 46) && (m (e + 9) == 46))

-- The loop through the entries of a block, `file_cache` so far behind them. A name of 32 bytes or
-- more overruns its field, which is undefined: there the result is `none` too.
unfoldable pub list_entries : ℕ → Ext2 → Memory → ℕ → ℕ → List File → Option (List File)
list_entries zero s m block_data offset cache = none
list_entries (suc fuel) s m block_data offset cache =
    let e = block_data + offset in
    let next : List File → Option (List File) =
      λ files. list_entries fuel s m block_data (offset + rec_len m e) files in
    if not (ltb offset s.block_size && ltb (length cache) fs_max_files)
    then some cache
    else if (entry_inode m e == 0) || (rec_len m e == 0)
    then some cache
    else if is_dot m e
    then next cache
    else option_case (ext2_read_inode s m (entry_inode m e)) none (λ found.
      option_case found (next cache) (λ inode.
        if ltb 31 (name_len m e)
        then none
        else next (cache ++ (file_of m inode (before_nul (entry_name m e)) ∷ []))))

unfoldable pub list_blocks : Ext2 → Memory → ℕ → ℕ → List File → Option (List File)
list_blocks s m inode zero cache = some cache
list_blocks s m inode (suc left) cache =
    let block = inode_block m inode (11 - left) in
    if not (ltb (length cache) fs_max_files)
    then some cache
    else if block == 0
    then list_blocks s m inode left cache
    else option_case (ext2_read_block s m block) (list_blocks s m inode left cache) (λ block_data.
      option_case (list_entries (s.block_size + 1) s m block_data 0 cache) none
        (λ files. list_blocks s m inode left files))

-- The files and their count, or `some none` for NULL with a count of 0. A NULL path is `none`.
unfoldable pub ext2_list : Ext2 → Memory → Memory → Option (List ℕ) → Option (Option (List File))
ext2_list s m behind path =
    option_case (ext2_find_inode_by_path s m behind (option_case path s.current_dir (λ p. p))) none
      (λ found. option_case found (some none) (λ inode.
        if not (is_directory m inode)
        then some none
        else option_case (list_blocks s m inode 12 []) none (λ files. some (some files))))

abbrev pub last_is_slash : List ℕ → Bool
last_is_slash [] = false
last_is_slash (c ∷ []) = c == 47
last_is_slash (c ∷ (d ∷ cs)) = last_is_slash (d ∷ cs)

-- `current_dir` after the change to a path that names a directory; it holds 127 bytes. Behind 127
-- bytes without a slash at the end the count of the second `strncat` wraps, so that it overruns the
-- array: there the result is `none`.
unfoldable pub changed_dir : List ℕ → List ℕ → Option (List ℕ)
changed_dir current path =
    if get_or path 0 0 == 47
    then some (take (fs_max_path - 1) path)
    else if last_is_slash current
    then some (take (fs_max_path - 1) (current ++ path))
    else if length current == fs_max_path - 1
    then none
    else some (take (fs_max_path - 1) (current ++ (47 ∷ path)))

unfoldable pub ext2_change_dir : Ext2 → Memory → Memory → List ℕ → Option (Ext2 × Bool)
ext2_change_dir s m behind path =
    if is_empty path
    then some (s, false)
    else option_case (ext2_find_inode_by_path s m behind path) none (λ found.
      option_case found (some (s, false)) (λ inode.
        if not (is_directory m inode)
        then some (s, false)
        else option_case (changed_dir s.current_dir path) none (λ dir. some (
          record {
            ext2_data = s.ext2_data;
            ext2_size = s.ext2_size;
            superblock = s.superblock;
            block_size = s.block_size;
            current_dir = dir;
          },
          true,
        ))))
