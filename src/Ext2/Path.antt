-- ===== src/Ext2/Path.antt =====
-- `ext2_find_inode_by_path`. A path is the list of its bytes before the NUL. The function parses a
-- directory block in a buffer on its stack; `behind` is what stands behind that buffer.
use ppo_os.Common.Numbers.{le16, le32}
use ppo_os.Common.{
  ℕ, zero, suc, ◌+◌, ◌-◌, not, ◌&&◌, ◌||◌, Option, none, some, List, [], ◌∷◌, ltb, ◌==◌,
  if◌then◌else◌, option_case, length, take, bytes_eq, is_empty,
}
use ppo_os.Fs.{Memory, read_bytes, fs_max_path}
use ppo_os.Ext2.{Ext2, inode_block, is_directory, ext2_read_block, ext2_read_inode}

-- `block_buffer` after the copy of a block.
abbrev pub buffered : Memory → ℕ → ℕ → Memory → Memory
buffered m block_data block_size behind a =
    if ltb a block_size then m (block_data + a) else behind a

-- Fields of the directory entry at `e`.
module _ (m : Memory) (e : ℕ) where
  abbrev pub entry_inode : ℕ
  entry_inode = le32 m e

  abbrev pub rec_len : ℕ
  rec_len = le16 m (e + 4)

  abbrev pub name_len : ℕ
  name_len = m (e + 6)

  abbrev pub entry_name : List ℕ
  entry_name = read_bytes m (e + 8) name_len

-- The loop through the entries of the block in `buffer`, from `offset` on: the inode number of the
-- entry with this name, or `some none`. Each round goes on by `rec_len`, which is not 0.
unfoldable pub scan_entries : ℕ → Memory → ℕ → List ℕ → ℕ → Option (Option ℕ)
scan_entries zero buffer block_size token offset = none
scan_entries (suc fuel) buffer block_size token offset =
    let rest = scan_entries fuel buffer block_size token (offset + rec_len buffer offset) in
    if not (ltb offset block_size)
    then some none
    else if (entry_inode buffer offset == 0) || (rec_len buffer offset == 0)
    then some none
    else if (name_len buffer offset == length token) && bytes_eq (entry_name buffer offset) token
    then some (some (entry_inode buffer offset))
    else rest

-- The loop through the blocks of the directory, with `left` of the 12 to go.
unfoldable pub search_blocks : Ext2 → Memory → Memory → ℕ → List ℕ → ℕ → Option (Option ℕ)
search_blocks s m behind inode token zero = some none
search_blocks s m behind inode token (suc left) =
    let rest = search_blocks s m behind inode token left in
    let block = inode_block m inode (11 - left) in
    if block == 0
    then rest
    else option_case (ext2_read_block s m block) rest (λ block_data.
      option_case
        (scan_entries (s.block_size + 1) (buffered m block_data s.block_size behind) s.block_size
          token 0)
        none (λ found. option_case found rest (λ ino. some (some ino))))

-- `strchr(token, '/')`: the bytes before the slash, and those behind it if there is one.
abbrev pub cut_slash : List ℕ → List ℕ × Option (List ℕ)
cut_slash [] = ([], none)
cut_slash (c ∷ cs) =
    let (first, next) = cut_slash cs in if c == 47 then ([], some cs) else (c ∷ first, next)

-- `while (token && *token)` from `current_inode` on; a NULL token is `none`.
unfoldable pub walk_path : ℕ → Ext2 → Memory → Memory → ℕ → Option (List ℕ) → Option (Option ℕ)
walk_path zero s m behind current_inode token = none
walk_path (suc fuel) s m behind current_inode none = some (some current_inode)
walk_path (suc fuel) s m behind current_inode (some token) =
    let (first, next) = cut_slash token in
    let skipped = walk_path fuel s m behind current_inode next in
    let onward : ℕ → Option (Option ℕ) = λ inode. walk_path fuel s m behind inode next in
    if is_empty token
    then some (some current_inode)
    else if is_empty first
    then skipped
    else if not (is_directory m current_inode)
    then some none
    else option_case (search_blocks s m behind current_inode first 12) none (λ found.
      option_case found (some none) (λ ino.
        option_case (ext2_read_inode s m ino) none (λ inode. option_case inode (some none) onward)))

abbrev pub skip_slash : List ℕ → List ℕ
skip_slash [] = []
skip_slash (c ∷ cs) = if c == 47 then cs else c ∷ cs

-- A round takes a byte of the copy of the path at least, so its length and one more are enough.
unfoldable pub ext2_find_inode_by_path : Ext2 → Memory → Memory → List ℕ → Option (Option ℕ)
ext2_find_inode_by_path s m behind path =
    let token = skip_slash (take (fs_max_path - 1) path) in
    if is_empty path
    then some none
    else option_case (ext2_read_inode s m 2) none (λ root. option_case root (some none) (λ inode.
      if bytes_eq path (47 ∷ [])
      then some (some inode)
      else walk_path (length token + 2) s m behind inode (some token)))
