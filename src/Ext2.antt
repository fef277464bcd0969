-- ===== src/Ext2.antt =====
-- kernel/src/src/ext2.c: blocks, inodes and the data of an inode, in an image that stands in memory.
-- Structures on the image are addresses, and their fields are read from the bytes. The sums of 32 bits
-- wrap as in the code; pointers do not wrap. `none` stands for NULL, and where a result has a second
-- `Option`, an outer `none` says that the kernel stops, at a division by zero or in an endless loop.
pub mod Path
pub mod Files
pub mod Bytes
pub mod Rounds
pub mod Content
pub mod Halting
mod Tests
use ppo_os.Common.Numbers.{le16, le32}
use ppo_os.Common.{
  ℕ, zero, suc, ◌+◌, ◌-◌, ◌*◌, ◌/◌, ◌%◌, ◌^◌, bit_and, Bool, true, false, not, ◌&&◌, ◌||◌, Option,
  none, some, List, [], ◌∷◌, ◌++◌, ltb, leb, ◌==◌, if◌then◌else◌, option_case,
}
use ppo_os.Fs.{Memory, read_bytes}

-- The static variables, without the cache that `ext2_list` fills and returns.
pub record Ext2 : Type 0 where
  pub ext2_data : ℕ
  pub ext2_size : ℕ
  pub superblock : ℕ
  pub block_size : ℕ
  pub current_dir : List ℕ

-- Fields of the superblock.
module _ (m : Memory) (sb : ℕ) where
  abbrev pub inodes_count : ℕ
  inodes_count = le32 m sb

  abbrev pub blocks_count : ℕ
  blocks_count = le32 m (sb + 4)

  abbrev pub first_data_block : ℕ
  first_data_block = le32 m (sb + 20)

  abbrev pub log_block_size : ℕ
  log_block_size = le32 m (sb + 24)

  abbrev pub inodes_per_group : ℕ
  inodes_per_group = le32 m (sb + 40)

  abbrev pub super_magic : ℕ
  super_magic = le16 m (sb + 56)

  abbrev pub super_inode_size : ℕ
  super_inode_size = le16 m (sb + 88)

-- Fields of an inode.
module _ (m : Memory) (inode : ℕ) where
  abbrev pub inode_mode : ℕ
  inode_mode = le16 m inode

  abbrev pub inode_bytes : ℕ
  inode_bytes = le32 m (inode + 4)

  abbrev pub inode_blocks : ℕ
  inode_blocks = le32 m (inode + 28)

  abbrev pub inode_block : ℕ → ℕ
  inode_block i = le32 m (inode + 40 + 4 * i)

  -- `mode & EXT2_S_IFDIR`
  abbrev pub is_directory : Bool
  is_directory = not (bit_and inode_mode 0x4000 == 0)

unfoldable pub ext2_read_block : Ext2 → Memory → ℕ → Option ℕ
ext2_read_block s m block_num =
    let offset = block_num * s.block_size % 2 ^ 32 in
    if (s.ext2_data == 0) || (s.block_size == 0) || leb (blocks_count m s.superblock) block_num
    then none
    else if ltb s.ext2_size (offset + s.block_size)
    then none
    else some (s.ext2_data + offset)

-- The address that `ext2_read_inode` computes for the inode with number `index` in its group.
unfoldable pub inode_offset : Ext2 → Memory → ℕ → ℕ → ℕ
inode_offset s m group index =
    let bg_desc_offset = (first_data_block m s.superblock + 1) * s.block_size % 2 ^ 32 in
    let bg_desc = s.ext2_data + bg_desc_offset + group * 32 in
    let inode_table_block = le32 m (bg_desc + 8) in
    (inode_table_block * s.block_size + index * super_inode_size m s.superblock) % 2 ^ 32

unfoldable pub ext2_read_inode : Ext2 → Memory → ℕ → Option (Option ℕ)
ext2_read_inode s m inode_num =
    let per_group = inodes_per_group m s.superblock in
    let offset = inode_offset s m ((inode_num - 1) / per_group) ((inode_num - 1) % per_group) in
    if (s.ext2_data == 0)
      || (s.superblock == 0)
      || (inode_num == 0)
      || ltb (inodes_count m s.superblock) inode_num
    then some none
    else if per_group == 0
    then none
    else if ltb s.ext2_size ((offset + super_inode_size m s.superblock) % 2 ^ 32)
    then some none
    else some (some (s.ext2_data + offset))

-- How much the round for block `i` of `ext2_read_inode_data` copies, after `bytes_read` bytes.
unfoldable pub to_read : ℕ → ℕ → ℕ → ℕ → ℕ → ℕ
to_read block_size offset len i bytes_read =
    let start_block = offset / block_size % 2 ^ 32 in
    let end_block = (offset + len + (2 ^ 64 - 1)) % 2 ^ 64 / block_size % 2 ^ 32 in
    let block_offset = if i == start_block then offset % block_size else 0 in
    let end_offset = (offset + len) % 2 ^ 64 % block_size in
    let part =
      if (i == end_block) && ltb 0 end_offset
      then (end_offset + 2 ^ 64 - block_offset) % 2 ^ 64
      else block_size - block_offset in
    if ltb len ((bytes_read + part) % 2 ^ 64) then len - bytes_read else part

module _ (s : Ext2) (m : Memory) (inode offset len : ℕ) where
  -- The loop at block `i`: what it appends to the buffer.
  unfoldable pub read_direct : ℕ → ℕ → ℕ → List ℕ
  read_direct zero i bytes_read = []
  read_direct (suc left) i bytes_read =
      let start_block = offset / s.block_size % 2 ^ 32 in
      let end_block = (offset + len + (2 ^ 64 - 1)) % 2 ^ 64 / s.block_size % 2 ^ 32 in
      let block_offset = if i == start_block then offset % s.block_size else 0 in
      let part = to_read s.block_size offset len i bytes_read in
      let rest = read_direct left (i + 1) (bytes_read + part) in
      if ltb end_block i
      then []
      else option_case (ext2_read_block s m (inode_block m inode i)) [] (λ block_data.
        read_bytes m (block_data + block_offset) part
        ++ (if leb len (bytes_read + part) then [] else rest))

-- The bytes that come into the buffer; their number is the result. The buffer is not NULL.
unfoldable pub ext2_read_inode_data : Ext2 → Memory → Option ℕ → ℕ → ℕ → Option (List ℕ)
ext2_read_inode_data s m none offset len = some []
ext2_read_inode_data s m (some inode) offset len =
    let size = inode_bytes m inode in
    let limited = if ltb size ((offset + len) % 2 ^ 64) then size - offset else len in
    let start_block = offset / s.block_size % 2 ^ 32 in
    if leb size offset
    then some []
    else if s.block_size == 0
    then none
    else some (read_direct s m inode offset limited (12 - start_block) start_block 0)
