-- ===== src/Ext2/Tests.antt =====
-- An image at 4096 with blocks of 1024 bytes and an inode at 6144 with the blocks 3 and 4.
use ppo_os.Common.{ℕ, ◌%◌, ◌≡◌, refl, true, some, List, [], ◌∷◌, leb, ◌==◌, arith, if◌then◌else◌}
use ppo_os.Fs.{Memory}
use ppo_os.Ext2.{Ext2, ext2_read_block, ext2_read_inode_data}
use ppo_os.Ext2.Path.{ext2_find_inode_by_path}
use ppo_os.Ext2.Files.{ext2_detect, changed_dir}
use ppo_os.Ext2.Content.{ext2_read_inode_data-bytes_from}
use ppo_os.Ext2.Halting.{Returns, ext2_find_inode_by_path-Returns}

abbrev fields : List (ℕ × ℕ)
fields =
    (5124, 8)
    ∷ (5160, 16)
    ∷ (5176, 0x53)
    ∷ (5177, 0xEF)
    ∷ (6148, 220)
    ∷ (6149, 5)
    ∷ (6184, 3)
    ∷ (6188, 4)
    ∷ []

abbrev field : List (ℕ × ℕ) → ℕ → ℕ → ℕ
field [] a d = d
field ((b, v) ∷ fs) a d = if a == b then v else field fs a d

abbrev image : Memory
image a = field fields a (if leb 7168 a then a % 251 else 0)

abbrev mounted : Ext2
mounted = record {
  ext2_data = 4096;
  ext2_size = 8192;
  superblock = 5120;
  block_size = 1024;
  current_dir = 47 ∷ [];
}

ext2_read_inode_data-bytes_from_example :
    ext2_read_inode_data mounted image (some 6144) 1020 8
    ≡ some (156 ∷ 157 ∷ 158 ∷ 159 ∷ 160 ∷ 161 ∷ 162 ∷ 163 ∷ [])
unfolding ext2_read_block
ext2_read_inode_data-bytes_from_example =
    ext2_read_inode_data-bytes_from mounted image 6144 1020 8 (omega arith) (omega arith)
      (omega arith) (omega arith)

ext2_find_inode_by_path-Returns_example :
    Returns (ext2_find_inode_by_path mounted image image (47 ∷ 97 ∷ []))
ext2_find_inode_by_path-Returns_example =
    ext2_find_inode_by_path-Returns mounted image (omega arith) image (47 ∷ 97 ∷ [])

ext2_detect_run : ext2_detect image 4096 8192 ≡ true
unfolding ext2_detect
ext2_detect_run = refl

-- "/a" and "b" give "/a/b".
changed_dir_run : changed_dir (47 ∷ 97 ∷ []) (98 ∷ []) ≡ some (47 ∷ 97 ∷ 47 ∷ 98 ∷ [])
unfolding changed_dir
changed_dir_run = refl
