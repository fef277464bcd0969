-- ===== src/Ext2/Halting.antt =====
-- Whether the walk along a path of `ext2_find_inode_by_path` ends.
use ppo_os.Common.{
  ℕ, zero, suc, ◌+◌, ◌-◌, ◌/◌, ◌%◌, ◌^◌, ◌≤◌, ◌<◌, ◌≡◌, ◌≢◌, refl, Bool, true, false, not, ◌&&◌,
  ◌||◌, Option, none, some, List, [], ◌∷◌, ltb, ◌==◌, option_case, length, take, bytes_eq, arith,
  ==→eq, ==→ne, inl, inr, Bool-cases, is_empty,
}
use ppo_os.Common.Branch.{if_elim, option_elim}
use ppo_os.Fs.{Memory, fs_max_path}
use ppo_os.Ext2.{
  Ext2, inode_block, is_directory, inodes_per_group, inodes_count, inode_offset, super_inode_size,
  ext2_read_block, ext2_read_inode,
}
use ppo_os.Ext2.Path.{
  buffered, rec_len, entry_inode, name_len, entry_name, scan_entries, search_blocks, cut_slash,
  walk_path, skip_slash, ext2_find_inode_by_path,
}

-- The kernel does not stop.
abbrev pub Returns {ℓ} : {A : Type ℓ} → Option A → Type ℓ
Returns o = o ≢ none

some-Returns {ℓ} : {A : Type ℓ} (a : A) → Returns (some a)
some-Returns a e = cc

-- A step that returns, and whatever follows it.
then-Returns {ℓ κ} :
    {A : Type ℓ} {B : Type κ} (o : Option A) (f : A → Option B)
    → Returns o
    → ((a : A) → Returns (f a))
    → Returns (option_case o none f)
then-Returns none f h k = absurd (h refl)
then-Returns (some a) f h k = k a

right_false : (a b : Bool) → (a || b) ≡ false → b ≡ false
right_false true b e = absurd cc
right_false false b e = e

scan_entries-Returns :
    (fuel : ℕ) (buffer : Memory) (block_size : ℕ) (token : List ℕ) (offset : ℕ)
    → block_size - offset < fuel
    → Returns (scan_entries fuel buffer block_size token offset)
unfolding scan_entries
scan_entries-Returns zero buffer block_size token offset enough = absurd (omega arith)
scan_entries-Returns (suc fuel) buffer block_size token offset enough =
    if_elim Returns (not (ltb offset block_size)) (λ _. some-Returns none)
      (λ inside.
        if_elim Returns ((entry_inode buffer offset == 0) || (rec_len buffer offset == 0))
          (λ _. some-Returns none)
          (λ moves.
            if_elim Returns
              ((name_len buffer offset == length token)
                && bytes_eq (entry_name buffer offset) token)
              (λ _. some-Returns _)
              (λ _.
                scan_entries-Returns fuel buffer block_size token (offset + rec_len buffer offset) (
                  let steps = ==→ne _ _ (right_false (entry_inode buffer offset == 0) _ moves) in
                  let before_end : offset < block_size = ground arith in omega arith))))

module _ (s : Ext2) (m : Memory) (grouped : inodes_per_group m s.superblock ≢ 0) where
  ext2_read_inode-Returns : (inode_num : ℕ) → Returns (ext2_read_inode s m inode_num)
  unfolding ext2_read_inode
  ext2_read_inode-Returns inode_num =
      if_elim Returns
        ((s.ext2_data == 0)
          || (s.superblock == 0)
          || (inode_num == 0)
          || ltb (inodes_count m s.superblock) inode_num)
        (λ _. some-Returns none)
        (λ _.
          if_elim Returns (inodes_per_group m s.superblock == 0)
            (λ zero_group. absurd (grouped (==→eq _ _ zero_group)))
            (λ _.
              if_elim Returns
                (ltb s.ext2_size (
                  (inode_offset s m ((inode_num - 1) / inodes_per_group m s.superblock)
                      ((inode_num - 1) % inodes_per_group m s.superblock)
                    + super_inode_size m s.superblock)
                  % 2 ^ 32))
                (λ _. some-Returns none) (λ _. some-Returns _)))

  search_blocks-Returns :
      (behind : Memory) (inode : ℕ) (token : List ℕ) (left : ℕ)
      → Returns (search_blocks s m behind inode token left)
  unfolding search_blocks
  search_blocks-Returns behind inode token zero = some-Returns none
  search_blocks-Returns behind inode token (suc left) =
      let rest = search_blocks-Returns behind inode token left in
      if_elim Returns (inode_block m inode (11 - left) == 0) (λ _. rest)
        (λ _.
          option_elim Returns (ext2_read_block s m (inode_block m inode (11 - left))) rest
            (λ block_data _.
              then-Returns
                (scan_entries (s.block_size + 1) (buffered m block_data s.block_size behind)
                  s.block_size token 0)
                (λ found.
                  option_case found (search_blocks s m behind inode token left)
                    (λ ino. some (some ino)))
                (scan_entries-Returns (s.block_size + 1) _ s.block_size token 0 (omega arith))
                (λ found. option_elim Returns found rest (λ ino _. some-Returns (some ino)))))

  -- A NULL token takes one round, another one as many as it has bytes, and one more.
  abbrev rounds : Option (List ℕ) → ℕ
  rounds none = 0
  rounds (some token) = length token + 1

  rounds-cut_slash : (token : List ℕ) → rounds (cut_slash token).1 ≤ length token
  rounds-cut_slash [] = omega arith
  rounds-cut_slash (c ∷ cs) = elim (Bool-cases (c == 47)) [
    | inl e ↦ rw e (omega arith)
    | inr e ↦ rw e (omega (arith, rounds-cut_slash cs))
  ]

  walk_path-Returns :
      (fuel : ℕ) (behind : Memory) (inode : ℕ) (token : Option (List ℕ))
      → rounds token < fuel
      → Returns (walk_path fuel s m behind inode token)
  unfolding walk_path
  walk_path-Returns zero behind inode token enough = absurd (omega arith)
  walk_path-Returns (suc fuel) behind inode none enough = some-Returns (some inode)
  walk_path-Returns (suc fuel) behind inode (some token) enough =
      let onward : (i : ℕ) → Returns (walk_path fuel s m behind i (cut_slash token).1) = λ i.
        walk_path-Returns fuel behind i (cut_slash token).1
          (omega (arith, rounds-cut_slash token)) in
      if_elim Returns (is_empty token) (λ _. some-Returns (some inode))
        (λ _.
          if_elim Returns (is_empty (cut_slash token).0) (λ _. onward inode)
            (λ _.
              if_elim Returns (not (is_directory m inode)) (λ _. some-Returns none)
                (λ _.
                  then-Returns (search_blocks s m behind inode (cut_slash token).0 12) _
                    (search_blocks-Returns behind inode (cut_slash token).0 12)
                    (λ found. option_elim Returns found (some-Returns none) (λ ino _.
                      then-Returns (ext2_read_inode s m ino) _ (ext2_read_inode-Returns ino)
                        (λ inode'.
                          option_elim Returns inode' (some-Returns none) (λ i _. onward i)))))))

  -- If the superblock's count of inodes per group is not 0, `ext2_find_inode_by_path` returns on
  -- every image and every path, whatever the directory entries hold.
  pub ext2_find_inode_by_path-Returns :
      (behind : Memory) (path : List ℕ) → Returns (ext2_find_inode_by_path s m behind path)
  unfolding ext2_find_inode_by_path
  ext2_find_inode_by_path-Returns behind path =
      if_elim Returns (is_empty path) (λ _. some-Returns none)
        (λ _. then-Returns (ext2_read_inode s m 2) _ (ext2_read_inode-Returns 2) (λ root.
          option_elim Returns root (some-Returns none) (λ inode _.
            if_elim Returns (bytes_eq path (47 ∷ [])) (λ _. some-Returns (some inode))
              (λ _.
                walk_path-Returns _ behind inode (some (skip_slash (take (fs_max_path - 1) path)))
                  (omega arith)))))
