-- ===== src/Fs/Valid.antt =====
-- The invariant of the file system's buffers, and what `store` changes in memory.
use ppo_os.Common.{
  ℕ, ◌+◌, ◌-◌, ◌^◌, ◌≤◌, ◌<◌, ◌≡◌, ◌≢◌, ◌⊎◌, inl, inr, false, ◌&&◌, List, arith, ltb, leb,
  if◌then◌else◌, length, get_or,
}
use ppo_os.Fs.{Fs, File, is_ext2, Memory, no_file, pool_size, store}

abbrev pub file_at : {S : Type 0} → Fs S → ℕ → File
file_at s i = get_or s.files i no_file

-- Two buffers do not overlap.
abbrev pub Apart : File → File → Type 0
Apart f g = (f.content + f.capacity ≤ g.content) ⊎ (g.content + g.capacity ≤ f.content)

pub Apart-sym : (f g : File) → Apart f g → Apart g f
Apart-sym f g (inl x) = inr x
Apart-sym f g (inr x) = inl x

-- A buffer in the used part of the pool, which holds the file's bytes.
pub record InPool (pool used : ℕ) (f : File) : Type 0 where
  pub start : pool ≤ f.content
  pub end : f.content + f.capacity ≤ pool + used
  pub fits : f.size ≤ f.capacity

pub record IsValid {S : Type 0} (pool : ℕ) (s : Fs S) : Type 0 where
  pub used : s.mem_used ≤ pool_size
  pub plain : (i : ℕ) → is_ext2 (file_at s i).fs_type ≡ false
  pub empty : (i : ℕ) → (file_at s i).content ≡ 0 → (file_at s i).size ≡ 0
  pub buffer : (i : ℕ) → (file_at s i).content ≢ 0 → InPool pool s.mem_used (file_at s i)
  pub apart :
      (i j : ℕ)
      → i ≢ j
      → (file_at s i).content ≢ 0
      → (file_at s j).content ≢ 0
      → Apart (file_at s i) (file_at s j)

module _ (m : Memory) (f : File) (offset : ℕ) (buf : List ℕ)
    (bounded : offset + length buf < 2 ^ 64) where
  -- A byte of the file after a write into its buffer.
  pub store-own :
      (k : ℕ)
      → (k < f.size) ⊎ (k < offset + length buf)
      → store m f offset buf (f.content + k) ≡ (
          if leb offset k && ltb k (offset + length buf)
          then get_or buf (k - offset) 0
          else if ltb k f.size
          then m (f.content + k)
          else 0)
  unfolding store
  store-own k h = ground arith

  -- A byte outside of the buffer, if the write and its terminator stay inside.
  pub store-other :
      (a : ℕ)
      → offset + length buf < f.capacity
      → (a < f.content) ⊎ (f.content + f.capacity ≤ a)
      → store m f offset buf a ≡ m a
  unfolding store
  store-other a inside h = ground arith

-- The invariant speaks of the files and of the pool's use only.
pub IsValid-same :
    {S : Type 0} (pool : ℕ) {s t : Fs S}
    → s.files ≡ t.files
    → s.mem_used ≡ t.mem_used
    → IsValid pool s
    → IsValid pool t
IsValid-same pool ef eu v = record {
  used = rw (← eu) v.used;
  plain = rw (← ef) v.plain;
  empty = rw (← ef) v.empty;
  buffer = rw (← ef, ← eu) v.buffer;
  apart = rw (← ef) v.apart;
}
