-- ===== src/Fs/Import.antt =====
-- `fs_init` and `fs_create_dir` keep the file system valid and its tables within their bounds,
-- whatever the initial RAM file system holds.
use ppo_os.Common.{
  ℕ, ◌+◌, ◌%◌, ◌^◌, ◌≤◌, ◌<◌, ◌≡◌, refl, inl, inr, true, false, ◌&&◌, List, [], ◌∷◌, ◌++◌, arith,
  ltb, leb, length, take, Bool-cases, Option-cases, ltb→le, length-append,
}
use ppo_os.Fs.{
  Fs, File, initramfs, is_ext2, Driver, pool_size, fs_alloc, fs_max_files, fs_max_dirs,
  last_is_slash,
}
use ppo_os.Fs.Dirs.{
  Source, child_path, fs_create_dir, import_file, import_files, fs_mount_ext2, mount_image, fs_init,
  is_image, has_dir, slash,
}
use ppo_os.Fs.Valid.{IsValid, IsValid-same}
use ppo_os.Fs.Create.{append-IsValid}

-- The buffers are valid and no table has more entries than its array.
pub record IsSound {S : Type 0} (pool : ℕ) (s : Fs S) : Type 0 where
  pub valid : IsValid pool s
  pub files : length s.files ≤ fs_max_files
  pub dirs : length s.dirs ≤ fs_max_dirs

abbrev dir_entry : List ℕ → File
dir_entry name = record {
  name = take 31 name;
  content = 0;
  size = 0;
  capacity = 0;
  mode = 0;
  is_dir = true;
  fs_type = initramfs;
}

module _ {S : Type 0} (pool : ℕ) {s : Fs S} (h : IsSound pool s) where
  with_dir : (name : List ℕ) → IsValid pool (record s { files = s.files ++ (dir_entry name ∷ []) })
  with_dir name =
      let none_used : s.mem_used + 0 ≡ s.mem_used = omega arith in
      let room = h.valid.used in
      rw (← none_used) (
        append-IsValid pool (dir_entry name) s.mem h.valid (record {
          plain = refl;
          place = inr refl;
          empty = λ z. refl;
          fits = omega arith;
          room = omega arith;
        }))

  -- `fs_create_dir` keeps the invariant and the bounds of both tables, whatever name it is given.
  pub fs_create_dir-IsSound : (name : List ℕ) → IsSound pool (fs_create_dir s name).0
  unfolding fs_create_dir
  fs_create_dir-IsSound name = elim (Bool-cases (is_ext2 s.active_fs)) [
    | inl e ↦ rw e h
    | inr r ↦ rw r (elim (Bool-cases (has_dir name s.dirs)) [
      | inl old ↦ rw old h
      | inr new ↦ rw new (elim (Bool-cases (leb fs_max_dirs (length s.dirs))) [
        | inl full ↦ rw full h
        | inr room ↦ rw room (elim (Option-cases (child_path s.current_dir name)) [
          | inl long ↦ rw long h
          | inr (path, e) ↦ rw e (elim (Bool-cases (ltb (length s.files) fs_max_files)) [
            | inl space ↦ rw space (record {
              valid = IsValid-same pool refl refl (with_dir name);
              files = ground (arith, length-append s.files (dir_entry name ∷ []));
              dirs =
                  ground (
                    arith,
                    length-append s.dirs (record { name = take 31 name; path = path } ∷ []),
                  );
            })
            | inr no_space ↦ rw no_space (record {
              valid = IsValid-same pool refl refl h.valid;
              files = h.files;
              dirs =
                  ground (
                    arith,
                    length-append s.dirs (record { name = take 31 name; path = path } ∷ []),
                  );
            })
          ])
        ])
      ])
    ])
  ]

  abbrev imported : Source → File
  imported src = record {
    name = take 31 src.name;
    content = pool + s.mem_used;
    size = length src.bytes;
    capacity = length src.bytes;
    mode = 0o644;
    is_dir = false;
    fs_type = initramfs;
  }

  import_file-IsSound :
      0 < pool
      → (src : Source) → length src.bytes < 2 ^ 62
      → IsSound pool (import_file pool s src).0
  unfolding import_file fs_alloc
  import_file-IsSound some_pool src small =
      let whole : (s.mem_used + length src.bytes) % 2 ^ 64 ≡ s.mem_used + length src.bytes =
        omega (arith, h.valid.used) in
      elim (Bool-cases (leb fs_max_files (length s.files))) [
        | inl full ↦ rw full h
        | inr room ↦ rw room (elim (Bool-cases (last_is_slash src.name)) [
          | inl dir ↦ rw dir (fs_create_dir-IsSound _)
          | inr file ↦
              rw (file, whole)
                (elim (Bool-cases (ltb pool_size (s.mem_used + length src.bytes))) [
                  | inl full ↦ rw full h
                  | inr fits ↦ rw fits (record {
                    valid = append-IsValid pool (imported src) _ h.valid (record {
                      plain = refl;
                      place = inl refl;
                      empty = λ z. absurd (omega arith);
                      fits = omega arith;
                      room = ltb→le _ _ fits;
                    });
                    files = ground (arith, length-append s.files (imported src ∷ []));
                    dirs = h.dirs;
                  })
                ])
        ])
      ]

-- Every source is far smaller than the address space.
abbrev pub AllSmall : List Source → Type 0
AllSmall [] = Unit {0}
AllSmall (src ∷ l) = (length src.bytes < 2 ^ 62) × AllSmall l

import_files-IsSound :
    {S : Type 0} (pool : ℕ) (l : List Source) {s : Fs S}
    → 0 < pool
    → IsSound pool s
    → AllSmall l
    → IsSound pool (import_files pool s l)
unfolding import_files
import_files-IsSound pool [] some_pool h small = h
import_files-IsSound pool (src ∷ l) {s} some_pool h (one, rest) =
    let next = import_file-IsSound pool h some_pool src one in
    elim (Bool-cases (import_file pool s src).1) [
      | inl more ↦ rw more (import_files-IsSound pool l some_pool next rest)
      | inr stop ↦ rw stop next
    ]

module _ {S : Type 0} (driver : Driver S) (pool : ℕ) where
  fs_mount_ext2-IsSound :
      {s : Fs S} (image size : ℕ)
      → IsSound pool s
      → IsSound pool (fs_mount_ext2 driver s image size).0
  unfolding fs_mount_ext2
  fs_mount_ext2-IsSound {s} image size h =
      elim (Bool-cases (driver.ext2_init s.driver_state s.mem image size).1) [
        | inl ok ↦
            rw ok (record {
              valid = IsValid-same pool refl refl h.valid;
              files = h.files;
              dirs = h.dirs;
            })
        | inr refused ↦
            rw refused (record {
              valid = IsValid-same pool refl refl h.valid;
              files = h.files;
              dirs = h.dirs;
            })
      ]

  mount_image-IsSound :
      (l : List File) {s : Fs S} → IsSound pool s → IsSound pool (mount_image driver l s)
  unfolding mount_image
  mount_image-IsSound [] h = h
  mount_image-IsSound (f ∷ l) {s} h =
      let mounted = fs_mount_ext2-IsSound f.content f.size h in
      elim (Bool-cases (is_image f.name && driver.ext2_detect s.mem f.content f.size)) [
        | inr refused ↦ rw refused (mount_image-IsSound l h)
        | inl image ↦ rw image (elim (Bool-cases (fs_mount_ext2 driver s f.content f.size).1) [
          | inl ok ↦ rw ok mounted
          | inr failed ↦ rw failed (mount_image-IsSound l mounted)
        ])
      ]

-- Whatever files (each below 2^62 bytes) the initial RAM file system holds and whatever the ext2
-- driver answers, `fs_init` leaves buffers that lie in the used part of the pool and do not
-- overlap, at most 32 files and at most 8 directories, if the pool has a positive address and is
-- in use up to its size at most.
pub fs_init-IsSound :
    {S : Type 0} (driver : Driver S) (pool : ℕ) (s : Fs S) (sources : List Source)
    → 0 < pool
    → s.mem_used ≤ pool_size
    → AllSmall sources
    → IsSound pool (fs_init driver pool s sources)
unfolding fs_init
fs_init-IsSound driver pool s sources some_pool used small =
    mount_image-IsSound driver pool _ (import_files-IsSound pool sources some_pool empty small)
  where
    empty : IsSound pool (record s {
      files = [];
      dirs = record { name = slash; path = slash } ∷ [];
      current_dir = slash;
      active_fs = initramfs;
    })
    empty = record {
      valid = record {
        used = used;
        plain = λ i. refl;
        empty = λ i z. refl;
        buffer = λ i o. absurd (o refl);
        apart = λ i j ne oi oj. absurd (oi refl);
      };
      files = omega arith;
      dirs = omega arith;
    }
