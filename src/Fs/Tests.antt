-- ===== src/Fs/Tests.antt =====
-- Runs of the file system on two small files.
use ppo_os.Common.{
  ℕ, ◌+◌, ◌*◌, ◌<◌, ◌≡◌, ◌≢◌, refl, ◌⊎◌, inl, false, none, some, List, [], ◌∷◌, arith, get_elem?,
}
use ppo_os.Fs.{
  Fs, File, entry, initramfs, Driver, no_file, fs_alloc, fs_open, fs_read, fs_write, fs_create_file,
  find_file, name_matches, strip_dot_slash, pool_size,
}
use ppo_os.Fs.Dirs.{Source, fs_init}
use ppo_os.Fs.Valid.{file_at, IsValid}
use ppo_os.Fs.Write.{byte, Stored, fs_write_cases}
use ppo_os.Fs.Read.{get_elem?-fs_read, fs_read-write}
use ppo_os.Fs.Create.{Created, fs_create_file-Created, open-create, created, append-IsValid}
use ppo_os.Fs.Import.{IsSound, fs_init-IsSound}
use ppo_os.Fs.Spill.{fs_write-spill}

-- A driver that finds nothing.
abbrev no_ext2 : Driver ℕ
no_ext2 = record {
  ext2_detect = λ m p n. false;
  ext2_init = λ d m p n. (d, false);
  ext2_open = λ d m name. none;
  ext2_read = λ d m f offset len. [];
  ext2_list = λ d m path. [];
  ext2_change_dir = λ d m path. (d, false);
}

abbrev file_a : File
file_a = record {
  name = 97 ∷ [];
  content = 1000;
  size = 0;
  capacity = 256;
  mode = 0;
  is_dir = false;
  fs_type = initramfs;
}

abbrev file_b : File
file_b = record {
  name = 98 ∷ [];
  content = 1256;
  size = 1;
  capacity = 256;
  mode = 0;
  is_dir = false;
  fs_type = initramfs;
}

-- Two neighbours in a pool at address 1000.
abbrev two_files : Fs ℕ
two_files = record {
  files = file_a ∷ file_b ∷ [];
  dirs = [];
  current_dir = 47 ∷ [];
  active_fs = initramfs;
  mem = λ a. 7;
  mem_used = 512;
  ext2_file = no_file;
  driver_state = 0;
}

abbrev no_files : Fs ℕ
no_files = record two_files { files = []; mem_used = 0 }

no_files-IsValid : IsValid 1000 no_files
no_files-IsValid = record {
  used = omega arith;
  plain = λ i. refl;
  empty = λ i z. refl;
  buffer = λ i o. absurd (o refl);
  apart = λ i j ne oi oj. absurd (oi refl);
}

one_file-IsValid : IsValid 1000 (record two_files { files = file_a ∷ []; mem_used = 256 })
one_file-IsValid =
    append-IsValid 1000 file_a (λ a. 7) no_files-IsValid
      (record {
        plain = refl;
        place = inl refl;
        empty = λ z. refl;
        fits = omega arith;
        room = omega arith;
      })

two_files-IsValid : IsValid 1000 two_files
two_files-IsValid =
    append-IsValid 1000 file_b (λ a. 7) one_file-IsValid
      (record {
        plain = refl;
        place = inl refl;
        empty = λ z. absurd (omega arith);
        fits = omega arith;
        room = omega arith;
      })

abbrev bytes : List ℕ
bytes = 1 ∷ 2 ∷ 3 ∷ []

a_opened : (file_at two_files 0).content ≢ 0
a_opened = omega arith

fs_write_cases_example :
    Stored 1000 two_files-IsValid 0 5 bytes a_opened
      (omega arith)
      (fs_write 1000 two_files (entry 0) 5 bytes)
    ⊎ ((fs_write 1000 two_files (entry 0) 5 bytes ≡ (two_files, 0))
        × (pool_size < 512 + (5 + 3) * 2))
fs_write_cases_example = fs_write_cases 1000 two_files-IsValid 0 5 bytes a_opened (omega arith)

fs_read-write_example :
    fs_read no_ext2 (fs_write 1000 two_files (entry 0) 300 bytes).0 (entry 0) 300 3 ≡ bytes
fs_read-write_example =
    fs_read-write no_ext2 1000 0 300 bytes two_files-IsValid a_opened (omega arith) (omega arith)

get_elem?-fs_read_example : get_elem? (fs_read no_ext2 two_files (entry 1) 0 4) 0 ≡ some 7
get_elem?-fs_read_example = get_elem?-fs_read no_ext2 1000 1 0 4 0 two_files-IsValid

fs_write-spill_example : byte (fs_write 1000 two_files (entry 0) 255 (9 ∷ [])).0 1 0 ≡ some 0
fs_write-spill_example =
    fs_write-spill 1000 0 1 255 (9 ∷ []) two_files-IsValid a_opened (omega arith) refl (omega arith)
      refl (omega arith)

fs_create_file-Created_example :
    Created no_ext2 1000 two_files-IsValid
      (omega arith)
      refl
      99
      []
      (fs_create_file no_ext2 1000 two_files (99 ∷ []))
fs_create_file-Created_example =
    fs_create_file-Created no_ext2 1000 two_files-IsValid (omega arith) refl 99 []

create_run :
    fs_create_file no_ext2 1000 two_files (99 ∷ [])
    ≡ (created 1000 two_files (99 ∷ []), some (entry 2))
unfolding fs_create_file fs_open fs_alloc find_file name_matches strip_dot_slash
create_run = refl

open_created :
    fs_open no_ext2 (created 1000 two_files (99 ∷ [])) (99 ∷ [])
    ≡ (created 1000 two_files (99 ∷ []), some (entry 2))
open_created =
    open-create no_ext2 1000 two_files-IsValid (omega arith) refl 99 [] (omega arith) create_run

abbrev sources : List Source
sources = record { name = 97 ∷ 47 ∷ []; bytes = [] } ∷ record { name = 98 ∷ []; bytes = bytes } ∷ []

fs_init-IsSound_example : IsSound 1000 (fs_init no_ext2 1000 no_files sources)
fs_init-IsSound_example =
    fs_init-IsSound no_ext2 1000 no_files sources (omega arith) (omega arith)
      (omega arith, (omega arith, tt))
