-- ===== src/Initramfs/Tests.antt =====
-- An archive with the file "a", which holds three bytes, at address 4096.
use ppo_os.Common.{
  ℕ, zero, suc, ◌+◌, ◌*◌, ◌-◌, ◌≤◌, ◌≡◌, refl, some, List, [], ◌∷◌, ◌++◌, arith, length, get_or,
  leb, if◌then◌else◌,
}
use ppo_os.CString.{Memory}
use ppo_os.Initramfs.{
  InitramfsFile, Ramfs, initramfs_init, initramfs_find, cpio_newc_magic, trailer,
}
use ppo_os.Initramfs.Layout.{Laid, initramfs_init-Laid}
use ppo_os.Initramfs.Archive.{
  Archive, closed, file, Spelled, nothing, digit, HexDigit, decimal, upper, initramfs_init-Archive,
}
use ppo_os.Initramfs.Find.{nobody, named, initramfs_find-first}

abbrev zeros : ℕ → List ℕ
zeros zero = []
zeros (suc n) = 48 ∷ zeros n

-- A header for one-digit sizes of the data and of the name.
abbrev header : ℕ → ℕ → List ℕ
header size namesize = cpio_newc_magic ++ (zeros 55 ++ (size ∷ (zeros 39 ++ (namesize ∷ zeros 8))))

abbrev archive : List ℕ
archive =
    header 51 50 ++ (97 ∷ 0 ∷ 7 ∷ 8 ∷ 9 ∷ 0 ∷ (header 48 66 ++ (trailer ++ (0 ∷ 0 ∷ 0 ∷ 0 ∷ []))))

abbrev memory : Memory
memory a = if leb 4096 a then get_or archive (a - 4096) 0 else 0

abbrev file_a : InitramfsFile
file_a = record { name = 4206; data_start = 4208; size = 3 }

-- Seven zeros and one digit.
digits-Spelled :
    (a : ℕ) {d : ℕ}
    → memory (a + 0) ≡ 48
    → memory (a + 1) ≡ 48
    → memory (a + 2) ≡ 48
    → memory (a + 3) ≡ 48
    → memory (a + 4) ≡ 48
    → memory (a + 5) ≡ 48
    → memory (a + 6) ≡ 48
    → HexDigit (memory (a + 7)) d
    → Spelled memory a 8 (0 * 16 + d)
digits-Spelled a e0 e1 e2 e3 e4 e5 e6 last =
    digit (null (null (null (null (null (null (null nothing e0) e1) e2) e3) e4) e5) e6) last
  where
    null : {n : ℕ} → Spelled memory a n 0 → memory (a + n) ≡ 48 → Spelled memory a (suc n) 0
    null before e = digit {d = 0} before (rw e (decimal {d = 0} (omega arith)))

file_a-Archive : Archive memory (4096 + 244) 4096 (file_a ∷ [])
file_a-Archive =
    file (omega arith) refl
      (digits-Spelled 4190 refl refl refl refl refl refl refl (decimal {d = 2} (omega arith)))
      (digits-Spelled 4150 refl refl refl refl refl refl refl (decimal {d = 3} (omega arith))) refl
      (closed (omega arith) refl
        (digits-Spelled 4306 refl refl refl refl refl refl refl (upper {d = 1} (omega arith)))
        (omega arith) refl)

initramfs_init-Archive_example : (initramfs_init memory 4096 244).files ≡ file_a ∷ []
initramfs_init-Archive_example =
    initramfs_init-Archive memory 4340 (omega arith) 4096 244 (file_a ∷ []) refl file_a-Archive

initramfs_init-Laid_example :
    Laid memory 4096 (4096 + 244) (initramfs_init memory 4096 244).files
    × (length (initramfs_init memory 4096 244).files ≤ 16)
initramfs_init-Laid_example = initramfs_init-Laid memory 4096 244 (omega arith)

abbrev mounted : Ramfs
mounted = record { ramfs_base = 4096; ramfs_len = 244; files = file_a ∷ [] }

find_second : initramfs_find 8 memory mounted 4206 ≡ some (some file_a)
find_second =
    initramfs_find-first 8 memory 4206 (97 ∷ []) (refl, omega arith, refl) mounted ((97 ∷ []) ∷ [])
      (named (refl, omega arith, refl) (omega arith) nobody)
