-- ===== src/Initramfs.antt =====
-- kernel/src/src/initramfs.c: the archive of files that the boot loader leaves in memory, in the newc
-- format of cpio. Addresses are absolute. The pointer tests and the sums on `uintptr_t` are those of
-- the code; the sums on pointers, by 6 to 110 bytes, do not wrap.
pub mod Layout
pub mod Archive
pub mod Find
mod Tests
use ppo_os.Common.{
  ℕ, zero, suc, ◌+◌, ◌-◌, ◌*◌, ◌%◌, ◌^◌, bit_and, bit_or, Bool, true, false, not, ◌&&◌, Option,
  none, some, List, [], ◌∷◌, ◌++◌, ltb, leb, ◌==◌, length, get_elem?, if◌then◌else◌, option_case,
}
use ppo_os.Common.Loops.{for_range}
use ppo_os.CString.{Memory}
use ppo_os.CString.Str.{strcmp}
use ppo_os.Common.Int.{ℤ, pos, negsuc}

pub record InitramfsFile : Type 0 where
  pub name : ℕ
  pub data_start : ℕ
  pub size : ℕ

-- The static variables. `files` holds the first `file_count` entries.
pub record Ramfs : Type 0 where
  pub ramfs_base : ℕ
  pub ramfs_len : ℕ
  pub files : List InitramfsFile

-- "070701"
abbrev pub cpio_newc_magic : List ℕ
cpio_newc_magic = 48 ∷ 55 ∷ 48 ∷ 55 ∷ 48 ∷ 49 ∷ []

-- "TRAILER!!!"
abbrev pub trailer : List ℕ
trailer = 84 ∷ 82 ∷ 65 ∷ 73 ∷ 76 ∷ 69 ∷ 82 ∷ 33 ∷ 33 ∷ 33 ∷ []

-- `memcmp(p, literal, n) == 0` where the literal has `n` bytes.
abbrev pub starts_with : Memory → ℕ → List ℕ → Bool
starts_with m p [] = true
starts_with m p (c ∷ cs) = (m p == c) && starts_with m (p + 1) cs

-- `strcmp(p, literal) == 0`: the loop ends at the first byte that differs or at the NUL.
abbrev pub is_string : Memory → ℕ → List ℕ → Bool
is_string m p [] = m p == 0
is_string m p (c ∷ cs) = (m p == c) && is_string m (p + 1) cs

-- The round of the loop of `hex2u32` for the character `c`.
unfoldable pub add_digit : ℕ → ℕ → ℕ
add_digit c v =
    let shifted = v * 16 % 2 ^ 32 in
    if leb 48 c && leb c 57
    then bit_or shifted (c - 48)
    else if leb 97 c && leb c 102
    then bit_or shifted (c - 97 + 10)
    else if leb 65 c && leb c 70
    then bit_or shifted (c - 65 + 10)
    else shifted

unfoldable pub hex2u32 : Memory → ℕ → ℕ → ℕ
hex2u32 m s n = for_range n 0 (λ i v. add_digit (m (s + i)) v) 0

-- `(x + 3) & ~3` on `uintptr_t`.
unfoldable pub align4 : ℕ → ℕ
align4 x = bit_and ((x + 3) % 2 ^ 64) (2 ^ 64 - 4)

-- The entry at `p` as the header describes it, and where the next header starts.
unfoldable pub entry : Memory → ℕ → InitramfsFile
entry m p =
    let namesize = hex2u32 m (p + 94) 8 in
    let filesize = hex2u32 m (p + 54) 8 in
    record { name = p + 110; data_start = align4 ((p + 110 + namesize) % 2 ^ 64); size = filesize }

unfoldable pub next_header : InitramfsFile → ℕ
next_header f = align4 ((f.data_start + f.size) % 2 ^ 64)

-- The loop of `initramfs_init`. A round that goes on stores a file, so the test `file_count < 16`
-- bounds the rounds.
unfoldable pub read_entries : ℕ → Memory → ℕ → ℕ → List InitramfsFile
read_entries zero m p end = []
read_entries (suc rounds) m p end =
    let f = entry m p in
    let rest = read_entries rounds m (next_header f) end in
    if not (ltb (p + 110) end)
    then []
    else if not (starts_with m p cpio_newc_magic)
    then []
    else if ltb 0 (hex2u32 m (p + 94) 8) && is_string m (p + 110) trailer
    then []
    else if ltb end (next_header f)
    then []
    else f ∷ rest

unfoldable pub initramfs_init : Memory → ℕ → ℕ → Ramfs
initramfs_init m base len = record {
  ramfs_base = base;
  ramfs_len = len;
  files = read_entries 16 m base (base + len);
}

-- `none` if a `strcmp` finds no NUL in time; `some none` is NULL.
unfoldable pub find_name : ℕ → Memory → List InitramfsFile → ℕ → Option (Option InitramfsFile)
find_name fuel m [] name = some none
find_name fuel m (f ∷ fs) name =
    let rest = find_name fuel m fs name in
    option_case (strcmp fuel m f.name name) none
      (λ r. elim r [ pos zero ↦ some (some f) | _ ↦ rest ])

unfoldable pub initramfs_find : ℕ → Memory → Ramfs → ℕ → Option (Option InitramfsFile)
initramfs_find fuel m s name = find_name fuel m s.files name

unfoldable pub initramfs_list : Ramfs → ℕ → Option InitramfsFile
initramfs_list s idx = if ltb idx (length s.files) then get_elem? s.files idx else none
