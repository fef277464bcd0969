-- ===== src/CString/Str.antt =====
-- The str functions of kernel/src/lib/string.c that compare, measure, search and copy, over a memory of
-- bytes. A loop that only a NUL ends takes fuel, and `none` says that no NUL came in time.
pub mod Held
pub mod Copies
mod Tests
use ppo_os.Common.{
  ℕ, zero, suc, ◌+◌, ◌%◌, Bool, true, false, not, ◌&&◌, Option, none, some, ltb, ◌==◌,
  if◌then◌else◌, option_case,
}
use ppo_os.Common.Int.{ℤ, pos, sub_ℕ}
use ppo_os.CString.{Memory, write}

-- The loop of `strlen` at `len`.
unfoldable pub strlen_from : ℕ → Memory → ℕ → ℕ → Option ℕ
strlen_from zero m s len = none
strlen_from (suc fuel) m s len =
    let rest = strlen_from fuel m s (len + 1) in if m (s + len) == 0 then some len else rest

unfoldable pub strlen : ℕ → Memory → ℕ → Option ℕ
strlen fuel m s = strlen_from fuel m s 0

unfoldable pub strnlen_from : Memory → ℕ → ℕ → ℕ → ℕ
strnlen_from m s len zero = len
strnlen_from m s len (suc left) =
    let rest = strnlen_from m s (len + 1) left in if m (s + len) == 0 then len else rest

unfoldable pub strnlen : Memory → ℕ → ℕ → ℕ
strnlen m s maxlen = strnlen_from m s 0 maxlen

unfoldable pub strcmp : ℕ → Memory → ℕ → ℕ → Option ℤ
strcmp zero m s1 s2 = none
strcmp (suc fuel) m s1 s2 =
    let rest = strcmp fuel m (s1 + 1) (s2 + 1) in
    if not (m s1 == 0) && not (m s2 == 0) && (m s1 == m s2)
    then rest
    else some (sub_ℕ (m s1) (m s2))

unfoldable pub strncmp : Memory → ℕ → ℕ → ℕ → ℤ
strncmp m s1 s2 zero = pos 0
strncmp m s1 s2 (suc n) =
    let rest = strncmp m (s1 + 1) (s2 + 1) n in
    if not (m s1 == 0) && (m s1 == m s2) then rest else sub_ℕ (m s1) (m s2)

-- `while (*src) *p++ = *src++; *p = '\0';`, the end of both strcpy and strcat.
unfoldable pub copy_string : ℕ → Memory → ℕ → ℕ → Option Memory
copy_string zero m p src = none
copy_string (suc fuel) m p src =
    let rest = copy_string fuel (write m p (m src)) (p + 1) (src + 1) in
    if m src == 0 then some (write m p 0) else rest

unfoldable pub strcpy : ℕ → Memory → ℕ → ℕ → Option Memory
strcpy fuel m dest src = copy_string fuel m dest src

unfoldable pub strcat : ℕ → Memory → ℕ → ℕ → Option Memory
strcat fuel m dest src =
    option_case (strlen fuel m dest) none (λ len. copy_string fuel m (dest + len) src)

-- The loop of `strncat` with `left` bytes to go.
unfoldable pub copy_some : Memory → ℕ → ℕ → ℕ → Memory
copy_some m p src zero = write m p 0
copy_some m p src (suc left) =
    let rest = copy_some (write m p (m src)) (p + 1) (src + 1) left in
    if m src == 0 then write m p 0 else rest

unfoldable pub strncat : ℕ → Memory → ℕ → ℕ → ℕ → Option Memory
strncat fuel m dest src n =
    option_case (strlen fuel m dest) none (λ len. some (copy_some m (dest + len) src n))

-- The loop of `strncpy` that pads.
unfoldable pub pad_nul : Memory → ℕ → ℕ → Memory
pad_nul m p zero = m
pad_nul m p (suc left) = pad_nul (write m p 0) (p + 1) left

unfoldable pub strncpy : Memory → ℕ → ℕ → ℕ → Memory
strncpy m dest src zero = m
strncpy m dest src (suc left) =
    let rest = strncpy (write m dest (m src)) (dest + 1) (src + 1) left in
    if m src == 0 then pad_nul m dest (suc left) else rest

-- `some none` is NULL.
unfoldable pub strchr : ℕ → Memory → ℕ → ℕ → Option (Option ℕ)
strchr zero m s c = none
strchr (suc fuel) m s c =
    let rest = strchr fuel m (s + 1) c in
    if m s == c % 256 then some (some s) else if m s == 0 then some none else rest

-- The loop of `strrchr`, with `last` found so far: it ends at the NUL.
unfoldable pub strrchr_from : ℕ → Memory → ℕ → ℕ → Option ℕ → Option (Option ℕ)
strrchr_from zero m s c last = none
strrchr_from (suc fuel) m s c last =
    let rest = strrchr_from fuel m (s + 1) c (if m s == c % 256 then some s else last) in
    if m s == 0 then some (if c == 0 then some s else last) else rest

unfoldable pub strrchr : ℕ → Memory → ℕ → ℕ → Option (Option ℕ)
strrchr fuel m s c = strrchr_from fuel m s c none

-- Whether the string at `p` has the byte `c`: the inner loop of `strspn` and `strpbrk`.
unfoldable pub has_byte : ℕ → Memory → ℕ → ℕ → Option Bool
has_byte zero m c p = none
has_byte (suc fuel) m c p =
    let rest = has_byte fuel m c (p + 1) in
    if m p == 0 then some false else if c == m p then some true else rest

unfoldable pub strspn_from : ℕ → Memory → ℕ → ℕ → ℕ → Option ℕ
strspn_from zero m s accept count = none
strspn_from (suc fuel) m s accept count =
    let rest = strspn_from fuel m (s + 1) accept (count + 1) in
    if m s == 0
    then some count
    else option_case (has_byte (suc fuel) m (m s) accept) none
        (λ found. if found then rest else some count)

unfoldable pub strspn : ℕ → Memory → ℕ → ℕ → Option ℕ
strspn fuel m s accept = strspn_from fuel m s accept 0

unfoldable pub strpbrk : ℕ → Memory → ℕ → ℕ → Option (Option ℕ)
strpbrk zero m s accept = none
strpbrk (suc fuel) m s accept =
    let rest = strpbrk fuel m (s + 1) accept in
    if m s == 0
    then some none
    else option_case (has_byte (suc fuel) m (m s) accept) none
        (λ found. if found then some (some s) else rest)
