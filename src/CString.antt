-- ===== src/CString.antt =====
-- memcpy, memset, memmove and memcmp of kernel/src/lib/string.c, loop by loop over a memory of bytes.
-- Regions do not wrap around the end of the address space.
pub mod Memmove
pub mod Str
pub mod Token
pub mod Print
mod Tests
use ppo_os.Common.{ℕ, zero, suc, ◌+◌, ◌%◌, Bool, true, false, ltb, ◌==◌, if◌then◌else◌}
use ppo_os.Common.Int.{ℤ, pos, negsuc}
use ppo_os.Common.Loops.{for_range}

abbrev pub Memory : Type 0
Memory = ℕ → ℕ

abbrev pub write : Memory → ℕ → ℕ → Memory
write m p v a = if a == p then v else m a

-- `pdest[i] = psrc[i]`
unfoldable pub copy_byte : ℕ → ℕ → ℕ → Memory → Memory
copy_byte dest src i m = write m (dest + i) (m (src + i))

unfoldable pub memcpy : Memory → ℕ → ℕ → ℕ → Memory
memcpy m dest src n = for_range n 0 (copy_byte dest src) m

unfoldable pub memset : Memory → ℕ → ℕ → ℕ → Memory
memset m s c n = for_range n 0 (λ i m. write m (s + i) (c % 256)) m

-- The loop of `memmove` that counts down.
unfoldable pub copy_down : ℕ → ℕ → ℕ → Memory → Memory
copy_down dest src zero m = m
copy_down dest src (suc i) m = copy_down dest src i (copy_byte dest src i m)

unfoldable pub memmove : Memory → ℕ → ℕ → ℕ → Memory
memmove m dest src n =
    if ltb dest src
    then for_range n 0 (copy_byte dest src) m
    else if ltb src dest
    then copy_down dest src n m
    else m

-- The loop of `memcmp` from byte `i` on.
unfoldable pub compare_from : Memory → ℕ → ℕ → ℕ → ℕ → ℤ
compare_from m s1 s2 i zero = pos 0
compare_from m s1 s2 i (suc n) =
    let rest = compare_from m s1 s2 (i + 1) n in
    if m (s1 + i) == m (s2 + i)
    then rest
    else if ltb (m (s1 + i)) (m (s2 + i))
    then negsuc 0
    else pos 1

unfoldable pub memcmp : Memory → ℕ → ℕ → ℕ → ℤ
memcmp m s1 s2 n = compare_from m s1 s2 0 n
