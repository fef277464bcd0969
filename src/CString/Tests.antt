-- ===== src/CString/Tests.antt =====
-- Runs on a memory in which every byte is its own address.
use ppo_os.Common.{ℕ, List, ◌≡◌, refl, inl, arith}
use ppo_os.CString.Print.{uitoa}
use ppo_os.CString.Print.Spells.{Spells}
use ppo_os.CString.Print.Uitoa.{uitoa-Spells}
use ppo_os.CString.Str.Held.{Held}
use ppo_os.CString.{Memory, memcpy, memmove, copy_down, copy_byte, memcmp}
use ppo_os.CString.Memmove.{memmove-moved, memcpy-moved, Compared, memcmp-Compared}

abbrev counting : Memory
counting a = a

memmove-moved_example : memmove counting 102 100 4 105 ≡ 103
memmove-moved_example = memmove-moved counting 102 100 4 105

memmove_run : memmove counting 102 100 4 104 ≡ 102
unfolding memmove copy_down copy_byte
memmove_run = refl

memcpy_four : memcpy counting 10 20 4 12 ≡ 22
memcpy_four = memcpy-moved counting 10 20 4 (inl (omega arith)) 12

memcmp_four : Compared counting 10 20 0 4 (memcmp counting 10 20 4)
memcmp_four = memcmp-Compared counting 10 20 4

uitoa-Spells_example : (cs : List ℕ) × Held (uitoa counting 255 100 16) 100 cs × Spells 16 255 cs
uitoa-Spells_example =
    uitoa-Spells counting 255 100 16 (omega arith) (omega arith) (omega arith) (omega arith)
