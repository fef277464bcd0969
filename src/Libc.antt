-- ===== src/Libc.antt =====
-- programs/limine_libc.c, the library of the programs, over the system calls of the kernel. The
-- program's memory is `user` of the kernel's state. `none` says that a string does not end in `fuel`
-- bytes, that the buffer of `printf` overflows, that an integer overflows, or that the system call does
-- not return. Its `strlen` has the loop of the kernel's. The stub that enters the kernel is assembly.
pub mod Format
pub mod Output
mod Tests
use ppo_os.Common.{
  ℕ, zero, suc, ◌+◌, ◌-◌, ◌/◌, ◌%◌, ◌^◌, Bool, true, false, not, ◌&&◌, List, [], ◌∷◌, ◌++◌, Option,
  none, some, leb, ltb, ◌==◌, if◌then◌else◌, option_case, length,
}
use ppo_os.Common.Int.{ℤ, pos, negsuc, sub_ℕ}
use ppo_os.Common.Loops.{for_range}
use ppo_os.Common.Numbers.{le32, le64}
use ppo_os.CString.{Memory, write}
use ppo_os.CString.Str.{strlen}
use ppo_os.Elf.Numbers.{to_int32}
use ppo_os.Fs.{Driver, write_bytes}
use ppo_os.Syscall.{Kernel}
use ppo_os.Syscall.Fork.{syscall}

-- `strcmp`, which tests only the first string for its end.
unfoldable pub user_strcmp : ℕ → Memory → ℕ → ℕ → Option ℤ
user_strcmp zero m s1 s2 = none
user_strcmp (suc fuel) m s1 s2 =
    let rest = user_strcmp fuel m (s1 + 1) (s2 + 1) in
    if not (m s1 == 0) && (m s1 == m s2) then rest else some (sub_ℕ (m s1) (m s2))

-- `while ((*d++ = *src++));`
unfoldable pub user_strcpy : ℕ → Memory → ℕ → ℕ → Option Memory
user_strcpy zero m dest src = none
user_strcpy (suc fuel) m dest src =
    let copied = write m dest (m src) in
    let rest = user_strcpy fuel copied (dest + 1) (src + 1) in
    if m src == 0 then some copied else rest

-- `while (n--) *d++ = *s++;`
unfoldable pub user_memcpy : Memory → ℕ → ℕ → ℕ → Memory
user_memcpy m dest src zero = m
user_memcpy m dest src (suc n) = user_memcpy (write m dest (m src)) (dest + 1) (src + 1) n

unfoldable pub user_memset : Memory → ℕ → ℕ → ℕ → Memory
user_memset m s c zero = m
user_memset m s c (suc n) = user_memset (write m s (c % 256)) (s + 1) c n

-- `buffer[pos++] = c`, where the buffer has 1024 bytes.
unfoldable pub put_char : List ℕ → ℕ → Option (List ℕ)
put_char out c = if ltb (length out) 1024 then some (out ++ c ∷ []) else none

unfoldable pub put_chars_all : List ℕ → List ℕ → Option (List ℕ)
put_chars_all out [] = some out
put_chars_all out (c ∷ cs) = option_case (put_char out c) none (λ longer. put_chars_all longer cs)

-- `while (*str) buffer[pos++] = *str++;`
unfoldable pub put_string : ℕ → Memory → ℕ → List ℕ → Option (List ℕ)
put_string zero m str out = none
put_string (suc fuel) m str out =
    if m str == 0
    then some out
    else option_case (put_char out (m str)) none (put_string fuel m (str + 1))

-- The digits of a positive number in their order, in front of others.
unfoldable pub number_digits : ℕ → ℕ → List ℕ → List ℕ
number_digits zero temp cs = cs
number_digits (suc rounds) temp cs =
    let rest = number_digits rounds (temp / 10) ((48 + temp % 10) ∷ cs) in
    if temp == 0 then cs else rest

-- What `%d` appends.
unfoldable pub number_text : ℤ → Option (List ℕ)
number_text (pos n) = some (if n == 0 then 48 ∷ [] else number_digits 20 n [])
number_text (negsuc k) = if suc k == 2 ^ 31 then none else some (45 ∷ number_digits 20 (suc k) [])

-- The arguments as `printf` looks for them: at fixed places behind `format`, which stands at `args`. The
-- same argument is taken for each conversion.
unfoldable pub convert : ℕ → Memory → ℕ → ℕ → List ℕ → Option (List ℕ)
convert fuel m args c out =
    if c == 100
    then option_case (number_text (to_int32 (le32 m (args + 12)))) none (put_chars_all out)
    else if c == 115
    then put_string fuel m (le64 m (args + 8)) out
    else if c == 99
    then put_char out (m (args + 12))
    else if c == 37
    then put_char out 37
    else put_chars_all out (37 ∷ (c ∷ []))

-- The loop over the format from `f` on: the bytes of the buffer.
unfoldable pub format_from : ℕ → Memory → ℕ → ℕ → List ℕ → Option (List ℕ)
format_from zero m args f out = none
format_from (suc fuel) m args f out =
    let conversion = (m f == 37) && not (m (f + 1) == 0) in
    let added =
      if conversion then convert (suc fuel) m args (m (f + 1)) out else put_char out (m f) in
    if m f == 0
    then some out
    else option_case added none λ longer.
      if leb 1023 (length longer)
      then some longer
      else format_from fuel m args (if conversion then f + 2 else f + 1) longer

module _ {S : Type 0} (hhdm : ℕ) (driver : Driver S) where
  unfoldable pub user_write : Kernel S → ℕ → ℕ → ℕ → Option (Kernel S × ℤ)
  user_write s fd buf count = syscall hhdm driver s (pos 1) fd buf count

  unfoldable pub user_read : Kernel S → ℕ → ℕ → ℕ → Option (Kernel S × ℤ)
  user_read s fd buf count = syscall hhdm driver s (pos 2) fd buf count

  unfoldable pub user_open : Kernel S → ℕ → ℕ → Option (Kernel S × ℤ)
  user_open s pathname flags = syscall hhdm driver s (pos 3) pathname flags 0

  unfoldable pub user_close : Kernel S → ℕ → Option (Kernel S × ℤ)
  user_close s fd = syscall hhdm driver s (pos 4) fd 0 0

  unfoldable pub user_readdir : Kernel S → ℕ → ℕ → Option (Kernel S × ℤ)
  user_readdir s index dirp = syscall hhdm driver s (pos 5) index dirp 264

  unfoldable pub user_fork : Kernel S → Option (Kernel S × ℤ)
  user_fork s = syscall hhdm driver s (pos 6) 0 0 0

  -- The first call of `exit`; the loop behind it is entered only if the kernel goes on with the program.
  unfoldable pub user_exit : Kernel S → ℕ → Option (Kernel S × ℤ)
  user_exit s status = syscall hhdm driver s (pos 0) status 0 0

  -- `buffer` is on the stack; the byte behind the text has to lie in it too.
  unfoldable pub printf : ℕ → ℕ → ℕ → ℕ → Kernel S → Option (Kernel S × ℤ)
  printf fuel buffer args format s =
      option_case (format_from fuel s.user args format []) none λ out.
        if ltb (length out) 1024
        then user_write (record s { user = write_bytes s.user buffer (out ++ 0 ∷ []) }) 1 buffer
            (length out)
        else none

  -- A line feed stands at `newline`.
  unfoldable pub puts : ℕ → ℕ → ℕ → Kernel S → Option (Kernel S × ℤ)
  puts fuel newline p s = option_case (strlen fuel s.user p) none λ len.
      option_case (user_write s 1 p len) none λ (s1, res). elim res [
        | pos n ↦ option_case (user_write s1 1 newline 1) none (λ (s2, r). some (s2, pos (n + 1)))
        | negsuc n ↦ some (s1, negsuc n)
      ]
