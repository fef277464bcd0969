-- ===== src/Libc/Output.antt =====
-- What the terminal is given by `puts` and `printf`.
use ppo_os.Common.{
  ℕ, zero, suc, ◌+◌, ◌≤◌, ◌<◌, ◌≡◌, ◌≢◌, refl, ap, List, [], ◌∷◌, ◌++◌, true, min, some, arith,
  ne→==, length, append_assoc,
}
use ppo_os.Common.Int.{pos}
use ppo_os.CString.{Memory}
use ppo_os.CString.Str.Held.{Held, strlen-Held}
use ppo_os.Fs.{Driver, read_bytes}
use ppo_os.Syscall.{Kernel, validate_user_memory, copy_from_user, sys_write}
use ppo_os.Syscall.Fork.{syscall}
use ppo_os.Libc.{user_write, puts}

read_bytes-Held : (m : Memory) (p : ℕ) (cs : List ℕ) → Held m p cs → read_bytes m p (length cs) ≡ cs
read_bytes-Held m p [] h = refl
read_bytes-Held m p (c ∷ cs) (here, some_byte, h) = rw (here, read_bytes-Held m (p + 1) cs h) refl

length-read_bytes : (m : Memory) (p n : ℕ) → length (read_bytes m p n) ≡ n
length-read_bytes m p zero = refl
length-read_bytes m p (suc n) = ap suc (length-read_bytes m (p + 1) n)

module _ {S : Type 0} (hhdm : ℕ) (driver : Driver S) where
  -- A write of 1 to 4096 bytes that the kernel accepts.
  user_write-output :
      (s : Kernel S) (buf count : ℕ)
      → s.has_terminal ≡ true
      → count ≢ 0
      → count ≤ 4096
      → validate_user_memory buf count ≡ true
      → user_write hhdm driver s 1 buf count
        ≡ some (record s { output = s.output ++ read_bytes s.user buf count }, pos count)
  unfolding user_write syscall sys_write copy_from_user
  user_write-output s buf count terminal some_byte short valid =
      let whole : min count 4096 ≡ count = omega arith in
      rw (ne→== count 0 some_byte, whole, valid, terminal, length-read_bytes s.user buf count) refl

  -- With a terminal, for a C string of 1 to 4096 bytes and a line feed which the kernel accepts as
  -- user memory, `puts` through the system call gives the terminal the string and the line feed,
  -- changes nothing else and returns the number of these bytes.
  pub puts-output :
      (fuel newline p : ℕ) (cs : List ℕ) (s : Kernel S)
      → s.has_terminal ≡ true
      → Held s.user p cs
      → length cs < fuel
      → 0 < length cs
      → length cs ≤ 4096
      → validate_user_memory p (length cs) ≡ true
      → validate_user_memory newline 1 ≡ true
      → s.user newline ≡ 10
      → puts hhdm driver fuel newline p s
        ≡ some (record s { output = s.output ++ (cs ++ 10 ∷ []) }, pos (length cs + 1))
  unfolding puts
  puts-output fuel newline p cs s terminal h enough some_char short valid valid_nl nl =
      let text = read_bytes-Held s.user p cs h in
      let said = record s { output = s.output ++ read_bytes s.user p (length cs) } in
      rw
        (
          strlen-Held fuel s.user p cs enough h,
          user_write-output s p (length cs) terminal (omega arith) short valid,
          user_write-output said newline 1 terminal (omega arith) (omega arith) valid_nl,
          text,
          nl,
        )
        (ap (λ o. some (record s { output = o }, pos (length cs + 1)))
          (append_assoc s.output cs (10 ∷ [])))
