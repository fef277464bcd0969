-- ===== src/CString/Token.antt =====
-- strtok_r and strtok of kernel/src/lib/string.c. The static variable of strtok is passed and returned.
use ppo_os.Common.{ℕ, ◌+◌, Option, none, some, ◌==◌, if◌then◌else◌, option_case}
use ppo_os.CString.{Memory, write}
use ppo_os.CString.Str.{strlen, strspn, strpbrk}

pub record Token : Type 0 where
  pub memory : Memory
  pub token : Option ℕ
  pub saveptr : ℕ

-- `strtok_r` where `str`, past the delimiters, is not at the NUL.
unfoldable pub cut_token : ℕ → Memory → ℕ → ℕ → Option Token
cut_token fuel m token delim = option_case (strpbrk fuel m token delim) none (λ found.
    option_case found
      (option_case (strlen fuel m token) none
        (λ len. some (record { memory = m; token = some token; saveptr = token + len })))
      (λ str. some (record { memory = write m str 0; token = some token; saveptr = str + 1 })))

unfoldable pub strtok_r : ℕ → Memory → Option ℕ → ℕ → ℕ → Option Token
strtok_r fuel m str delim saveptr =
    let start = option_case str saveptr (λ s. s) in
    option_case (strspn fuel m start delim) none (λ skipped.
      let token = start + skipped in
      if m token == 0
      then some (record { memory = m; token = none; saveptr = token })
      else cut_token fuel m token delim)

unfoldable pub strtok : ℕ → Memory → Option ℕ → ℕ → ℕ → Option Token
strtok fuel m str delim saveptr = strtok_r fuel m str delim saveptr
