-- ===== src/Shell.antt =====
-- kernel/src/src/shell.c: the shell's variables and arguments. A C string is the list of its bytes
-- before the NUL. What the shell prints is left out.
pub mod Env
pub mod Update
pub mod Line
pub mod Words
pub mod Run
pub mod Export
mod Tests
use ppo_os.Common.{
  ℕ, zero, suc, ◌+◌, ◌-◌, ◌*◌, ◌%◌, ◌^◌, bit_or, Bool, true, false, not, ◌&&◌, ◌||◌, Option, none,
  some, List, [], ◌∷◌, ◌++◌, ltb, leb, ◌==◌, if◌then◌else◌, option_case, length, take, drop,
  bytes_eq,
}

-- SHELL_BUFSZ, SHELL_MAX_ARGS, SHELL_MAX_ARG_LEN
abbrev pub shell_bufsz : ℕ
shell_bufsz = 256

abbrev pub shell_max_args : ℕ
shell_max_args = 8

abbrev pub shell_max_arg_len : ℕ
shell_max_arg_len = 64

-- The loop of `parse_octal` at `v`: `v = (v << 3) | (*s - '0')` on 16 bits.
unfoldable pub octal_from : ℕ → List ℕ → ℕ
octal_from v [] = v
octal_from v (c ∷ cs) =
    let rest = octal_from (bit_or (v * 8) (c - 48) % 2 ^ 16) cs in
    if leb 48 c && leb c 55 then rest else v

unfoldable pub parse_octal : List ℕ → ℕ
parse_octal s = octal_from 0 s

-- What `parse_redirection` finds: the arguments that are left, the file, and `append_mode`.
pub record Redirection : Type 0 where
  pub args : List (List ℕ)
  pub outfile : List ℕ
  pub append_mode : Bool

-- The loop for the arguments from the one at the front on; the operator needs a file behind it.
unfoldable pub parse_redirection : List (List ℕ) → Option Redirection
parse_redirection [] = none
parse_redirection (a ∷ []) = none
parse_redirection (a ∷ (b ∷ rest)) =
    let later = parse_redirection (b ∷ rest) in
    if bytes_eq a (62 ∷ [])
    then some (record { args = rest; outfile = b; append_mode = false })
    else if bytes_eq a (62 ∷ 62 ∷ [])
    then some (record { args = rest; outfile = b; append_mode = true })
    else option_case later none (λ r. some (record r { args = a ∷ r.args }))
