-- ===== src/Shell/Line.antt =====
-- Reading a line and taking it apart, in `shell_run`.
use ppo_os.Common.{
  ℕ, ◌-◌, Bool, false, not, ◌&&◌, ◌||◌, Option, none, some, List, [], ◌∷◌, ◌++◌, ltb, leb, ◌==◌,
  if◌then◌else◌, option_case, length, take,
}
use ppo_os.Shell.{shell_bufsz, shell_max_args, shell_max_arg_len}
use ppo_os.Shell.Env.{EnvVar, get_env_var}

abbrev pub drop_last : List ℕ → List ℕ
drop_last [] = []
drop_last (c ∷ []) = []
drop_last (c ∷ (d ∷ cs)) = c ∷ drop_last (d ∷ cs)

-- The loop that reads a line, on what `keyboard_read_char` returns call by call; `buffer` is what
-- it holds. `none` if these calls do not end the line.
unfoldable pub read_line : List ℕ → List ℕ → Option (List ℕ)
read_line [] buffer = if ltb (length buffer) (shell_bufsz - 1) then none else some buffer
read_line (c ∷ keys) buffer =
    let again : List ℕ → Option (List ℕ) = λ b. read_line keys b in
    if not (ltb (length buffer) (shell_bufsz - 1))
    then some buffer
    else if c == 0
    then again buffer
    else if (c == 10) || (c == 13)
    then some buffer
    else if (c == 8) || (c == 127)
    then again (drop_last buffer)
    else if leb 32 c && ltb c 127
    then again (buffer ++ (c ∷ []))
    else again buffer

-- The state of the loop that takes a line apart: the finished arguments, and the current one.
pub record Parse : Type 0 where
  pub args : List (List ℕ)
  pub arg : List ℕ
  pub in_quotes : Bool

-- An argument that starts with '$' becomes the value of the variable, cut at 63 bytes, if there is
-- one.
unfoldable pub expand : List EnvVar → List ℕ → List ℕ
expand env [] = []
expand env (c ∷ name) =
    if c == 36
    then option_case (get_env_var env name) (c ∷ name) (λ val. take (shell_max_arg_len - 1) val)
    else c ∷ name

-- One round of the loop, for the character `c`.
unfoldable pub parse_char : List EnvVar → ℕ → Parse → Parse
parse_char env c p =
    if c == 34
    then record p { in_quotes = not p.in_quotes }
    else if ((c == 32) || (c == 9) || (c == 0)) && not p.in_quotes
    then (if ltb 0 (length p.arg) || (c == 0)
        then record p { args = p.args ++ (expand env p.arg ∷ []); arg = [] }
        else p)
    else if ltb (length p.arg) (shell_max_arg_len - 1)
    then record p { arg = p.arg ++ (c ∷ []) }
    else p

-- The loop over the buffer; it ends early with 8 arguments.
unfoldable pub parse_chars : List EnvVar → List ℕ → Parse → Parse
parse_chars env [] p = p
parse_chars env (c ∷ cs) p =
    if ltb (length p.args) shell_max_args then parse_chars env cs (parse_char env c p) else p

-- The arguments of a line, whose last byte here is its NUL. `none` says that `argv[argc] = NULL` is behind
-- the end of `argv`.
unfoldable pub parse_line : List EnvVar → List ℕ → Option (List (List ℕ))
parse_line env line =
    let args =
      (parse_chars env (line ++ (0 ∷ []))
        (record { args = []; arg = []; in_quotes = false })).args in
    if ltb (length args) shell_max_args then some args else none
