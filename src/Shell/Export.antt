-- ===== src/Shell/Export.antt =====
-- The line `"export" "<name>" "<value>"`, from the characters to the variable.
use ppo_os.Common.{
  codes, ℕ, ◌≤◌, ◌<◌, ◌≡◌, ◌≢◌, ◌⊎◌, inl, inr, refl, ◌∙◌, Bool, true, false, some, List, [], ◌∷◌,
  length, take, take_of_le, arith, bytes_eq, bytes_eq_refl, eq_of_bytes_eq, Bool-cases, is_empty,
}
use ppo_os.Exec.{Machine}
use ppo_os.Fs.{Driver}
use ppo_os.Shell.{parse_redirection}
use ppo_os.Shell.Env.{EnvVar, get_env_var, set_env_var}
use ppo_os.Shell.Update.{all_used, SetOutcome, set_env_var-SetOutcome}
use ppo_os.Shell.Words.{line_of, IsWord, parse_line-line_of}
use ppo_os.Shell.Run.{Shell, set_var, run_command, shell_exec, run_line}

filled_name : (n : List ℕ) → 0 < length n → is_empty n ≡ false
filled_name [] h = absurd (omega arith)
filled_name (c ∷ cs) h = refl

bytes_ne : (xs ys : List ℕ) → xs ≢ ys → bytes_eq xs ys ≡ false
bytes_ne xs ys ne = elim (Bool-cases (bytes_eq xs ys)) [
  | inl e ↦ absurd (ne (eq_of_bytes_eq xs ys e))
  | inr e ↦ e
]

module _ {S : Type 0} (driver : Driver S) (hhdm : ℕ) (jmp_usermode : Machine → ℕ → ℕ → Machine)
    (s : Shell S) (n v : List ℕ) where
  export_lem :
      n ≢ codes ">"
      → n ≢ codes ">>"
      → shell_exec driver hhdm jmp_usermode s (codes "export" ∷ n ∷ v ∷ []) ≡ some (set_var s n v)
  unfolding shell_exec parse_redirection run_command
  export_lem one two = rw (bytes_ne n (codes ">") one, bytes_ne n (codes ">>") two) refl

  -- What the line does to the variables.
  exported :
      is_empty n ≡ false
      → length n ≤ 31
      → length v ≤ 63
      → (get_env_var (set_var s n v).env_vars n ≡ some v)
        ⊎ ((all_used s.env_vars ≡ true) × ((set_var s n v).env_vars ≡ s.env_vars))
  exported filled short small =
      outcome (set_env_var s.env_vars n v) (set_env_var-SetOutcome n v filled short s.env_vars)
    where
      outcome :
          (r : List EnvVar × Bool)
          → SetOutcome n v filled short s.env_vars r
          → (get_env_var r.0 n ≡ some v) ⊎ ((all_used s.env_vars ≡ true) × (r.0 ≡ s.env_vars))
      outcome (env, true) h =
          let same : bytes_eq n n ≡ true = bytes_eq_refl n in
          let whole : take 127 v ≡ v = take_of_le 127 v (omega arith) in
          inl (h n ∙ rw (same, whole) refl)
      outcome (env, false) (same, full, absent) = inr (full, same)

  -- The line that exports a value of 1 to 63 bytes to a name of 1 to 31 bytes, each in quotes,
  -- without quotes inside and without '$' in front, is carried out, and a lookup of the name then
  -- gives the value, or the table was full and stays; the name is not a redirection operator.
  pub run_line-export :
      IsWord n
      → IsWord v
      → length n ≤ 31
      → n ≢ codes ">"
      → n ≢ codes ">>"
      → (s' : Shell S) × (run_line driver hhdm jmp_usermode s
            (line_of (codes "export") (n ∷ v ∷ []))
          ≡ some s')
        × ((get_env_var s'.env_vars n ≡ some v)
            ⊎ ((all_used s.env_vars ≡ true) × (s'.env_vars ≡ s.env_vars)))
  unfolding run_line
  run_line-export word_n word_v short one two = (
    set_var s n v,
    rw
        (parse_line-line_of s.env_vars (codes "export") (n ∷ v ∷ []) export-IsWord
          (word_n, (word_v, _)) (omega arith))
        (export_lem one two),
    exported (filled_name n word_n.filled) short word_v.short,
  )
    where
      export-IsWord : IsWord (codes "export")
      export-IsWord = record {
        plain = omega arith;
        filled = omega arith;
        short = omega arith;
        unmarked = omega arith;
      }
