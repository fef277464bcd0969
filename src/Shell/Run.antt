-- ===== src/Shell/Run.antt =====
-- `shell_exec` and a command line of `shell_run`, over the file system and the program loader. What
-- is printed is left out. `none` says that the call does not return: `reboot`, `gui`,
-- whose demo has no end, or an endless loop in the loader.
use ppo_os.Common.{
  ℕ, Bool, true, false, not, ◌||◌, Option, none, some, List, [], ◌∷◌, ◌++◌, ltb, ◌==◌,
  if◌then◌else◌, option_case, length, take, get_or, bytes_eq, codes,
}
use ppo_os.Fs.{Fs, Driver, deref, fs_open, fs_chmod}
use ppo_os.Fs.Dirs.{fs_change_dir}
use ppo_os.Vmm.{Vmm}
use ppo_os.Exec.{Machine, exec_elf}
use ppo_os.Shell.{parse_octal, parse_redirection}
use ppo_os.Shell.Env.{EnvVar, get_env_var, set_env_var, unset_env_var}
use ppo_os.Shell.Line.{parse_line}

pub record Shell (S : Type 0) : Type 0 where
  pub env_vars : List EnvVar
  pub current_user : List ℕ
  pub shell_exit_requested : Bool
  pub fs : Fs S
  pub vmm : Vmm

-- `strtok(paths_copy, ":")` until there is no token left; `token` is the one that is being read.
abbrev pub finish_token : List ℕ → List (List ℕ) → List (List ℕ)
finish_token [] tokens = tokens
finish_token (c ∷ token) tokens = (c ∷ token) ∷ tokens

abbrev pub tokens_from : List ℕ → List ℕ → List (List ℕ)
tokens_from [] token = finish_token token []
tokens_from (c ∷ cs) token =
    let started = tokens_from cs [] in
    let longer = tokens_from cs (token ++ (c ∷ [])) in
    if c == 58 then finish_token token started else longer

abbrev pub ends_in_slash : List ℕ → Bool
ends_in_slash [] = false
ends_in_slash (c ∷ []) = c == 47
ends_in_slash (c ∷ (d ∷ cs)) = ends_in_slash (d ∷ cs)

-- `path_buffer` for a directory of the search path and a command.
abbrev pub candidate : List ℕ → List ℕ → List ℕ
candidate tok cmd = take 255 ((if ends_in_slash tok then tok else tok ++ codes "/") ++ cmd)

abbrev pub known_user : List ℕ → Bool
known_user name = bytes_eq name (codes "user") || bytes_eq name (codes "sudo")

abbrev pub set_var : {S : Type 0} → Shell S → List ℕ → List ℕ → Shell S
set_var s name value = record s { env_vars = (set_env_var s.env_vars name value).0 }

module _ {S : Type 0} (driver : Driver S) (hhdm : ℕ)
    (jmp_usermode : Machine → ℕ → ℕ → Machine) where
  -- `exec_elf(path_buffer)`, which opens the file once more. The file's bytes are in the file
  -- system's memory.
  unfoldable pub run_file : Shell S → List ℕ → Option (Shell S)
  run_file s path =
      let (fs1, p) = fs_open driver s.fs path in
      option_case
        (exec_elf hhdm jmp_usermode (option_case p none (λ f. some (deref fs1 f)))
          (record { vmm = s.vmm; bytes = fs1.mem }))
        none
        (λ machine. some (record s { fs = record fs1 { mem = machine.bytes }; vmm = machine.vmm }))

  -- The loop of `try_exec_elf_command` over the directories; the result is whether a file was found.
  unfoldable pub try_paths : Shell S → List (List ℕ) → List ℕ → Option (Shell S × Bool)
  try_paths s [] cmd = some (s, false)
  try_paths s (tok ∷ toks) cmd =
      let (fs1, p) = fs_open driver s.fs (candidate tok cmd) in
      let s1 = record s { fs = fs1 } in
      let rest = try_paths s1 toks cmd in
      option_case p rest
        (λ f. option_case (run_file s1 (candidate tok cmd)) none (λ s2. some (s2, true)))

  unfoldable pub try_exec_elf_command : Shell S → List ℕ → Option (Shell S × Bool)
  try_exec_elf_command s cmd =
      let paths =
        option_case (get_env_var s.env_vars (codes "PATH")) (codes "/bin:/usr/bin:.") (λ p. p) in
      try_paths s (tokens_from paths []) cmd

  -- The command `cmd` with the arguments that `parse_redirection` has left, `cmd` included.
  unfoldable pub run_command : Shell S → List ℕ → List (List ℕ) → Option (Shell S)
  run_command s cmd args =
      let argc = length args in
      let arg : ℕ → List ℕ = λ i. get_or args i [] in
      if bytes_eq cmd (codes "help")
        || bytes_eq cmd (codes "clear")
        || bytes_eq cmd (codes "pwd")
        || bytes_eq cmd (codes "ls")
        || bytes_eq cmd (codes "set")
      then some s
      else if bytes_eq cmd (codes "reboot") || bytes_eq cmd (codes "gui")
      then none
      else if bytes_eq cmd (codes "cd")
      then some (record s {
        fs = (fs_change_dir driver s.fs (if ltb argc 2 then codes "/" else arg 1)).0;
      })
      else if bytes_eq cmd (codes "chmod")
      then (if ltb argc 3
          then some s
          else some (record s { fs = (fs_chmod driver s.fs (arg 2) (parse_octal (arg 1))).0 }))
      else if bytes_eq cmd (codes "export")
      then (if ltb argc 3 then some s else some (set_var s (arg 1) (arg 2)))
      else if bytes_eq cmd (codes "unset")
      then (if ltb argc 2
          then some s
          else some (record s { env_vars = unset_env_var s.env_vars (arg 1) }))
      else if bytes_eq cmd (codes "exit")
      then some (record s { shell_exit_requested = true })
      else if bytes_eq cmd (codes "su")
      then (if ltb argc 2 || not (known_user (arg 1))
          then some s
          else some (set_var (record s { current_user = arg 1 }) (codes "USER") (arg 1)))
      else option_case (try_exec_elf_command s cmd) none (λ (s1, found). some s1)

  unfoldable pub shell_exec : Shell S → List (List ℕ) → Option (Shell S)
  shell_exec s [] = some s
  shell_exec s ([] ∷ args) = some s
  shell_exec s ((c ∷ cmd) ∷ args) =
      option_case (parse_redirection ((c ∷ cmd) ∷ args))
        (run_command s (c ∷ cmd) ((c ∷ cmd) ∷ args)) (λ r. run_command s (c ∷ cmd) r.args)

  -- `init_default_env`
  unfoldable pub init_default_env : Shell S → Shell S
  init_default_env s =
      set_var (set_var s (codes "PATH") (codes "/bin:/usr/bin:.")) (codes "USER") s.current_user

  -- What a round of the loop of `shell_run` does with the line that was read.
  unfoldable pub run_line : Shell S → List ℕ → Option (Shell S)
  run_line s line = option_case (parse_line s.env_vars line) none (shell_exec s)
