-- ===== src/Shell/Env.antt =====
-- The environment variables of the shell.
use ppo_os.Common.{
  ℕ, Bool, true, false, Option, none, some, List, [], ◌∷◌, if◌then◌else◌, option_case, take,
  bytes_eq, is_empty,
}

-- `struct env_var`; a free entry has an empty name.
pub record EnvVar : Type 0 where
  pub name : List ℕ
  pub value : List ℕ

-- `env_vars[i].name[0] && !strcmp(env_vars[i].name, name)`
abbrev pub has_name : List ℕ → List ℕ → Bool
has_name [] name = false
has_name (c ∷ cs) name = bytes_eq (c ∷ cs) name

unfoldable pub get_env_var : List EnvVar → List ℕ → Option (List ℕ)
get_env_var [] name = none
get_env_var (e ∷ env) name =
    let rest = get_env_var env name in if has_name e.name name then some e.value else rest

-- The first loop of `set_env_var`.
unfoldable pub replace_value : List EnvVar → List ℕ → List ℕ → Option (List EnvVar)
replace_value [] name value = none
replace_value (e ∷ env) name value =
    let rest = replace_value env name value in
    if has_name e.name name
    then some (record { name = e.name; value = take 127 value } ∷ env)
    else option_case rest none (λ env'. some (e ∷ env'))

-- The second loop of `set_env_var`.
unfoldable pub add_value : List EnvVar → List ℕ → List ℕ → Option (List EnvVar)
add_value [] name value = none
add_value (e ∷ env) name value =
    let rest = add_value env name value in
    if is_empty e.name
    then some (record { name = take 31 name; value = take 127 value } ∷ env)
    else option_case rest none (λ env'. some (e ∷ env'))

unfoldable pub set_env_var : List EnvVar → List ℕ → List ℕ → List EnvVar × Bool
set_env_var env name value =
    option_case (replace_value env name value)
      (option_case (add_value env name value) (env, false) (λ env'. (env', true)))
      (λ env'. (env', true))

unfoldable pub unset_env_var : List EnvVar → List ℕ → List EnvVar
unset_env_var [] name = []
unset_env_var (e ∷ env) name =
    let rest = unset_env_var env name in
    if has_name e.name name then record { name = []; value = [] } ∷ rest else e ∷ rest
