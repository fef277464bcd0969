-- ===== src/Shell/Update.antt =====
-- What a lookup of a shell variable finds after a name has been set or unset.
use ppo_os.Common.{
  ℕ, ◌≤◌, ◌≡◌, refl, ap, ◌∙◌, sym, Bool, true, false, not, ◌&&◌, Option, none, some, List, [], ◌∷◌,
  if◌then◌else◌, option_case, length, take, take_of_le, bytes_eq, eq_of_bytes_eq, Bool-cases, inl,
  inr, arith, is_empty,
}
use ppo_os.Shell.Env.{
  EnvVar, has_name, get_env_var, replace_value, add_value, set_env_var, unset_env_var,
}

-- A name that is found is the name of the entry.
has_name-same : (m n k : List ℕ) → has_name m n ≡ true → has_name m k ≡ bytes_eq n k
has_name-same [] n k h = absurd (ground arith)
has_name-same (c ∷ cs) n k h = ap (λ x. bytes_eq x k) (eq_of_bytes_eq (c ∷ cs) n h)

has_name-other :
    (m n k : List ℕ) → has_name m n ≡ false → bytes_eq n k ≡ true → has_name m k ≡ false
has_name-other m n k h e = rw (← eq_of_bytes_eq n k e) h

-- Whether no entry is free.
abbrev pub all_used : List EnvVar → Bool
all_used [] = true
all_used (e ∷ env) = not (is_empty e.name) && all_used env

module _ (n v : List ℕ) where
  -- What a lookup finds after `n` has been set to `v`.
  abbrev pub updated : List EnvVar → List ℕ → Option (List ℕ)
  updated env k = if bytes_eq n k then some (take 127 v) else get_env_var env k

  abbrev Replaced : List EnvVar → Option (List EnvVar) → Type 0
  Replaced env none = get_env_var env n ≡ none
  Replaced env (some env') = (k : List ℕ) → get_env_var env' k ≡ updated env k

  -- The rest of the table behind an entry with another name.
  behind :
      (e : EnvVar) (env env' : List EnvVar)
      → has_name e.name n ≡ false
      → ((k : List ℕ) → get_env_var env' k ≡ updated env k)
      → (k : List ℕ) → get_env_var (e ∷ env') k ≡ updated (e ∷ env) k
  unfolding get_env_var
  behind e env env' other h k = elim (Bool-cases (bytes_eq n k)) [
    | inl same ↦
        let found : updated env k ≡ some (take 127 v) = rw same refl in
        rw (has_name-other e.name n k other same, same) (h k ∙ found)
    | inr apart ↦
        let found : updated env k ≡ get_env_var env k = rw apart refl in
        rw (apart, h k ∙ found) refl
  ]

  step :
      (e : EnvVar) (env : List EnvVar) (o : Option (List EnvVar))
      → has_name e.name n ≡ false
      → Replaced env o
      → Replaced (e ∷ env) (option_case o none (λ env'. some (e ∷ env')))
  unfolding get_env_var
  step e env none other h = rw other h
  step e env (some env') other h = behind e env env' other h

  replace_value-Replaced : (env : List EnvVar) → Replaced env (replace_value env n v)
  unfolding replace_value get_env_var
  replace_value-Replaced [] = refl
  replace_value-Replaced (e ∷ env) = elim (Bool-cases (has_name e.name n)) [
    | inl h ↦ rw h (λ k.
        rw (has_name-same e.name n k h) (elim (Bool-cases (bytes_eq n k)) [
          | inl same ↦ rw same refl
          | inr apart ↦ rw apart refl
        ]))
    | inr h ↦ rw h (step e env (replace_value env n v) h (replace_value-Replaced env))
  ]

has_name-empty : (m k : List ℕ) → is_empty m ≡ true → has_name m k ≡ false
has_name-empty [] k h = refl
has_name-empty (c ∷ cs) k h = absurd cc

has_name-filled : (n k : List ℕ) → is_empty n ≡ false → has_name n k ≡ bytes_eq n k
has_name-filled [] k h = absurd cc
has_name-filled (c ∷ cs) k h = refl

module _ (n v : List ℕ) (some_name : is_empty n ≡ false) (short : length n ≤ 31) where
  abbrev Added : List EnvVar → Option (List EnvVar) → Type 0
  Added env none = all_used env ≡ true
  Added env (some env') = (k : List ℕ) → get_env_var env' k ≡ updated n v env k

  add_step :
      (e : EnvVar) (env : List EnvVar) (o : Option (List EnvVar))
      → has_name e.name n ≡ false
      → is_empty e.name ≡ false
      → Added env o
      → Added (e ∷ env) (option_case o none (λ env'. some (e ∷ env')))
  unfolding get_env_var
  add_step e env none other used h = rw used h
  add_step e env (some env') other used h = behind n v e env env' other h

  add_value-Added : (env : List EnvVar) → get_env_var env n ≡ none → Added env (add_value env n v)
  unfolding add_value get_env_var
  add_value-Added [] absent = refl
  add_value-Added (e ∷ env) absent = elim (Bool-cases (is_empty e.name)) [
    | inl free ↦ rw free (λ k.
        rw (take_of_le 31 n short, has_name-filled n k some_name, has_name-empty e.name k free)
          (elim (Bool-cases (bytes_eq n k)) [
            | inl same ↦ rw same refl
            | inr apart ↦ rw apart refl
          ]))
    | inr used ↦ elim (Bool-cases (has_name e.name n)) [
      | inl h ↦
          let found : (if has_name e.name n then some e.value else get_env_var env n)
              ≡ some e.value =
            rw h refl in
          absurd (cc (found, absent))
      | inr h ↦
          let later : (if has_name e.name n then some e.value else get_env_var env n)
              ≡ get_env_var env n =
            rw h refl in
          rw used
            (add_step e env (add_value env n v) h used (add_value-Added env (sym later ∙ absent)))
    ]
  ]

  -- The outcomes of `set_env_var`: the variable is set, or the table is full and stays.
  abbrev pub SetOutcome : List EnvVar → List EnvVar × Bool → Type 0
  SetOutcome env (env', true) = (k : List ℕ) → get_env_var env' k ≡ updated n v env k
  SetOutcome env (env', false) = (env' ≡ env) × (all_used env ≡ true) × (get_env_var env n ≡ none)

  -- For a name of 1 to 31 bytes, `set_env_var` either returns true and changes the variables like
  -- a map, with the value cut at 127 bytes for this name and every other name as before, or it
  -- returns false and changes nothing, and then no entry is free and the name is not set.
  pub set_env_var-SetOutcome : (env : List EnvVar) → SetOutcome env (set_env_var env n v)
  unfolding set_env_var
  set_env_var-SetOutcome env = from_replace (replace_value env n v) (replace_value-Replaced n v env)
    where
      from_add :
          (o : Option (List EnvVar))
          → get_env_var env n ≡ none
          → Added env o
          → SetOutcome env (option_case o (env, false) (λ env'. (env', true)))
      from_add none absent h = (refl, h, absent)
      from_add (some env') absent h = h

      from_replace :
          (o : Option (List EnvVar))
          → Replaced n v env o
          → SetOutcome env (
              option_case o
                (option_case (add_value env n v) (env, false) (λ env'. (env', true)))
                (λ env'. (env', true)))
      from_replace none absent = from_add (add_value env n v) absent (add_value-Added env absent)
      from_replace (some env') h = h

-- Unsetting a name removes it alone.
pub get-unset_env_var :
    (env : List EnvVar) (n k : List ℕ)
    → get_env_var (unset_env_var env n) k ≡ (if bytes_eq n k then none else get_env_var env k)
unfolding get_env_var unset_env_var
get-unset_env_var [] n k = elim (Bool-cases (bytes_eq n k)) [
  | inl e ↦ rw e refl
  | inr e ↦ rw e refl
]
get-unset_env_var (e ∷ env) n k = elim (Bool-cases (has_name e.name n)) [
  | inl h ↦
      rw (h, has_name-same e.name n k h, get-unset_env_var env n k)
        (elim (Bool-cases (bytes_eq n k)) [ inl same ↦ rw same refl | inr apart ↦ rw apart refl ])
  | inr h ↦ elim (Bool-cases (bytes_eq n k)) [
    | inl same ↦ rw (h, has_name-other e.name n k h same, get-unset_env_var env n k, same) refl
    | inr apart ↦ rw (h, get-unset_env_var env n k, apart) refl
  ]
]
