-- ===== src/Boot/Suffix.antt =====
-- checkStringEndsWith and getFile of kernel/src/main.c. `none` says that a pointer moves in front of its string,
-- that a string does not end in time, or that the kernel halts.
use ppo_os.Common.{
  ℕ, zero, suc, ◌+◌, ◌-◌, Bool, true, false, not, ◌||◌, ◌&&◌, List, [], ◌∷◌, Option, none, some,
  ◌==◌, if◌then◌else◌, option_case,
}
use ppo_os.CString.{Memory}
use ppo_os.CString.Str.{strlen}
use ppo_os.Boot.{BootModule, file_name}

-- The loop with the pointers at these distances from the starts of the strings.
unfoldable pub compare_back : Memory → ℕ → ℕ → ℕ → ℕ → Option Bool
compare_back m str end i zero = if m (str + i) == m (end + 0) then none else some false
compare_back m str end i (suc j) =
    let rest = compare_back m str end (i - 1) j in
    if not (m (str + i) == m (end + suc j))
    then some false
    else if i == 0
    then none
    else if (j == 0) || ((i == 1) && (j == 0))
    then some true
    else if i == 1
    then some false
    else rest

unfoldable pub check_string_ends_with : ℕ → Memory → ℕ → ℕ → Option Bool
check_string_ends_with fuel m str end = option_case (strlen fuel m str) none λ n.
    option_case (strlen fuel m end) none
      λ k. if (n == 0) || (k == 0) then none else compare_back m str end (n - 1) (k - 1)

-- The loop of `getFile`; `some none` is NULL.
unfoldable pub get_file_from : ℕ → Memory → ℕ → List BootModule → Option (Option BootModule)
get_file_from fuel m name [] = some none
get_file_from fuel m name (f ∷ fs) =
    let rest = get_file_from fuel m name fs in
    option_case (file_name fuel m f.path f.path) none λ last_slash.
      option_case (check_string_ends_with fuel m last_slash name) none
        λ ends. if ends then some (some f) else rest

unfoldable pub get_file : ℕ → Memory → ℕ → Option (List BootModule) → Option (Option BootModule)
get_file fuel m name module_response = option_case module_response none (get_file_from fuel m name)
