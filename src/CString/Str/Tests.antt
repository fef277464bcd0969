-- ===== src/CString/Str/Tests.antt =====
-- Runs on a memory with "ab" at 10, "abc" at 20 and zeros elsewhere.
use ppo_os.Common.{
  ℕ, ◌+◌, ◌-◌, ◌++◌, ◌<◌, ◌≤◌, ◌≡◌, ◌↔◌, ◌⊎◌, inl, refl, List, [], ◌∷◌, some, arith, get_or, ltb,
  if◌then◌else◌,
}
use ppo_os.Common.Int.{ℤ, pos, negsuc}
use ppo_os.CString.{Memory}
use ppo_os.CString.Str.{
  strcmp, strcat, strncpy, strlen, strlen_from, strncmp, strnlen, strnlen_from,
}
use ppo_os.CString.Str.Held.{Held, strcmp-equal}
use ppo_os.CString.Str.Copies.{strcat-append, strncpy-fills}

abbrev two_strings : Memory
two_strings a =
    if ltb a 20
    then get_or (97 ∷ 98 ∷ 0 ∷ []) (a - 10) 0
    else get_or (97 ∷ 98 ∷ 99 ∷ 0 ∷ []) (a - 20) 0

abbrev ab : List ℕ
ab = 97 ∷ 98 ∷ []

abbrev abc : List ℕ
abc = 97 ∷ 98 ∷ 99 ∷ []

ab-Held : Held two_strings 10 ab
ab-Held = (refl, omega arith, (refl, omega arith, refl))

abc-Held : Held two_strings 20 abc
abc-Held = (refl, omega arith, (refl, omega arith, (refl, omega arith, refl)))

strcmp_cat : (r : ℤ) × (strcmp 3 two_strings 10 20 ≡ some r) × ((r ≡ pos 0) ↔ (ab ≡ abc))
strcmp_cat = strcmp-equal 3 two_strings 10 20 ab abc (omega arith) ab-Held abc-Held

strcat_run :
    (m' : Memory) × (strcat 6 two_strings 10 20 ≡ some m')
    × Held m' 10 (ab ++ abc)
    × ((a : ℕ) → (a < 12) ⊎ (15 < a) → m' a ≡ two_strings a)
strcat_run =
    strcat-append 6 two_strings 10 20 ab abc (omega arith) ab-Held abc-Held (inl (omega arith))

strncpy_five :
    ((i : ℕ) → i < 5 → strncpy two_strings 10 20 5 (10 + i) ≡ get_or abc i 0)
    × ((a : ℕ) → (a < 10) ⊎ (15 ≤ a) → strncpy two_strings 10 20 5 a ≡ two_strings a)
strncpy_five = strncpy-fills two_strings 10 20 5 abc abc-Held (inl (omega arith))

strlen_run : strlen 5 two_strings 20 ≡ some 3
unfolding strlen strlen_from
strlen_run = refl

strncmp_run : strncmp two_strings 10 20 3 ≡ negsuc 98
unfolding strncmp
strncmp_run = refl

strnlen_run : strnlen two_strings 20 2 ≡ 2
unfolding strnlen strnlen_from
strnlen_run = refl
