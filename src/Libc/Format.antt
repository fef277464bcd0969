-- ===== src/Libc/Format.antt =====
-- Formats without conversions, and the comparison of strings.
use ppo_os.Common.{
  ℕ, zero, suc, ◌+◌, ◌-◌, ◌<◌, ◌≡◌, ◌≢◌, refl, sym, ap, ◌∙◌, List, [], ◌∷◌, ◌++◌, some, arith, leb,
  lt→ltb, eq→==, ne→==, Bool-cases, inl, inr, length, length-append, take, append-nil, append_assoc,
}
use ppo_os.CString.{Memory}
use ppo_os.CString.Str.{strcmp}
use ppo_os.CString.Str.Held.{Held}
use ppo_os.Libc.{user_strcmp, put_char, format_from}

-- The `strcmp` of the programs and that of the kernel are the same function.
pub user_strcmp-strcmp :
    (fuel : ℕ) (m : Memory) (s1 s2 : ℕ) → user_strcmp fuel m s1 s2 ≡ strcmp fuel m s1 s2
unfolding user_strcmp strcmp
user_strcmp-strcmp zero m s1 s2 = refl
user_strcmp-strcmp (suc fuel) m s1 s2 =
    rw (user_strcmp-strcmp fuel m (s1 + 1) (s2 + 1)) (ground arith)

-- No percent sign.
abbrev pub IsPlain : List ℕ → Type 0
IsPlain [] = Unit {0}
IsPlain (c ∷ cs) = (c ≢ 37) × IsPlain cs

cut_more :
    (out : List ℕ) (c : ℕ) (cs : List ℕ)
    → length out < 1023
    → (out ++ c ∷ []) ++ take (1023 - length (out ++ c ∷ [])) cs
      ≡ out ++ take (1023 - length out) (c ∷ cs)
cut_more out c cs lt =
    let size = length-append out (c ∷ []) in
    let more : 1023 - length out ≡ suc (1023 - length (out ++ c ∷ [])) = omega (arith, size) in
    rw more (append_assoc out (c ∷ []) (take (1023 - length (out ++ c ∷ [])) cs))

put_char-room : (out : List ℕ) (c : ℕ) → length out < 1024 → put_char out c ≡ some (out ++ c ∷ [])
unfolding put_char
put_char-room out c lt = rw (lt→ltb _ _ lt) refl

-- A format without a percent sign is written as it is, cut where the buffer is full.
pub format_from-plain :
    (fuel : ℕ) (m : Memory) (args f : ℕ) (out cs : List ℕ)
    → length cs < fuel
    → length out < 1023
    → IsPlain cs
    → Held m f cs
    → format_from fuel m args f out ≡ some (out ++ take (1023 - length out) cs)
unfolding format_from
format_from-plain zero m args f out cs lt room plain h = absurd (omega arith)
format_from-plain (suc fuel) m args f out [] lt room plain h =
    let more : 1023 - length out ≡ suc (1022 - length out) = omega arith in
    rw (eq→== (m f) 0 h, more) (ap some (sym (append-nil out)))
format_from-plain (suc fuel) m args f out (c ∷ cs) lt room (other, plain) (here, some_byte, h) =
    let longer = out ++ c ∷ [] in
    let put = put_char-room out c (omega arith) in
    let size = length-append out (c ∷ []) in
    elim (Bool-cases (leb 1023 (length longer))) [
      | inl full ↦
          let one : 1023 - length out ≡ 1 = ground (arith, size) in
          rw (here, ne→== c 37 other, ne→== c 0 (omega arith), put, full, one) refl
      | inr space ↦
          rw (here, ne→== c 37 other, ne→== c 0 (omega arith), put, space)
            (format_from-plain fuel m args (f + 1) longer cs (omega arith) (ground arith) plain h
              ∙ ap some (cut_more out c cs room))
    ]
