-- ===== src/CString/Str/Held.antt =====
-- strlen, strcmp, strcpy and strcat on memories that hold C strings.
use ppo_os.Common.{
  ℕ, zero, suc, ◌+◌, ◌≤◌, ◌<◌, ◌≡◌, ◌≢◌, ◌↔◌, inl, inr, refl, ap, sym, ◌∙◌, List, [], ◌∷◌, some,
  arith, length, ◌==◌, Bool-cases, if◌then◌else◌, eq→==, ne→==, ==→eq, ==→ne,
}
use ppo_os.Common.Int.{ℤ, pos, sub_ℕ}
use ppo_os.CString.{Memory}
use ppo_os.CString.Str.{strlen_from, strlen, strcmp}

-- At `s` stand these bytes, none of them NUL, and then a NUL.
abbrev pub Held : Memory → ℕ → List ℕ → Type 0
Held m s [] = m s ≡ 0
Held m s (c ∷ cs) = (m s ≡ c) × (0 < c) × Held m (s + 1) cs

pub Held-cast :
    {m m' : Memory} (s : ℕ) {cs cs' : List ℕ} → m ≡ m' → cs ≡ cs' → Held m s cs → Held m' s cs'
Held-cast s e f h = rw (← e, ← f) h

pub Held-frame :
    (m m' : Memory) (s : ℕ) (cs : List ℕ)
    → ((a : ℕ) → s ≤ a → a ≤ s + length cs → m' a ≡ m a)
    → Held m s cs
    → Held m' s cs
Held-frame m m' s [] same h = rw (same s (omega arith) (omega arith)) h
Held-frame m m' s (c ∷ cs) same (here, some_byte, h) = (
  rw (same s (omega arith) (omega arith)) here,
  some_byte,
  Held-frame m m' (s + 1) cs (λ a lo hi. same a (omega arith) (omega arith)) h,
)

strlen_from-Held :
    (fuel : ℕ) (m : Memory) (s len : ℕ) (cs : List ℕ)
    → length cs < fuel
    → Held m (s + len) cs
    → strlen_from fuel m s len ≡ some (len + length cs)
unfolding strlen_from
strlen_from-Held zero m s len cs lt h = absurd (omega arith)
strlen_from-Held (suc fuel) m s len [] lt h = rw (eq→== _ _ h) (ap some (omega arith))
strlen_from-Held (suc fuel) m s len (c ∷ cs) lt (here, some_byte, h) =
    let apart : m (s + len) ≢ 0 = rw here (λ e. absurd (omega arith)) in
    let next : s + len + 1 ≡ s + (len + 1) = omega arith in
    let rest = strlen_from-Held fuel m s (len + 1) cs (omega arith) (rw (← next) h) in
    let total : len + 1 + length cs ≡ len + suc (length cs) = omega arith in
    rw (ne→== _ _ apart, rest, total) refl

pub strlen-Held :
    (fuel : ℕ) (m : Memory) (s : ℕ) (cs : List ℕ)
    → length cs < fuel
    → Held m s cs
    → strlen fuel m s ≡ some (length cs)
unfolding strlen
strlen-Held fuel m s cs lt h =
    let at : s + 0 ≡ s = omega arith in
    let none_before : 0 + length cs ≡ length cs = omega arith in
    rw (← none_before) (strlen_from-Held fuel m s 0 cs lt (rw at h))

-- The first bytes that differ, each string followed by its NUL, subtracted.
abbrev pub difference : List ℕ → List ℕ → ℤ
difference [] [] = pos 0
difference [] (y ∷ ys) = sub_ℕ 0 y
difference (x ∷ xs) [] = sub_ℕ x 0
difference (x ∷ xs) (y ∷ ys) = if x == y then difference xs ys else sub_ℕ x y

sub_ℕ-ne-zero : (a b : ℕ) → a ≢ b → sub_ℕ a b ≢ pos 0
sub_ℕ-ne-zero a b h e = ground arith

difference_self : (xs : List ℕ) → difference xs xs ≡ pos 0
difference_self [] = refl
difference_self (x ∷ xs) = rw (eq→== x x refl) (difference_self xs)

pub strcmp-difference :
    (fuel : ℕ) (m : Memory) (s1 s2 : ℕ) (xs ys : List ℕ)
    → length xs < fuel
    → Held m s1 xs
    → Held m s2 ys
    → strcmp fuel m s1 s2 ≡ some (difference xs ys)
unfolding strcmp
strcmp-difference zero m s1 s2 xs ys lt h1 h2 = absurd (omega arith)
strcmp-difference (suc fuel) m s1 s2 [] [] lt h1 h2 = rw (h1, h2) refl
strcmp-difference (suc fuel) m s1 s2 [] (y ∷ ys) lt h1 (e2, p2, h2) = rw (h1, e2) refl
strcmp-difference (suc fuel) m s1 s2 (x ∷ xs) [] lt (e1, p1, h1) h2 =
    rw (e1, h2, ne→== x 0 (omega arith)) refl
strcmp-difference (suc fuel) m s1 s2 (x ∷ xs) (y ∷ ys) lt (e1, p1, h1) (e2, p2, h2) =
    let rest = strcmp-difference fuel m (s1 + 1) (s2 + 1) xs ys (omega arith) h1 h2 in
    rw (e1, e2, ne→== x 0 (omega arith), ne→== y 0 (omega arith), rest)
      (elim (Bool-cases (x == y)) [ inl e ↦ rw e refl | inr e ↦ rw e refl ])

difference-equal :
    (xs ys : List ℕ) (m : Memory) (s t : ℕ)
    → Held m s xs
    → Held m t ys
    → difference xs ys ≡ pos 0
    → xs ≡ ys
difference-equal [] [] m s t h1 h2 e = refl
difference-equal [] (y ∷ ys) m s t h1 (e2, p2, h2) e = absurd (sub_ℕ-ne-zero 0 y (omega arith) e)
difference-equal (x ∷ xs) [] m s t (e1, p1, h1) h2 e = absurd (sub_ℕ-ne-zero x 0 (omega arith) e)
difference-equal (x ∷ xs) (y ∷ ys) m s t (e1, p1, h1) (e2, p2, h2) e = elim (Bool-cases (x == y)) [
  | inl b ↦
      let rest : (if x == y then difference xs ys else sub_ℕ x y) ≡ difference xs ys = rw b refl in
      let same : x ≡ y = ==→eq x y b in
      let tails = difference-equal xs ys m (s + 1) (t + 1) h1 h2 (sym rest ∙ e) in cc (same, tails)
  | inr b ↦
      let last : (if x == y then difference xs ys else sub_ℕ x y) ≡ sub_ℕ x y = rw b refl in
      absurd (sub_ℕ-ne-zero x y (==→ne x y b) (sym last ∙ e))
]

-- `strcmp` of two C strings returns within as many rounds as the first has bytes and one more, and
-- it returns 0 exactly if the strings are equal.
pub strcmp-equal :
    (fuel : ℕ) (m : Memory) (s1 s2 : ℕ) (xs ys : List ℕ)
    → length xs < fuel
    → Held m s1 xs
    → Held m s2 ys
    → (r : ℤ) × (strcmp fuel m s1 s2 ≡ some r) × ((r ≡ pos 0) ↔ (xs ≡ ys))
strcmp-equal fuel m s1 s2 xs ys lt h1 h2 = (
  difference xs ys,
  strcmp-difference fuel m s1 s2 xs ys lt h1 h2,
  (difference-equal xs ys m s1 s2 h1 h2, λ e. rw (← e) (difference_self xs)),
)
