-- ===== src/CString/Print/Reverse.antt =====
-- What `reverse` does to a text whose characters were written last first.
use ppo_os.Common.{
  ℕ, zero, suc, ◌+◌, ◌-◌, ◌≤◌, ◌<◌, ◌≡◌, refl, sym, ◌∙◌, List, [], ◌∷◌, ◌++◌, arith, ltb, leb, ◌==◌,
  ltb→lt, ltb→le, ne→==, eq→==, ==→eq, ap, true, false, Bool-cases, inl, inr, length, get_or,
  if◌then◌else◌, ◌&&◌,
}
use ppo_os.CString.{Memory, write}
use ppo_os.CString.Print.{reverse}
use ppo_os.CString.Str.Held.{Held}

-- The part of the range that is left to swap, read before and after a round.
mirrored : Memory → ℕ → ℕ → ℕ → ℕ
mirrored m first last a = if leb first a && leb a last then m (first + last - a) else m a

swapped : Memory → ℕ → ℕ → Memory
swapped m first last = write (write m last (m first)) first (m last)

between : (a b c : ℕ) → (ltb a b && ltb b c) ≡ true → (a < b) × (b < c)
between a b c h = ground arith

mirrored_inside :
    (m : Memory) (first last a : ℕ)
    → first ≤ a
    → a ≤ last
    → mirrored m first last a ≡ m (first + last - a)
unfolding mirrored
mirrored_inside m first last a lo hi = ground arith

mirrored_outside :
    (m : Memory) (first last a : ℕ)
    → (leb first a && leb a last) ≡ false
    → mirrored m first last a ≡ m a
unfolding mirrored
mirrored_outside m first last a out = rw out refl

-- The ends, and what lies outside of the range.
swapped_outside :
    (m : Memory) (first last a : ℕ)
    → first < last
    → (ltb first a && ltb a last) ≡ false
    → swapped m first last a ≡ mirrored m first last a
unfolding swapped mirrored
swapped_outside m first last a lt out = elim (Bool-cases (a == first)) [
  | inl low ↦
      let e : first + last - a ≡ last = omega (arith, ==→eq a first low) in ground (arith, ap m e)
  | inr above ↦
      let e : (a == last) ≡ true → first + last - a ≡ first = λ h. omega (arith, ==→eq a last h) in
      ground (arith, λ (h : (a == last) ≡ true). ap m (e h))
]

mirrored-swapped_mid :
    (m : Memory) (first last a : ℕ)
    → first < a
    → a < last
    → swapped m first last (first + 1 + (last - 1) - a) ≡ m (first + last - a)
unfolding swapped
mirrored-swapped_mid m first last a lo hi =
    let e : first + 1 + (last - 1) - a ≡ first + last - a = omega arith in
    rw
      (e, ne→== (first + last - a) first (omega arith), ne→== (first + last - a) last (omega arith))
      refl

mirrored-swapped :
    (m : Memory) (first last a : ℕ)
    → first < last
    → mirrored (swapped m first last) (first + 1) (last - 1) a ≡ mirrored m first last a
mirrored-swapped m first last a lt = elim (Bool-cases (ltb first a && ltb a last)) [
  | inl inside ↦
      let (lo, hi) = between first a last inside in
      mirrored_inside (swapped m first last) (first + 1) (last - 1) a (omega arith) (omega arith)
      ∙ mirrored-swapped_mid m first last a lo hi
      ∙ sym (mirrored_inside m first last a (omega arith) (omega arith))
  | inr outside ↦
      mirrored_outside (swapped m first last) (first + 1) (last - 1) a (ground arith)
      ∙ swapped_outside m first last a lt outside
]

mirrored_apart : (m : Memory) (first last a : ℕ) → last ≤ first → mirrored m first last a ≡ m a
unfolding mirrored
mirrored_apart m first last a le = ground arith

reverse-mirrored :
    (rounds : ℕ) (m : Memory) (first last a : ℕ)
    → last ≤ first + rounds
    → reverse rounds m first last a ≡ mirrored m first last a
unfolding reverse swapped
reverse-mirrored zero m first last a near = sym (mirrored_apart m first last a (omega arith))
reverse-mirrored (suc rounds) m first last a near = elim (Bool-cases (ltb first last)) [
  | inl more ↦ rw more (
      reverse-mirrored rounds (swapped m first last) (first + 1) (last - 1) a (omega arith)
      ∙ mirrored-swapped m first last a (ltb→lt _ _ more))
  | inr done ↦ rw done (sym (mirrored_apart m first last a (ltb→le _ _ done)))
]

pub reverse_inside :
    (rounds : ℕ) (m : Memory) (first last a : ℕ)
    → last ≤ first + rounds
    → first ≤ a
    → a ≤ last
    → reverse rounds m first last a ≡ m (first + last - a)
reverse_inside rounds m first last a near lo hi =
    reverse-mirrored rounds m first last a near ∙ mirrored_inside m first last a lo hi

pub reverse_after :
    (rounds : ℕ) (m : Memory) (first last a : ℕ)
    → last ≤ first + rounds
    → last < a
    → reverse rounds m first last a ≡ m a
reverse_after rounds m first last a near lt =
    reverse-mirrored rounds m first last a near ∙ mirrored_outside m first last a (ground arith)

-- The characters in the other order, before others.
abbrev pub rev : List ℕ → List ℕ → List ℕ
rev [] cs = cs
rev (d ∷ ds) cs = rev ds (d ∷ cs)

pub length-rev : (ds cs : List ℕ) → length (rev ds cs) ≡ length ds + length cs
length-rev [] cs = omega arith
length-rev (d ∷ ds) cs = omega (arith, length-rev ds (d ∷ cs))

get_or-rev_after : (ds cs : List ℕ) (i : ℕ) → get_or (rev ds cs) (length ds + i) 0 ≡ get_or cs i 0
get_or-rev_after [] cs i = let e : 0 + i ≡ i = omega arith in rw e refl
get_or-rev_after (d ∷ ds) cs i =
    let e : suc (length ds) + i ≡ length ds + suc i = omega arith in
    rw e (get_or-rev_after ds (d ∷ cs) (suc i))

pub get_or-rev :
    (ds cs : List ℕ) (i j : ℕ) → i + j + 1 ≡ length ds → get_or (rev ds cs) i 0 ≡ get_or ds j 0
get_or-rev [] cs i j e = absurd (omega arith)
get_or-rev (d ∷ ds) cs i zero e =
    let at : i ≡ length ds + 0 = omega arith in rw at (get_or-rev_after ds (d ∷ cs) 0)
get_or-rev (d ∷ ds) cs i (suc j) e = get_or-rev ds (d ∷ cs) i j (omega arith)

-- From `p` on stand these characters.
abbrev pub Laid : Memory → ℕ → List ℕ → Type 0
Laid m p ds = (i : ℕ) → i < length ds → m (p + i) ≡ get_or ds i 0

abbrev pub Each : (ℕ → Type 0) → List ℕ → Type 0
Each P ds = (i : ℕ) → i < length ds → P (get_or ds i 0)

abbrev pub NoNul : List ℕ → Type 0
NoNul = Each (λ c. 0 < c)

step_at : (s i : ℕ) → s + 1 + i ≡ s + suc i
step_at s i = omega arith

pub Held-Laid :
    (m : Memory) (s : ℕ) (cs : List ℕ)
    → Laid m s cs
    → NoNul cs
    → m (s + length cs) ≡ 0
    → Held m s cs
Held-Laid m s [] laid some_byte end = let e : s + 0 ≡ s = omega arith in rw (← e) end
Held-Laid m s (c ∷ cs) laid some_byte end =
    let e : s + 0 ≡ s = omega arith in
    (
      rw (← e) (laid 0 (omega arith)),
      some_byte 0 (omega arith),
      Held-Laid m (s + 1) cs (λ i lt. rw (step_at s i) (laid (suc i) (omega arith)))
          (λ i lt. some_byte (suc i) (omega arith)) (rw (step_at s (length cs)) end),
    )

-- Written last first, ended by a NUL and reversed, the characters are a string in their order.
pub Each-rev : (P : ℕ → Type 0) (ds : List ℕ) → Each P ds → Each P (rev ds [])
Each-rev P ds each i lt =
    let full = length-rev ds [] in
    let e : i + (length ds - 1 - i) + 1 ≡ length ds = omega (arith, full) in
    rw (get_or-rev ds [] i _ e) (each (length ds - 1 - i) (omega (arith, full)))

-- The last digit that is written is the first.
pub rev_snoc : (ds cs : List ℕ) (c : ℕ) → rev (ds ++ c ∷ []) cs ≡ c ∷ rev ds cs
rev_snoc [] cs c = refl
rev_snoc (d ∷ ds) cs c = rev_snoc ds (d ∷ cs) c

module _ (m : Memory) (p : ℕ) (ds : List ℕ) (some_char : 0 < length ds) (laid : Laid m p ds)
    (some_byte : NoNul ds) where
  reversed_char :
      (i j : ℕ)
      → i + j + 1 ≡ length ds
      → reverse (length ds) (write m (p + length ds) 0) p (p + length ds - 1) (p + i)
        ≡ get_or ds j 0
  reversed_char i j e =
      let from : p + (p + length ds - 1) - (p + i) ≡ p + j = omega arith in
      reverse_inside (length ds) _ p (p + length ds - 1) (p + i) (omega arith) (omega arith)
        (omega arith)
      ∙ rw (from, ne→== (p + j) (p + length ds) (omega arith)) (laid j (omega arith))

  -- Written last first, ended by a NUL and reversed, the characters are a string in their order.
  pub reverse-Held :
      Held (reverse (length ds) (write m (p + length ds) 0) p (p + length ds - 1)) p (rev ds [])
  reverse-Held =
      let full = length-rev ds [] in
      let same : p + length (rev ds []) ≡ p + length ds = omega (arith, full) in
      Held-Laid _ p (rev ds [])
        (λ i lt.
          let e : i + (length ds - 1 - i) + 1 ≡ length ds = omega (arith, full) in
          reversed_char i _ e ∙ sym (get_or-rev ds [] i _ e))
        (Each-rev (λ c. 0 < c) ds some_byte)
        (rw same (
          reverse_after (length ds) _ p (p + length ds - 1) (p + length ds) (omega arith)
            (omega arith)
          ∙ rw (eq→== (p + length ds) (p + length ds) refl) refl))
