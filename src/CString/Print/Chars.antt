-- ===== src/CString/Print/Chars.antt =====
-- The digit loops of the number printers, which write the last digit first: what stands in the memory
-- behind them, and which number the digits are.
use native.Mathlib.Nat.{div-add-mod, mod-lt, div-lt_iff_lt-mul, pow-suc}
use ppo_os.Common.{
  ℕ, zero, suc, ◌+◌, ◌-◌, ◌*◌, ◌/◌, ◌%◌, ◌^◌, ◌≤◌, ◌<◌, ◌≡◌, ◌≢◌, refl, sym, ◌∙◌, List, [], ◌∷◌,
  ◌++◌, length-append, arith, ◌==◌, eq→==, ne→==, ==→eq, Bool-cases, inl, inr, length,
  if◌then◌else◌,
}
use ppo_os.CString.{Memory, write}
use ppo_os.CString.Print.{reverse}
use ppo_os.CString.Print.Reverse.{Laid, Each, NoNul, rev, reverse-Held}
use ppo_os.CString.Str.Held.{Held}

-- The digits of a number, last digit first; none for 0.
unfoldable pub chars : (ℕ → ℕ) → ℕ → ℕ → ℕ → List ℕ
chars char zero n base = []
chars char (suc rounds) n base =
    if n == 0 then [] else char (n % base) ∷ chars char rounds (n / base) base

-- Such a loop over a memory.
unfoldable pub put_chars : (ℕ → ℕ) → ℕ → Memory → ℕ → ℕ → ℕ → Memory × ℕ
put_chars char zero m p n base = (m, p)
put_chars char (suc rounds) m p n base =
    let rest = put_chars char rounds (write m p (char (n % base))) (p + 1) (n / base) base in
    if n == 0 then (m, p) else rest

pub Laid-cons :
    (m : Memory) (p d : ℕ) (ds : List ℕ) → m p ≡ d → Laid m (p + 1) ds → Laid m p (d ∷ ds)
Laid-cons m p d ds here rest zero lt = let e : p + 0 ≡ p = omega arith in rw e here
Laid-cons m p d ds here rest (suc i) lt =
    let e : p + suc i ≡ p + 1 + i = omega arith in rw e (rest i (omega arith))

pub record IsWritten (m : Memory) (p : ℕ) (ds : List ℕ) (r : Memory × ℕ) : Type 0 where
  pub end_at : r.1 ≡ p + length ds
  pub laid : Laid r.0 p ds
  pub below : (a : ℕ) → a < p → r.0 a ≡ m a

pub put_chars-IsWritten :
    (char : ℕ → ℕ) (rounds : ℕ) (m : Memory) (p n base : ℕ)
    → IsWritten m p (chars char rounds n base) (put_chars char rounds m p n base)
unfolding put_chars chars
put_chars-IsWritten char zero m p n base = record {
  end_at = omega arith;
  laid = λ i lt. absurd (omega arith);
  below = λ a lt. refl;
}
put_chars-IsWritten char (suc rounds) m p n base = elim (Bool-cases (n == 0)) [
  | inl done ↦
      rw done
        (record { end_at = omega arith; laid = λ i lt. absurd (omega arith); below = λ a lt. refl })
  | inr more ↦
      let ih =
        put_chars-IsWritten char rounds (write m p (char (n % base))) (p + 1) (n / base) base in
      rw more (record {
        end_at = omega (arith, ih.end_at);
        laid =
            Laid-cons
              (put_chars char rounds (write m p (char (n % base))) (p + 1) (n / base) base).0 p
              (char (n % base)) (chars char rounds (n / base) base)
              (ih.below p (omega arith) ∙ rw (eq→== p p refl) refl) ih.laid;
        below = λ a lt. ih.below a (omega arith) ∙ rw (ne→== a p (omega arith)) refl;
      })
]

-- The number that digits stand for, last digit first.
abbrev pub number_of : (ℕ → ℕ) → ℕ → List ℕ → ℕ
number_of decode base [] = 0
number_of decode base (d ∷ ds) = number_of decode base ds * base + decode d

pub below_power : (rounds n base : ℕ) → 1 < base → n < 2 ^ suc rounds → n / base < 2 ^ rounds
below_power rounds n base two lt =
    (div-lt_iff_lt-mul (omega arith)).1 (grind (arith, pow-suc 2 rounds))

pub number_of-chars :
    (char decode : ℕ → ℕ) (rounds n base : ℕ)
    → ((r : ℕ) → r < base → decode (char r) ≡ r)
    → 1 < base
    → n < 2 ^ rounds
    → number_of decode base (chars char rounds n base) ≡ n
unfolding chars
number_of-chars char decode zero n base inverse two lt = omega arith
number_of-chars char decode (suc rounds) n base inverse two lt = elim (Bool-cases (n == 0)) [
  | inl done ↦ rw done (sym (==→eq n 0 done))
  | inr more ↦
      let ih =
        number_of-chars char decode rounds (n / base) base inverse two
          (below_power rounds n base two lt) in
      rw (more, ih, inverse (n % base) (mod-lt n (omega arith))) (grind (arith, div-add-mod n base))
]

module _ (P : ℕ → Type 0) where
  pub Each-cons : (d : ℕ) (ds : List ℕ) → P d → Each P ds → Each P (d ∷ ds)
  Each-cons d ds here rest zero lt = here
  Each-cons d ds here rest (suc i) lt = rest i (omega arith)

  pub Each-snoc : (d : ℕ) (ds : List ℕ) → P d → Each P ds → Each P (ds ++ d ∷ [])
  Each-snoc d [] here rest zero lt = here
  Each-snoc d [] here rest (suc i) lt = absurd (omega arith)
  Each-snoc d (c ∷ ds) here rest zero lt = rest 0 (omega arith)
  Each-snoc d (c ∷ ds) here rest (suc i) lt =
      Each-snoc d ds here (λ j l. rest (suc j) (omega arith)) i (omega arith)

  pub Each-chars :
      (char : ℕ → ℕ) (rounds n base : ℕ)
      → ((r : ℕ) → r < base → P (char r))
      → 0 < base
      → Each P (chars char rounds n base)
  unfolding chars
  Each-chars char zero n base each pos = λ i lt. absurd (omega arith)
  Each-chars char (suc rounds) n base each pos = elim (Bool-cases (n == 0)) [
    | inl done ↦ rw done (λ i lt. absurd (omega arith))
    | inr more ↦ rw more (
        Each-cons (char (n % base)) _ (each (n % base) (mod-lt n pos))
          (Each-chars char rounds (n / base) base each pos))
  ]

pub length-chars : (char : ℕ → ℕ) (rounds n base : ℕ) → length (chars char rounds n base) ≤ rounds
unfolding chars
length-chars char zero n base = omega arith
length-chars char (suc rounds) n base = ground (arith, length-chars char rounds (n / base) base)

pub chars-zero : (char : ℕ → ℕ) (rounds base : ℕ) → chars char rounds 0 base ≡ []
unfolding chars
chars-zero char zero base = refl
chars-zero char (suc rounds) base = refl

pub chars-ne-nil :
    (char : ℕ → ℕ) (rounds n base : ℕ) → n ≢ 0 → 0 < length (chars char (suc rounds) n base)
unfolding chars
chars-ne-nil char rounds n base apart = rw (ne→== n 0 apart) (omega arith)

Laid-snoc :
    (m : Memory) (p : ℕ) (ds : List ℕ) (c : ℕ)
    → Laid m p ds
    → m (p + length ds) ≡ c
    → Laid m p (ds ++ c ∷ [])
Laid-snoc m p [] c laid end =
    Laid-cons m p c [] (let e : p + 0 ≡ p = omega arith in rw (← e) end)
      (λ i lt. absurd (omega arith))
Laid-snoc m p (d ∷ ds) c laid end =
    let first : p + 0 ≡ p = omega arith in
    Laid-cons m p d (ds ++ c ∷ []) (rw (← first) (laid 0 (omega arith))) (
      Laid-snoc m (p + 1) ds c
        (λ i lt. let e : p + 1 + i ≡ p + suc i = omega arith in rw e (laid (suc i) (omega arith)))
        (let e : p + 1 + length ds ≡ p + suc (length ds) = omega arith in rw e end))

-- One more character.
pub IsWritten-snoc :
    (m : Memory) (p : ℕ) (ds : List ℕ) (c : ℕ) (written : Memory) (q : ℕ)
    → IsWritten m p ds (written, q)
    → IsWritten m p (ds ++ c ∷ []) (write written q c, q + 1)
IsWritten-snoc m p ds c written q w = record {
  end_at = omega (arith, w.end_at, length-append ds (c ∷ []));
  laid =
      Laid-snoc (write written q c) p ds c
        (λ i lt. rw (ne→== (p + i) q (omega (arith, w.end_at))) (w.laid i lt))
        (rw (eq→== (p + length ds) q (sym w.end_at)) refl);
  below = λ a lt. rw (ne→== a q (omega (arith, w.end_at))) (w.below a lt);
}

-- Loops whose characters agree write the same.
pub chars_same :
    (char char' : ℕ → ℕ) (rounds n base : ℕ)
    → 0 < base
    → ((r : ℕ) → r < base → char r ≡ char' r)
    → chars char rounds n base ≡ chars char' rounds n base
unfolding chars
chars_same char char' zero n base pos same = refl
chars_same char char' (suc rounds) n base pos same =
    rw (same (n % base) (mod-lt n pos), chars_same char char' rounds (n / base) base pos same) refl

-- The text that stands behind such a loop, ended and reversed.
pub IsWritten-reverse :
    (m : Memory) (p : ℕ) (ds : List ℕ) (r : Memory × ℕ)
    → IsWritten m p ds r
    → 0 < length ds
    → NoNul ds
    → Held (reverse (r.1 - p) (write r.0 r.1 0) p (r.1 - 1)) p (rev ds [])
IsWritten-reverse m p ds r w some_char some_byte =
    let rounds : p + length ds - p ≡ length ds = omega arith in
    rw (w.end_at, rounds) (reverse-Held r.0 p ds some_char w.laid some_byte)
