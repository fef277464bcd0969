-- ===== src/CString/Print/Spells.antt =====
-- When a text is the numeral of a number in a base up to 16, and whether the digit loops write one.
use native.Mathlib.Nat.{mod-lt, div-add-mod}
use ppo_os.Common.{
  ℕ, zero, suc, ◌+◌, ◌-◌, ◌*◌, ◌/◌, ◌%◌, ◌^◌, ◌≤◌, ◌<◌, ◌≡◌, ◌≢◌, ◌⊎◌, refl, sym, ◌∙◌, List, [],
  ◌∷◌, arith, Bool, ltb, ◌==◌, ltb→lt, lt→ltb, ltb→le, le→ltb, ne→==, ==→eq, ==→ne, Bool-cases, inl,
  inr, length, get_or, if◌then◌else◌,
}
use ppo_os.Common.Bits.{all_below, all_below_sound}
use ppo_os.CString.Print.{hex_digits}
use ppo_os.CString.Print.Reverse.{rev, get_or-rev, length-rev, Each, Each-rev}
use ppo_os.CString.Print.Chars.{
  chars, number_of, number_of-chars, Each-chars, below_power, chars-zero,
}

-- "0" to "9" and "a" to "f".
abbrev pub IsHexDigit : ℕ → Type 0
IsHexDigit c = ((48 ≤ c) × (c ≤ 57)) ⊎ ((97 ≤ c) × (c ≤ 102))

abbrev pub hex_value : ℕ → ℕ
hex_value c = if ltb c 58 then c - 48 else c - 87

-- The number that a text stands for, behind digits of this value.
abbrev pub numeral : ℕ → ℕ → List ℕ → ℕ
numeral base n [] = n
numeral base n (c ∷ cs) = numeral base (n * base + hex_value c) cs

-- The digits of a number other than 0, without a leading 0.
pub record Spells (base n : ℕ) (cs : List ℕ) : Type 0 where
  pub each : Each IsHexDigit cs
  pub value : numeral base 0 cs ≡ n
  pub first : get_or cs 0 0 ≢ 48

numeral-rev :
    (base : ℕ) (ds cs : List ℕ)
    → numeral base 0 (rev ds cs) ≡ numeral base (number_of hex_value base ds) cs
numeral-rev base [] cs = refl
numeral-rev base (d ∷ ds) cs = numeral-rev base ds (d ∷ cs)

-- The digit that is written last is not 0.
pub last_char :
    (char : ℕ → ℕ) (rounds n base : ℕ)
    → 1 < base
    → n < 2 ^ rounds
    → n ≢ 0
    → (i r : ℕ) × (i + 1 ≡ length (chars char rounds n base))
      × (get_or (chars char rounds n base) i 0 ≡ char r)
      × (0 < r)
      × (r < base)
unfolding chars
last_char char zero n base two fits apart = absurd (omega arith)
last_char char (suc rounds) n base two fits apart = elim (Bool-cases (n / base == 0)) [
  | inl top ↦
      let zero_above = ==→eq (n / base) 0 top in
      let whole : base * (n / base) ≡ 0 = rw zero_above (grind arith) in
      rw (ne→== n 0 apart, zero_above, chars-zero char rounds base)
        (
          0,
          n % base,
          omega arith,
          refl,
          omega (arith, div-add-mod n base, whole),
          mod-lt n (omega arith),
        )
  | inr more ↦
      let (i, r, at, is, some_digit, small) =
        last_char char rounds (n / base) base two (below_power rounds n base two fits)
          (==→ne _ _ more) in
      rw (ne→== n 0 apart) (suc i, r, omega (arith, at), is, some_digit, small)
]

-- A function that gives each remainder its digit.
abbrev pub Writes : (ℕ → ℕ) → ℕ → Type 0
Writes char base = (r : ℕ) → r < base → IsHexDigit (char r) × (hex_value (char r) ≡ r)

pub pos_of_digit : (c : ℕ) → IsHexDigit c → 0 < c
pos_of_digit c (inl h) = omega arith
pos_of_digit c (inr h) = omega arith

pub chars-Spells :
    (char : ℕ → ℕ) (rounds n base : ℕ)
    → Writes char base
    → 1 < base
    → n < 2 ^ suc rounds
    → n ≢ 0
    → Spells base n (rev (chars char (suc rounds) n base) [])
chars-Spells char rounds n base writes two fits apart =
    let ds = chars char (suc rounds) n base in
    let (i, r, at, is, some_digit, small) = last_char char (suc rounds) n base two fits apart in
    let full = length-rev ds [] in
    let top = get_or-rev ds [] 0 i (omega (arith, at)) ∙ is in
    record {
      each =
          Each-rev IsHexDigit ds (
            Each-chars IsHexDigit char (suc rounds) n base (λ q lt. (writes q lt).0) (omega arith));
      value =
          numeral-rev base ds []
          ∙ number_of-chars char hex_value (suc rounds) n base (λ q lt. (writes q lt).1) two fits;
      first = λ e. absurd (omega (arith, (let v = (writes r small).1 in rw (sym top ∙ e) at v)));
    }

abbrev pub hex_char : ℕ → ℕ
hex_char r = if ltb r 10 then r + 48 else r + 97 - 10

pub hex_char-Writes : (base : ℕ) → base ≤ 16 → Writes hex_char base
hex_char-Writes base le r lt = elim (Bool-cases (ltb r 10)) [
  | inl low ↦
      let small = ltb→lt r 10 low in
      rw (low, lt→ltb (r + 48) 58 (omega arith)) (inl (omega arith, omega arith), omega arith)
  | inr high ↦
      let big = ltb→le r 10 high in
      rw (high, le→ltb (r + 97 - 10) 58 (omega arith)) (inr (omega arith, omega arith), omega arith)
]

-- The table of digits that the loops read.
hex_table : ℕ → Bool
hex_table r = get_or hex_digits r 0 == hex_char r

pub hex_digits_char : (r : ℕ) → r < 16 → get_or hex_digits r 0 ≡ hex_char r
unfolding hex_table all_below
hex_digits_char r lt = ==→eq _ _ (all_below_sound 16 hex_table r refl lt)
