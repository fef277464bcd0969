-- ===== src/Elf/RoundTrip.antt =====
-- Whether `my_atoi` reads what `my_itoa` writes.
use ppo_os.Common.{
  ℕ, zero, suc, ◌+◌, ◌-◌, ◌*◌, ◌/◌, ◌%◌, ◌^◌, ◌≤◌, ◌<◌, ◌≡◌, ◌≢◌, refl, sym, ap, ◌∙◌, List, [], ◌∷◌,
  ◌++◌, arith, Bool, false, none, some, ◌==◌, ne→==, ==→eq, ==→ne, lt→ltb, length-append,
  option_case, Bool-cases, inl, inr, length, get_or,
}
use ppo_os.Common.Int.{ℤ, pos, negsuc, pos_part, neg_part}
use ppo_os.CString.{Memory, write}
use ppo_os.CString.Print.Reverse.{rev, rev_snoc, length-rev, Each, NoNul, Each-rev, reverse-Held}
use ppo_os.CString.Print.Chars.{
  chars, put_chars, put_chars-IsWritten, IsWritten, number_of, number_of-chars, Each-chars,
  Each-snoc, IsWritten-snoc, length-chars, chars-ne-nil,
}
use ppo_os.CString.Str.Held.{Held}
use ppo_os.Elf.Numbers.{
  skip_spaces, is_digit, scan_digits, my_atoi, remainder_char, put_remainders, finish_text, my_itoa,
}

pub put_remainders-put_chars :
    (rounds : ℕ) (negative : Bool) (m : Memory) (p n base : ℕ)
    → put_remainders rounds negative m p n base
      ≡ put_chars (remainder_char negative) rounds m p n base
unfolding put_remainders put_chars
put_remainders-put_chars zero negative m p n base = refl
put_remainders-put_chars (suc rounds) negative m p n base =
    rw
      (put_remainders-put_chars rounds negative (write m p (remainder_char negative (n % base)))
        (p + 1) (n / base) base)
      refl

-- The digits as they are read.
abbrev pub IsDigit : ℕ → Type 0
IsDigit c = (48 ≤ c) × (c ≤ 57)

abbrev pub decimal_value : ℕ → List ℕ → ℕ
decimal_value result [] = result
decimal_value result (c ∷ cs) = decimal_value (result * 10 + (c - 48)) cs

le-decimal_value : (result : ℕ) (cs : List ℕ) → result ≤ decimal_value result cs
le-decimal_value result [] = omega arith
le-decimal_value result (c ∷ cs) = omega (arith, le-decimal_value (result * 10 + (c - 48)) cs)

scan_digits-Held :
    (fuel : ℕ) (m : Memory) (s result : ℕ) (cs : List ℕ)
    → length cs < fuel
    → Each IsDigit cs
    → Held m s cs
    → decimal_value result cs < 2 ^ 31
    → scan_digits fuel m s result ≡ some (decimal_value result cs)
unfolding scan_digits is_digit
scan_digits-Held zero m s result cs lt digits h fits = absurd (omega arith)
scan_digits-Held (suc fuel) m s result [] lt digits h fits = rw h refl
scan_digits-Held (suc fuel) m s result (c ∷ cs) lt digits (here, some_byte, h) fits =
    let (lo, hi) = digits 0 (omega arith) in
    let next = result * 10 + (c - 48) in
    let ih =
      scan_digits-Held fuel m (s + 1) next cs (omega arith) (λ i l. digits (suc i) (omega arith)) h
        fits in
    let small = lt→ltb next (2 ^ 31) (omega (arith, le-decimal_value next cs)) in
    rw (here, ih, small) (ground arith)

decimal_value-rev :
    (ds cs : List ℕ)
    → decimal_value 0 (rev ds cs) ≡ decimal_value (number_of (λ c. c - 48) 10 ds) cs
decimal_value-rev [] cs = refl
decimal_value-rev (d ∷ ds) cs = decimal_value-rev ds (d ∷ cs)

pub finish_text-Held :
    (m : Memory) (buffer : ℕ) (ds : List ℕ) (r : Memory × ℕ)
    → IsWritten m buffer ds r
    → 0 < length ds
    → NoNul ds
    → Held (finish_text r.0 r.1 buffer) buffer (rev ds [])
unfolding finish_text
finish_text-Held m buffer ds r w some_char some_byte =
    let rounds : buffer + length ds - buffer ≡ length ds = omega arith in
    rw (w.end_at, rounds) (reverse-Held r.0 buffer ds some_char w.laid some_byte)

abbrev pub digits : ℕ → List ℕ
digits n = chars (remainder_char false) 32 n 10

remainder_char-IsDigit : (r : ℕ) → r < 10 → IsDigit (remainder_char false r)
unfolding remainder_char
remainder_char-IsDigit r lt = ground arith

digits-Each : (n : ℕ) → Each IsDigit (digits n)
digits-Each n =
    Each-chars IsDigit (remainder_char false) 32 n 10 remainder_char-IsDigit (omega arith)

pub digits-NoNul : (n : ℕ) → NoNul (digits n)
digits-NoNul n i lt = let (lo, hi) = digits-Each n i lt in omega arith

number_of-digits : (n : ℕ) → n < 2 ^ 31 → number_of (λ c. c - 48) 10 (digits n) ≡ n
unfolding remainder_char
number_of-digits n lt =
    number_of-chars (remainder_char false) (λ c. c - 48) 32 n 10 (λ r small. ground arith)
      (omega arith) (omega arith)

pub digits-IsWritten :
    (m : Memory) (p n : ℕ) → IsWritten m p (digits n) (put_remainders 32 false m p n 10)
digits-IsWritten m p n =
    rw (put_remainders-put_chars 32 false m p n 10)
      (put_chars-IsWritten (remainder_char false) 32 m p n 10)

scan_digits-rev :
    (fuel : ℕ) (m : Memory) (s n : ℕ)
    → 32 < fuel
    → n < 2 ^ 31
    → Held m s (rev (digits n) [])
    → scan_digits fuel m s 0 ≡ some n
scan_digits-rev fuel m s n enough fits h =
    let value = decimal_value-rev (digits n) [] ∙ number_of-digits n fits in
    scan_digits-Held fuel m s 0 (rev (digits n) [])
      (omega (arith, length-rev (digits n) [], length-chars (remainder_char false) 32 n 10))
      (Each-rev IsDigit (digits n) (digits-Each n)) h (rw value fits)
    ∙ ap some value

Held-first : (m : Memory) (s : ℕ) (cs : List ℕ) → 0 < length cs → Held m s cs → m s ≡ get_or cs 0 0
Held-first m s [] some_char h = absurd (omega arith)
Held-first m s (c ∷ cs) some_char (here, _, _) = here

skip_spaces-none :
    (fuel : ℕ) (m : Memory) (s : ℕ) → 0 < fuel → m s ≢ 32 → skip_spaces fuel m s ≡ some s
unfolding skip_spaces
skip_spaces-none zero m s enough apart = absurd (omega arith)
skip_spaces-none (suc fuel) m s enough apart = rw (ne→== (m s) 32 apart) refl

module _ (fuel : ℕ) (m : Memory) (s n : ℕ) (enough : 34 < fuel) (fits : n < 2 ^ 31) where
  my_atoi-digits : n ≢ 0 → Held m s (rev (digits n) []) → my_atoi fuel m s ≡ some (pos n)
  unfolding my_atoi
  my_atoi-digits apart h =
      let some_char = chars-ne-nil (remainder_char false) 31 n 10 apart in
      let full = length-rev (digits n) [] in
      let first = Held-first m s (rev (digits n) []) (omega (arith, full)) h in
      let (lo, hi) = Each-rev IsDigit (digits n) (digits-Each n) 0 (omega (arith, full)) in
      let digit : (48 ≤ m s) × (m s ≤ 57) = rw first (lo, hi) in
      rw
        (
          skip_spaces-none fuel m s (omega arith) (omega arith),
          ne→== (m s) 45 (omega arith),
          ne→== (m s) 43 (omega arith),
          scan_digits-rev fuel m s n (omega arith) fits h,
        )
        refl

  my_atoi-minus :
      Held m s (45 ∷ rev (digits (suc n)) []) → suc n < 2 ^ 31 → my_atoi fuel m s ≡ some (negsuc n)
  unfolding my_atoi
  my_atoi-minus (here, some_byte, h) small =
      rw
        (
          skip_spaces-none fuel m s (omega arith) (omega arith),
          here,
          scan_digits-rev fuel m (s + 1) (suc n) (omega arith) small h,
        )
        (ground arith)

pub nought-Held : (m : Memory) (s : ℕ) → Held (write (write m s 48) (s + 1) 0) s (48 ∷ [])
nought-Held m s = (ground arith, omega arith, ground arith)

nought-IsDigit : Each IsDigit (48 ∷ [])
nought-IsDigit zero lt = (omega arith, omega arith)
nought-IsDigit (suc i) lt = absurd (omega arith)

my_atoi-nought :
    (fuel : ℕ) (m : Memory) (s : ℕ)
    → 34 < fuel
    → Held m s (48 ∷ [])
    → my_atoi fuel m s ≡ some (pos 0)
unfolding my_atoi
my_atoi-nought fuel m s enough h =
    let here = h.0 in
    rw
      (
        skip_spaces-none fuel m s (omega arith) (omega arith),
        here,
        scan_digits-Held fuel m s 0 (48 ∷ []) (omega arith) nought-IsDigit h (omega arith),
      )
      refl

-- For every integer whose absolute value is below 2^31, `my_itoa` in base 10 returns, and with
-- fuel above 34 `my_atoi` reads the same integer from the string that it leaves.
pub my_atoi-my_itoa :
    (fuel : ℕ) (m : Memory) (n : ℤ) (buffer : ℕ)
    → 34 < fuel
    → pos_part n < 2 ^ 31
    → neg_part n < 2 ^ 31
    → option_case (my_itoa m n buffer 10) none (λ m'. my_atoi fuel m' buffer) ≡ some n
unfolding my_itoa
my_atoi-my_itoa fuel m (pos n) buffer enough fits _ = elim (Bool-cases (n == 0)) [
  | inl nought ↦
      let is_zero = ==→eq n 0 nought in
      rw nought (
        my_atoi-nought fuel (write (write m buffer 48) (buffer + 1) 0) buffer (omega arith)
          (nought-Held m buffer)
        ∙ ap (λ k. some (pos k)) (sym is_zero))
  | inr more ↦ rw more (
      my_atoi-digits fuel _ buffer n enough fits (==→ne n 0 more) (
        finish_text-Held m buffer (digits n) _ (digits-IsWritten m buffer n)
          (chars-ne-nil (remainder_char false) 31 n 10 (==→ne n 0 more)) (digits-NoNul n)))
]
my_atoi-my_itoa fuel m (negsuc k) buffer enough _ fits =
    let ds = digits (suc k) in
    let r = put_remainders 32 false m buffer (suc k) 10 in
    let written = IsWritten-snoc m buffer ds 45 r.0 r.1 (digits-IsWritten m buffer (suc k)) in
    rw (ne→== (suc k) (2 ^ 31) (omega arith)) (
      my_atoi-minus fuel _ buffer k enough (omega arith)
        (let held =
            finish_text-Held m buffer (ds ++ 45 ∷ []) (write r.0 r.1 45, r.1 + 1) written
              (omega (arith, length-append ds (45 ∷ [])))
              (Each-snoc (λ c. 0 < c) 45 ds (omega arith) (digits-NoNul (suc k))) in
          rw (rev_snoc ds [] 45) at held)
        fits)
