-- ===== src/Elf/Hex.antt =====
-- The hexadecimal numerals of `my_itohex` and `my_itoa`.
use ppo_os.Common.{
  ℕ, zero, suc, ◌+◌, ◌-◌, ◌/◌, ◌%◌, ◌^◌, ◌<◌, ◌≡◌, ◌≢◌, ◌↔◌, ◌∙◌, ap, sym, inl, inr, refl, List, [],
  ◌∷◌, ◌++◌, Bool, true, false, some, arith, ltb, ne→==, ltb→lt, ltb→le, Bool-cases, get_or,
  length-append,
}
use ppo_os.CString.{Memory, write}
use ppo_os.CString.Print.{hex_digits}
use ppo_os.CString.Print.Reverse.{rev, rev_snoc, get_or-rev, length-rev}
use ppo_os.CString.Print.Chars.{
  chars, put_chars, put_chars-IsWritten, IsWritten-snoc, IsWritten-reverse, Each-chars, Each-snoc,
  chars-ne-nil,
}
use ppo_os.CString.Print.Spells.{
  Spells, IsHexDigit, Writes, pos_of_digit, chars-Spells, last_char, hex_char-Writes,
  hex_digits_char,
}
use ppo_os.CString.Str.Held.{Held, Held-cast}
use ppo_os.Elf.Numbers.{
  remainder_char, put_remainders, finish_text, my_itoa, put_hex_digits, my_itohex, to_int32,
}
use ppo_os.Elf.RoundTrip.{put_remainders-put_chars}

abbrev table_char : ℕ → ℕ
table_char r = get_or hex_digits r 0

put_hex_digits-put_chars :
    (rounds : ℕ) (m : Memory) (p n : ℕ)
    → put_hex_digits rounds m p n ≡ put_chars table_char rounds m p n 16
unfolding put_hex_digits put_chars
put_hex_digits-put_chars zero m p n = refl
put_hex_digits-put_chars (suc rounds) m p n =
    rw (put_hex_digits-put_chars rounds (write m p (table_char (n % 16))) (p + 1) (n / 16)) refl

table_char-Writes : Writes table_char 16
table_char-Writes r lt = rw (hex_digits_char r lt) (hex_char-Writes 16 (omega arith) r lt)

table_char-pos : (r : ℕ) → r < 16 → 0 < table_char r
table_char-pos r lt = pos_of_digit (table_char r) (table_char-Writes r lt).0

-- A number other than 0 is written as "0x" and its hexadecimal numeral.
pub my_itohex-Spells :
    (m : Memory) (n buffer : ℕ)
    → n < 2 ^ 32
    → n ≢ 0
    → (cs : List ℕ) × Held (my_itohex m n buffer) buffer (48 ∷ (120 ∷ cs)) × Spells 16 n cs
unfolding my_itohex finish_text
my_itohex-Spells m n buffer fits apart =
    let ds = chars table_char 32 n 16 in
    let r = put_chars table_char 32 m buffer n 16 in
    let digits = put_chars-IsWritten table_char 32 m buffer n 16 in
    let with_x = IsWritten-snoc m buffer ds 120 r.0 r.1 digits in
    let written =
      IsWritten-snoc m buffer (ds ++ 120 ∷ []) 48 (write r.0 r.1 120) (r.1 + 1) with_x in
    let some_byte = Each-chars (λ c. 0 < c) table_char 32 n 16 table_char-pos (omega arith) in
    let bytes =
      Each-snoc (λ c. 0 < c) 48 (ds ++ 120 ∷ []) (omega arith)
        (Each-snoc (λ c. 0 < c) 120 ds (omega arith) some_byte) in
    let held =
      IsWritten-reverse m buffer ((ds ++ 120 ∷ []) ++ 48 ∷ [])
        (write (write r.0 r.1 120) (r.1 + 1) 48, r.1 + 1 + 1) written
        (omega (arith, length-append (ds ++ 120 ∷ []) (48 ∷ []))) bytes in
    let order = rev_snoc (ds ++ 120 ∷ []) [] 48 in
    let order' = rev_snoc ds [] 120 in
    let two : r.1 + 1 + 1 ≡ r.1 + 2 = omega arith in
    (
      rev ds [],
      Held-cast buffer
          (sym (rw (ne→== n 0 apart, put_hex_digits-put_chars 32 m buffer n, ← two) refl))
          (order ∙ ap (λ cs. 48 ∷ cs) order') held,
      chars-Spells table_char 31 n 16 table_char-Writes (omega arith) fits apart,
    )

-- The digits of a negative number lie below '0' in the character set.
pub negative_char : (r : ℕ) → r < 16 → 0 < remainder_char true r
unfolding remainder_char
negative_char r lt = omega arith

negative_first :
    (n : ℕ)
    → n < 2 ^ 32
    → n ≢ 0
    → ¬ (IsHexDigit (get_or (rev (chars (remainder_char true) 32 n 16) []) 0 0))
unfolding remainder_char
negative_first n fits apart h =
    let ds = chars (remainder_char true) 32 n 16 in
    let (i, r, at, is, some_digit, small) =
      last_char (remainder_char true) 32 n 16 (omega arith) fits apart in
    let top = get_or-rev ds [] 0 i (omega (arith, at)) ∙ is in
    let bad : IsHexDigit (48 - r) = rw top at h in
    elim bad [ inl low ↦ absurd (omega arith) | inr high ↦ absurd (omega arith) ]

positive_char : Writes (remainder_char false) 16
unfolding remainder_char
positive_char = hex_char-Writes 16 (omega arith)

pub positive_pos : (r : ℕ) → r < 16 → 0 < remainder_char false r
positive_pos r lt = pos_of_digit (remainder_char false r) (positive_char r lt).0

pub hex_text :
    (negative : Bool) (m : Memory) (n buffer : ℕ)
    → n ≢ 0
    → ((r : ℕ) → r < 16 → 0 < remainder_char negative r)
    → (let r = put_remainders 32 negative m buffer n 16 in
        Held (finish_text r.0 r.1 buffer) buffer (rev (chars (remainder_char negative) 32 n 16) []))
unfolding finish_text
hex_text negative m n buffer apart bytes =
    let ds = chars (remainder_char negative) 32 n 16 in
    rw (put_remainders-put_chars 32 negative m buffer n 16) (
      IsWritten-reverse m buffer ds _
        (put_chars-IsWritten (remainder_char negative) 32 m buffer n 16)
        (chars-ne-nil (remainder_char negative) 31 n 16 apart)
        (Each-chars (λ c. 0 < c) (remainder_char negative) 32 n 16 bytes (omega arith)))

-- For an address of 32 bits other than 0, converted to `int`, `my_itoa` in base 16 returns and
-- leaves a C string, which is the hexadecimal numeral of the address exactly if the address is
-- below 2^31.
pub my_itoa-Spells_iff :
    (m : Memory) (x buffer : ℕ)
    → x < 2 ^ 32
    → x ≢ 0
    → (m' : Memory) × (cs : List ℕ) × (my_itoa m (to_int32 x) buffer 16 ≡ some m')
      × Held m' buffer cs
      × (Spells 16 x cs ↔ (x < 2 ^ 31))
unfolding my_itoa to_int32
my_itoa-Spells_iff m x buffer fits apart =
    let low : x % 2 ^ 32 ≡ x = omega arith in
    elim (Bool-cases (ltb x (2 ^ 31))) [
      | inl small ↦
          let r = put_remainders 32 false m buffer x 16 in
          (
            finish_text r.0 r.1 buffer,
            rev (chars (remainder_char false) 32 x 16) [],
            rw (low, small, ne→== x 0 apart) refl,
            hex_text false m x buffer apart positive_pos,
            (
              λ _. ltb→lt x (2 ^ 31) small,
              λ _.
                  chars-Spells (remainder_char false) 31 x 16 positive_char (omega arith) fits
                    apart,
            ),
          )
      | inr large ↦
          let k = 2 ^ 32 - x - 1 in
          let r = put_remainders 32 true m buffer (suc k) 16 in
          let cs = rev (chars (remainder_char true) 32 (suc k) 16) [] in
          let le = ltb→le x (2 ^ 31) large in
          let some_char = chars-ne-nil (remainder_char true) 31 (suc k) 16 (omega arith) in
          (
            finish_text r.0 r.1 buffer,
            cs,
            rw (low, large) refl,
            hex_text true m (suc k) buffer (omega arith) negative_char,
            (
              λ s. absurd (
                  negative_first (suc k) (omega arith) (omega arith) (
                    s.each 0 (
                      omega (
                        arith,
                        some_char,
                        length-rev (chars (remainder_char true) 32 (suc k) 16) [],
                      )))),
              λ lt. absurd (omega arith),
            ),
          )
    ]
