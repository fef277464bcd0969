-- ===== src/CString/Print/Uitoa.antt =====
-- What `uitoa` writes.
use ppo_os.Common.{
  ℕ, zero, suc, ◌+◌, ◌/◌, ◌%◌, ◌^◌, ◌≤◌, ◌<◌, ◌≡◌, ◌≢◌, refl, List, [], arith, ne→==, le→ltb,
  get_or,
}
use ppo_os.CString.{Memory, write}
use ppo_os.CString.Print.{hex_digits, put_digits, uitoa}
use ppo_os.CString.Print.Reverse.{rev}
use ppo_os.CString.Print.Chars.{
  chars, put_chars, put_chars-IsWritten, IsWritten-reverse, Each-chars, chars-ne-nil,
}
use ppo_os.CString.Print.Spells.{
  Spells, Writes, pos_of_digit, chars-Spells, hex_char-Writes, hex_digits_char,
}
use ppo_os.CString.Str.Held.{Held}

abbrev table_char : ℕ → ℕ
table_char r = get_or hex_digits r 0

put_digits-put_chars :
    (rounds : ℕ) (m : Memory) (p n base : ℕ)
    → put_digits rounds m p n base ≡ put_chars table_char rounds m p n base
unfolding put_digits put_chars
put_digits-put_chars zero m p n base = refl
put_digits-put_chars (suc rounds) m p n base =
    rw (put_digits-put_chars rounds (write m p (table_char (n % base))) (p + 1) (n / base) base)
      refl

table_char-Writes : (base : ℕ) → base ≤ 16 → Writes table_char base
table_char-Writes base le r lt = rw (hex_digits_char r (omega arith)) (hex_char-Writes base le r lt)

-- For a value of 32 bits other than 0 and a base from 2 to 16, `uitoa` leaves a C string in the
-- buffer that is the numeral of the value in this base, in lower-case digits and without a leading
-- 0.
pub uitoa-Spells :
    (m : Memory) (value buffer base : ℕ)
    → 2 ≤ base
    → base ≤ 16
    → value < 2 ^ 32
    → value ≢ 0
    → (cs : List ℕ) × Held (uitoa m value buffer base) buffer cs × Spells base value cs
unfolding uitoa
uitoa-Spells m value buffer base two sixteen fits apart =
    let ds = chars table_char 32 value base in
    let written = put_chars-IsWritten table_char 32 m buffer value base in
    let writes = table_char-Writes base sixteen in
    let held =
      IsWritten-reverse m buffer ds (put_chars table_char 32 m buffer value base) written
        (chars-ne-nil table_char 31 value base apart)
        (Each-chars (λ c. 0 < c) table_char 32 value base
          (λ r lt. pos_of_digit (table_char r) (writes r lt).0) (omega arith)) in
    (
      rev ds [],
      rw
          (
            le→ltb base 2 two,
            le→ltb 16 base sixteen,
            ne→== value 0 apart,
            put_digits-put_chars 32 m buffer value base,
          )
          held,
      chars-Spells table_char 31 value base writes two fits apart,
    )
