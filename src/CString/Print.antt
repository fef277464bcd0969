-- ===== src/CString/Print.antt =====
-- uitoa and ultoa_hex of kernel/src/lib/string.c. A number of 32 bits has at most 32 digits, so 32 rounds
-- of the digit loop are enough.
pub mod Reverse
pub mod Chars
pub mod Uitoa
pub mod Spells
use ppo_os.Common.{
  ℕ, zero, suc, ◌+◌, ◌-◌, ◌*◌, ◌/◌, ◌%◌, ◌^◌, Bool, true, false, not, ◌||◌, List, [], ◌∷◌, ltb,
  ◌==◌, get_or, if◌then◌else◌,
}
use ppo_os.CString.{Memory, write}

-- "0123456789abcdef"
abbrev pub hex_digits : List ℕ
hex_digits = 48 ∷ 49 ∷ 50 ∷ 51 ∷ 52 ∷ 53 ∷ 54 ∷ 55 ∷ 56 ∷ 57 ∷ 97 ∷ 98 ∷ 99 ∷ 100 ∷ 101 ∷ 102 ∷ []

-- `*ptr++ = "0123456789abcdef"[tmp_value % base]` while the value is not 0; also the final `ptr`.
unfoldable pub put_digits : ℕ → Memory → ℕ → ℕ → ℕ → Memory × ℕ
put_digits zero m ptr value base = (m, ptr)
put_digits (suc rounds) m ptr value base =
    let rest =
      put_digits rounds (write m ptr (get_or hex_digits (value % base) 0)) (ptr + 1) (value / base)
        base in
    if value == 0 then (m, ptr) else rest

-- `while (ptr1 < ptr)` swaps the ends; the distance halves, so it bounds the rounds.
unfoldable pub reverse : ℕ → Memory → ℕ → ℕ → Memory
reverse zero m first last = m
reverse (suc rounds) m first last =
    let rest =
      reverse rounds (write (write m last (m first)) first (m last)) (first + 1) (last - 1) in
    if ltb first last then rest else m

unfoldable pub uitoa : Memory → ℕ → ℕ → ℕ → Memory
uitoa m value buffer base =
    if ltb base 2 || ltb 16 base
    then write m buffer 0
    else if value == 0
    then write (write m buffer 48) (buffer + 1) 0
    else let (written, ptr) = put_digits 32 m buffer value base in
      reverse (ptr - buffer) (write written ptr 0) buffer (ptr - 1)

-- The loop of `ultoa_hex` with `digits` digits to go.
unfoldable pub put_hex : ℕ → Memory → ℕ → ℕ → Bool → Memory × ℕ
put_hex zero m ptr value leading_zero = (m, ptr)
put_hex (suc digits) m ptr value leading_zero =
    let digit = value / 2 ^ (4 * digits) % 16 in
    let after = put_hex digits (write m ptr (get_or hex_digits digit 0)) (ptr + 1) value false in
    let skip = put_hex digits m ptr value leading_zero in
    if not (digit == 0) || not leading_zero || (digits == 0) then after else skip

unfoldable pub ultoa_hex : Memory → ℕ → ℕ → Memory
ultoa_hex m value buffer =
    if value == 0
    then write (write m buffer 48) (buffer + 1) 0
    else let (written, ptr) = put_hex 16 m buffer value true in write written ptr 0
