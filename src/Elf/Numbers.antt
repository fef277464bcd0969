-- ===== src/Elf/Numbers.antt =====
-- my_atoi, my_itoa and my_itohex of kernel/src/src/elf.c, over C strings in a memory of bytes. An `int`
-- is an integer between -2^31 and 2^31 - 1, and `none` says that one overflows. A number of 32 bits
-- has at most 32 digits, so 32 rounds of a digit loop are enough, and fuel above the length of a
-- string is enough to read it. The bases are at most 16.
use ppo_os.Common.{
  ℕ, zero, suc, ◌+◌, ◌-◌, ◌*◌, ◌/◌, ◌%◌, ◌^◌, Bool, true, false, ◌&&◌, ◌||◌, Option, none, some,
  ltb, leb, ◌==◌, get_or, if◌then◌else◌, option_case,
}
use ppo_os.Common.Int.{ℤ, pos, negsuc, sub_ℕ}
use ppo_os.CString.{Memory, write}
use ppo_os.CString.Print.{hex_digits, reverse}

-- `while (*str == ' ') str++;`
unfoldable pub skip_spaces : ℕ → Memory → ℕ → Option ℕ
skip_spaces zero m str = none
skip_spaces (suc fuel) m str =
    let rest = skip_spaces fuel m (str + 1) in if m str == 32 then rest else some str

unfoldable pub is_digit : ℕ → Bool
is_digit c = leb 48 c && leb c 57

-- The loop over the digits.
unfoldable pub scan_digits : ℕ → Memory → ℕ → ℕ → Option ℕ
scan_digits zero m str result = none
scan_digits (suc fuel) m str result =
    let next = result * 10 + (m str - 48) in
    let rest = scan_digits fuel m (str + 1) next in
    if is_digit (m str) then (if ltb next (2 ^ 31) then rest else none) else some result

unfoldable pub my_atoi : ℕ → Memory → ℕ → Option ℤ
my_atoi fuel m s = option_case (skip_spaces fuel m s) none λ str.
    let negative = m str == 45 in
    let signed = negative || (m str == 43) in
    option_case (scan_digits fuel m (if signed then str + 1 else str) 0) none
      λ result. some (if negative then sub_ℕ 0 result else pos result)

-- The character of a remainder. The remainder of a negative number is negative or 0.
unfoldable pub remainder_char : Bool → ℕ → ℕ
remainder_char negative r = if negative then 48 - r else if ltb r 10 then r + 48 else r + 97 - 10

-- `while (n != 0)` for a number of this sign and absolute value; also the end of what is written.
unfoldable pub put_remainders : ℕ → Bool → Memory → ℕ → ℕ → ℕ → Memory × ℕ
put_remainders zero negative m p n base = (m, p)
put_remainders (suc rounds) negative m p n base =
    let rest =
      put_remainders rounds negative (write m p (remainder_char negative (n % base))) (p + 1)
        (n / base) base in
    if n == 0 then (m, p) else rest

-- The NUL at `p` and the reversal, whose loop is that of `uitoa`.
unfoldable pub finish_text : Memory → ℕ → ℕ → Memory
finish_text m p buffer = reverse (p - buffer) (write m p 0) buffer (p - 1)

unfoldable pub my_itoa : Memory → ℤ → ℕ → ℕ → Option Memory
my_itoa m (pos n) buffer base =
    let (written, p) = put_remainders 32 false m buffer n base in
    if n == 0
    then some (write (write m buffer 48) (buffer + 1) 0)
    else some (finish_text written p buffer)
my_itoa m (negsuc k) buffer base =
    let (decimal, p) = put_remainders 32 false m buffer (suc k) base in
    let (written, q) = put_remainders 32 true m buffer (suc k) base in
    if base == 10
    then (if suc k == 2 ^ 31 then none else some (finish_text (write decimal p 45) (p + 1) buffer))
    else some (finish_text written q buffer)

-- The digit loop of `my_itohex`.
unfoldable pub put_hex_digits : ℕ → Memory → ℕ → ℕ → Memory × ℕ
put_hex_digits zero m p n = (m, p)
put_hex_digits (suc rounds) m p n =
    let rest = put_hex_digits rounds (write m p (get_or hex_digits (n % 16) 0)) (p + 1) (n / 16) in
    if n == 0 then (m, p) else rest

unfoldable pub my_itohex : Memory → ℕ → ℕ → Memory
my_itohex m n buffer =
    let (written, p) = put_hex_digits 32 m buffer n in
    if n == 0
    then write (write m buffer 48) (buffer + 1) 0
    else finish_text (write (write written p 120) (p + 1) 48) (p + 2) buffer

-- The conversion of 32 bits, or of the lowest of more, to `int`.
unfoldable pub to_int32 : ℕ → ℤ
to_int32 x = let low = x % 2 ^ 32 in if ltb low (2 ^ 31) then pos low else negsuc (2 ^ 32 - low - 1)
