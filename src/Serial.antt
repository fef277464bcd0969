-- ===== src/Serial.antt =====
-- kernel/src/src/serial.c: the port COM1. What the device answers to the reads of its status, one byte
-- for each read, is a list; `none` says that a function waits for ever. What is written to ports is
-- a list of ports and bytes.
pub mod Numeral
mod Tests
use ppo_os.Common.{
  ℕ, zero, suc, ◌+◌, ◌/◌, ◌%◌, List, [], ◌∷◌, ◌++◌, Option, none, some, bit_and, ◌==◌, get_or,
  if◌then◌else◌, option_case, codes,
}
use ppo_os.CString.{Memory, write}
use ppo_os.CString.Print.{hex_digits}

pub record Serial : Type 0 where
  pub statuses : List ℕ
  pub written : List (ℕ × ℕ)

-- PORT
abbrev pub port : ℕ
port = 0x3f8

abbrev pub outb : Serial → ℕ → ℕ → Serial
outb s p val = record s { written = s.written ++ (p, val) ∷ [] }

unfoldable pub serial_init : Serial → Serial
serial_init s =
    let s1 = outb s (port + 1) 0 in
    let s2 = outb s1 (port + 3) 0x80 in
    let s3 = outb s2 (port + 0) 3 in
    let s4 = outb s3 (port + 1) 0 in
    let s5 = outb s4 (port + 3) 3 in let s6 = outb s5 (port + 2) 0xC7 in outb s6 (port + 4) 0x0B

-- `while (is_transmit_empty() == 0);` with the statuses that are left behind it.
unfoldable pub wait_empty : List ℕ → Option (List ℕ)
wait_empty [] = none
wait_empty (status ∷ statuses) =
    let rest = wait_empty statuses in if bit_and status 0x20 == 0 then rest else some statuses

unfoldable pub serial_write_char : Serial → ℕ → Option Serial
serial_write_char s a =
    option_case (wait_empty s.statuses) none
      (λ statuses. some (outb (record s { statuses = statuses }) port a))

-- The bytes that `serial_write` is given.
unfoldable pub serial_write : List ℕ → Serial → Option Serial
serial_write [] s = some s
serial_write (c ∷ cs) s = option_case (serial_write_char s c) none (serial_write cs)

-- The digit loop of `serial_print_hex` where `i + 1` is the number of characters that are left; also the
-- number that is left behind it.
unfoldable pub put_hex_down : ℕ → Memory → ℕ → Memory × ℕ
put_hex_down zero buffer n = (buffer, 0)
put_hex_down (suc i) buffer n =
    let rest = put_hex_down i (write buffer i (get_or hex_digits (n % 16) 0)) (n / 16) in
    if n == 0 then (buffer, suc i) else rest

-- `while (i >= 0) buffer[i--] = '0';`
unfoldable pub pad_down : ℕ → Memory → Memory
pad_down zero buffer = buffer
pad_down (suc i) buffer = pad_down i (write buffer i 48)

-- The bytes of a memory from 0 on.
abbrev pub bytes_below : ℕ → Memory → List ℕ
bytes_below zero m = []
bytes_below (suc k) m = bytes_below k m ++ m k ∷ []

-- The 16 characters of `buffer`, which stands at 0 in a memory of its own.
unfoldable pub hex_buffer : Memory → ℕ → List ℕ
hex_buffer buffer n =
    let (digits, left) = put_hex_down 16 (write buffer 16 0) n in
    bytes_below 16 (pad_down left digits)

unfoldable pub serial_print_hex : Memory → ℕ → Serial → Option Serial
serial_print_hex buffer n s = option_case (serial_write (codes "0x") s) none λ prefixed.
    if n == 0 then serial_write_char prefixed 48 else serial_write (hex_buffer buffer n) prefixed
