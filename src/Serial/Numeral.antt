-- ===== src/Serial/Numeral.antt =====
-- What `serial_print_hex` sends.
use native.Mathlib.Nat.{pow-suc}
use mathlib.Core.Path.{subst}
use ppo_os.Common.{
  ℕ, zero, suc, ◌+◌, ◌*◌, ◌/◌, ◌%◌, ◌^◌, ◌≤◌, ◌<◌, ◌≡◌, ◌≢◌, refl, sym, ap, ◌∙◌, List, [], ◌∷◌,
  ◌++◌, some, arith, ◌==◌, ne→==, eq→==, ==→eq, Bool-cases, inl, inr, length, length-append,
  append-nil, append_assoc, get_or, bit_and, if◌then◌else◌, codes,
}
use ppo_os.CString.{Memory, write}
use ppo_os.CString.Print.{hex_digits}
use ppo_os.CString.Print.Chars.{Each-snoc}
use ppo_os.CString.Print.Reverse.{Each}
use ppo_os.CString.Print.Spells.{IsHexDigit, numeral, hex_value, hex_char-Writes, hex_digits_char}
use ppo_os.Serial.{
  Serial, port, outb, wait_empty, serial_write_char, serial_write, put_hex_down, pad_down,
  bytes_below, hex_buffer, serial_print_hex,
}

-- Both loops together: a digit for each character, also where the number has become 0.
all_down : ℕ → Memory → ℕ → Memory
all_down zero buffer n = buffer
all_down (suc i) buffer n = all_down i (write buffer i (get_or hex_digits (n % 16) 0)) (n / 16)

all_down-pad_down : (left : ℕ) (buffer : Memory) → all_down left buffer 0 ≡ pad_down left buffer
unfolding all_down pad_down
all_down-pad_down zero buffer = refl
all_down-pad_down (suc i) buffer = all_down-pad_down i (write buffer i 48)

all_down_lem :
    (left : ℕ) (buffer : Memory) (n : ℕ)
    → (let r = put_hex_down left buffer n in pad_down r.1 r.0) ≡ all_down left buffer n
unfolding all_down put_hex_down pad_down
all_down_lem zero buffer n = all_down-pad_down 0 buffer
all_down_lem (suc i) buffer n = elim (Bool-cases (n == 0)) [
  | inl done ↦
      let is_zero = ==→eq n 0 done in rw (done, is_zero) (sym (all_down-pad_down (suc i) buffer))
  | inr more ↦ rw more (all_down_lem i (write buffer i (get_or hex_digits (n % 16) 0)) (n / 16))
]

all_down_above :
    (left : ℕ) (buffer : Memory) (n a : ℕ) → left ≤ a → all_down left buffer n a ≡ buffer a
unfolding all_down
all_down_above zero buffer n a le = refl
all_down_above (suc i) buffer n a le =
    all_down_above i (write buffer i (get_or hex_digits (n % 16) 0)) (n / 16) a (omega arith)
    ∙ rw (ne→== a i (omega arith)) refl

numeral_snoc :
    (n : ℕ) (cs : List ℕ) (c : ℕ) → numeral 16 n (cs ++ c ∷ []) ≡ numeral 16 n cs * 16 + hex_value c
numeral_snoc n [] c = refl
numeral_snoc n (d ∷ cs) c = numeral_snoc (n * 16 + hex_value d) cs c

numeral-all_down :
    (left : ℕ) (buffer : Memory) (n : ℕ)
    → n < 16 ^ left
    → numeral 16 0 (bytes_below left (all_down left buffer n)) ≡ n
unfolding all_down
numeral-all_down zero buffer n lt = omega arith
numeral-all_down (suc i) buffer n lt =
    let digit = get_or hex_digits (n % 16) 0 in
    let ih = numeral-all_down i (write buffer i digit) (n / 16) (omega (arith, pow-suc 16 i)) in
    let last : all_down i (write buffer i digit) (n / 16) i ≡ digit =
      all_down_above i (write buffer i digit) (n / 16) i (omega arith) ∙ rw (eq→== i i refl) refl in
    let char = hex_digits_char (n % 16) (omega arith) in
    let value = (hex_char-Writes 16 (omega arith) (n % 16) (omega arith)).1 in
    numeral_snoc 0 (bytes_below i (all_down i (write buffer i digit) (n / 16)))
      (all_down i (write buffer i digit) (n / 16) i)
    ∙ rw (ih, last, char, value) (omega arith)

Each-all_down :
    (left : ℕ) (buffer : Memory) (n : ℕ)
    → Each IsHexDigit (bytes_below left (all_down left buffer n))
unfolding all_down
Each-all_down zero buffer n = λ i lt. absurd (omega arith)
Each-all_down (suc i) buffer n =
    let digit = get_or hex_digits (n % 16) 0 in
    let last : all_down i (write buffer i digit) (n / 16) i ≡ digit =
      all_down_above i (write buffer i digit) (n / 16) i (omega arith) ∙ rw (eq→== i i refl) refl in
    let char = hex_digits_char (n % 16) (omega arith) in
    let is_digit = (hex_char-Writes 16 (omega arith) (n % 16) (omega arith)).0 in
    Each-snoc IsHexDigit (all_down i (write buffer i digit) (n / 16) i)
      (bytes_below i (all_down i (write buffer i digit) (n / 16))) (rw (last, char) is_digit)
      (Each-all_down i (write buffer i digit) (n / 16))

-- How often the device says that it can take a byte.
unfoldable pub ready : List ℕ → ℕ
ready [] = 0
ready (status ∷ statuses) =
    if bit_and status 0x20 == 0 then ready statuses else suc (ready statuses)

abbrev pub sent : List ℕ → List (ℕ × ℕ)
sent [] = []
sent (c ∷ cs) = (port, c) ∷ sent cs

pub record IsSent (cs : List ℕ) (s s' : Serial) : Type 0 where
  pub written : s'.written ≡ s.written ++ sent cs
  pub left : ready s'.statuses + length cs ≡ ready s.statuses

wait_empty-ready :
    (statuses : List ℕ)
    → 0 < ready statuses
    → (rest : List ℕ) × (wait_empty statuses ≡ some rest) × (ready rest + 1 ≡ ready statuses)
unfolding wait_empty ready
wait_empty-ready [] = λ h. absurd (omega arith)
wait_empty-ready (status ∷ statuses) = elim (Bool-cases (bit_and status 0x20 == 0)) [
  | inl busy ↦ rw busy (wait_empty-ready statuses)
  | inr free ↦ rw free (λ _. (statuses, refl, omega arith))
]

-- If the device says at least as often as there are bytes that it can take one, `serial_write`
-- returns, has sent the bytes in order, and has used that many of these answers.
pub serial_write-IsSent :
    (cs : List ℕ) (s : Serial)
    → length cs ≤ ready s.statuses
    → (s' : Serial) × (serial_write cs s ≡ some s') × IsSent cs s s'
unfolding serial_write serial_write_char
serial_write-IsSent [] s enough =
    (s, refl, record { written = sym (append-nil s.written); left = omega arith })
serial_write-IsSent (c ∷ cs) s enough =
    let (rest, e, fewer) = wait_empty-ready s.statuses (omega arith) in
    let next = outb (record s { statuses = rest }) port c in
    let (s', e', is) = serial_write-IsSent cs next (omega arith) in
    rw e (
      s',
      e',
      record {
        written = is.written ∙ append_assoc s.written ((port, c) ∷ []) (sent cs);
        left = omega (arith, is.left);
      },
    )

sent-append : (cs ds : List ℕ) → sent (cs ++ ds) ≡ sent cs ++ sent ds
sent-append [] ds = refl
sent-append (c ∷ cs) ds = ap (λ l. (port, c) ∷ l) (sent-append cs ds)

IsSent-append :
    (cs ds : List ℕ) {s s1 s2 : Serial} → IsSent cs s s1 → IsSent ds s1 s2 → IsSent (cs ++ ds) s s2
IsSent-append cs ds {s} first second = record {
  written =
      second.written
      ∙ ap (λ l. l ++ sent ds) first.written
      ∙ append_assoc s.written (sent cs) (sent ds)
      ∙ ap (λ l. s.written ++ l) (sym (sent-append cs ds));
  left = omega (arith, first.left, second.left, length-append cs ds);
}

length-bytes_below : (k : ℕ) (m : Memory) → length (bytes_below k m) ≡ k
length-bytes_below zero m = refl
length-bytes_below (suc k) m =
    omega (arith, length-append (bytes_below k m) (m k ∷ []), length-bytes_below k m)

-- If the device is ready at least 18 times, `serial_print_hex` of a number below 2^64 other than 0
-- returns and has sent "0x" and 16 characters, each one of 0 to 9 and a to f, that as a
-- hexadecimal numeral stand for the number.
pub serial_print_hex-numeral :
    (buffer : Memory) (n : ℕ) (s : Serial)
    → n < 2 ^ 64
    → n ≢ 0
    → 18 ≤ ready s.statuses
    → (s' : Serial) × (cs : List ℕ) × (serial_print_hex buffer n s ≡ some s')
      × IsSent (48 ∷ (120 ∷ cs)) s s'
      × (length cs ≡ 16)
      × Each IsHexDigit cs
      × (numeral 16 0 cs ≡ n)
unfolding serial_print_hex hex_buffer
serial_print_hex-numeral buffer n s fits apart enough =
    let r = put_hex_down 16 (write buffer 16 0) n in
    let m = pad_down r.1 r.0 in
    let cs = bytes_below 16 m in
    let size = length-bytes_below 16 m in
    let (s1, e1, first) = serial_write-IsSent (codes "0x") s (omega arith) in
    let (s2, e2, second) = serial_write-IsSent cs s1 (omega (arith, first.left, size)) in
    let digits =
      subst (λ b. Each IsHexDigit (bytes_below 16 b)) (sym (all_down_lem 16 (write buffer 16 0) n))
        (Each-all_down 16 (write buffer 16 0) n) in
    let value =
      ap (λ b. numeral 16 0 (bytes_below 16 b)) (all_down_lem 16 (write buffer 16 0) n)
      ∙ numeral-all_down 16 (write buffer 16 0) n (omega arith) in
    (
      s2,
      cs,
      rw (e1, ne→== n 0 apart) e2,
      IsSent-append (codes "0x") cs first second,
      size,
      digits,
      value,
    )
