-- ===== src/Syscall/Decimal.antt =====
-- The exit message of `sys_exit`.
use ppo_os.Common.{
  ℕ, zero, suc, ◌+◌, ◌-◌, ◌*◌, ◌/◌, ◌%◌, ◌^◌, ◌<◌, ◌≡◌, refl, Bool, true, List, [], ◌∷◌, ◌++◌,
  arith, leb, ◌==◌, ◌&&◌, Bool-cases, inl, inr, ==→eq, ap, ◌∙◌,
}
use native.Mathlib.Nat.{pow-suc}
use ppo_os.Syscall.{Kernel, sys_exit, decimal, digits, exit_msg}

-- The number that a list of decimal digits writes, after the digits of `n`.
abbrev pub decimal_value : ℕ → List ℕ → ℕ
decimal_value n [] = n
decimal_value n (c ∷ l) = decimal_value (n * 10 + (c - 48)) l

abbrev pub all_digits : List ℕ → Bool
all_digits [] = true
all_digits (c ∷ l) = leb 48 c && leb c 57 && all_digits l

digits_lem :
    (fuel n : ℕ) (l : List ℕ)
    → n < 10 ^ fuel
    → all_digits l ≡ true
    → (decimal_value 0 (digits fuel n l) ≡ decimal_value n l)
      × (all_digits (digits fuel n l) ≡ true)
unfolding digits
digits_lem zero n l lt h = let z : n ≡ 0 = omega arith in rw z (refl, h)
digits_lem (suc fuel) n l lt h = elim (Bool-cases (n == 0)) [
  | inl e ↦ rw (e, ==→eq n 0 e) (refl, h)
  | inr e ↦
      let digit : all_digits ((48 + n % 10) ∷ l) ≡ true = ground arith in
      let (value, all) =
        digits_lem fuel (n / 10) ((48 + n % 10) ∷ l) (omega (arith, pow-suc 10 fuel)) digit in
      let whole : n / 10 * 10 + (48 + n % 10 - 48) ≡ n = omega arith in
      rw e (value ∙ ap (λ (k : ℕ). decimal_value k l) whole, all)
]

-- With a terminal and an exit code below 2^64, `sys_exit` prints its message, then decimal digits
-- that write the code, then a line feed.
pub sys_exit-output :
    {S : Type 0} (s : Kernel S) (code : ℕ)
    → s.has_terminal ≡ true
    → code < 2 ^ 64
    → (l : List ℕ) × ((sys_exit s code).0.output ≡ s.output ++ (exit_msg ++ l ++ (10 ∷ [])))
      × (decimal_value 0 l ≡ code)
      × (all_digits l ≡ true)
unfolding sys_exit
sys_exit-output s code terminal lt = elim (Bool-cases (code == 0)) [
  | inl e ↦ (decimal code, rw terminal refl, rw (==→eq code 0 e) refl, rw e refl)
  | inr e ↦
      let (value, all) = digits_lem 20 code [] (omega arith) refl in
      (decimal code, rw terminal refl, rw e value, rw e all)
]
