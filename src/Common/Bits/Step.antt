-- ===== src/Common/Bits/Step.antt =====
-- A law of `|` and of `&` for the lowest binary digit. The native operations are a recursion on
-- digits with fuel, where fuel beyond the first number does not matter.
use Prim.Native.Nat.{
  ℕ, zero, suc, ◌+◌, ◌-◌, ◌*◌, ◌/◌, ◌%◌, ◌≤◌, min, max, digits, bitwise, bit_and, bit_or,
  bit_and-bitwise, bit_or-bitwise,
}
use mathlib.Core.Path.{◌≡◌, refl, ◌∙◌}
use native.Mathlib.Omega.{arith}

module _ (right : ℕ → ℕ) (join : ℕ → ℕ → ℕ) where
  one_more :
      (fuel x y : ℕ) → x ≤ fuel → digits right join (suc fuel) x y ≡ digits right join fuel x y
  one_more zero zero y le = refl
  one_more zero (suc x) y le = absurd (omega arith)
  one_more (suc fuel) zero y le = refl
  one_more (suc fuel) (suc x) y le = rw (one_more fuel (suc x / 2) (y / 2) (omega arith)) refl

  spare :
      (extra fuel total x y : ℕ)
      → total ≡ fuel + extra
      → x ≤ fuel
      → digits right join total x y ≡ digits right join fuel x y
  spare zero fuel total x y e le = let same : total ≡ fuel = omega arith in rw same refl
  spare (suc extra) fuel total x y e le =
      let next : total ≡ suc (fuel + extra) = omega arith in
      rw next
        (one_more (fuel + extra) x y (omega arith) ∙ spare extra fuel (fuel + extra) x y refl le)

  -- The digits of a positive number: those of its half, then the lowest.
  halve :
      (x y : ℕ)
      → bitwise right join (suc x) y
        ≡ bitwise right join (suc x / 2) (y / 2) * 2 + join (suc x % 2) (y % 2)
  halve x y =
      let half : ℕ = suc x / 2 in
      omega (arith, spare (x - half) half x half (y / 2) (omega arith) (omega arith))

pub bit_and_step : (m n : ℕ) → bit_and m n ≡ bit_and (m / 2) (n / 2) * 2 + min (m % 2) (n % 2)
bit_and_step zero n = simp bit_and-bitwise (omega arith)
bit_and_step (suc m) n = simp bit_and-bitwise (halve (λ k. 0) min m n)

pub bit_or_step : (m n : ℕ) → bit_or m n ≡ bit_or (m / 2) (n / 2) * 2 + max (m % 2) (n % 2)
bit_or_step zero n = simp bit_or-bitwise (omega arith)
bit_or_step (suc m) n = simp bit_or-bitwise (halve (λ k. k) max m n)
