-- ===== src/Common/Loops.antt =====
-- Counted loops.
use Prim.Native.Nat.{ℕ, zero, suc, ◌+◌, ◌<◌, ◌≤◌}
use mathlib.Core.Path.{◌≡◌, refl}
use native.Mathlib.Omega.{arith}

-- `for (k = first; k < first + rounds; k++) state = body k state;`
unfoldable pub for_range {ℓ} : {S : Type ℓ} → ℕ → ℕ → (ℕ → S → S) → S → S
for_range zero first body state = state
for_range (suc rounds) first body state = for_range rounds (first + 1) body (body first state)

-- A property of counter and state that every round below `last` passes on holds at `last`.
module _ {ℓ κ} {S : Type ℓ} (P : ℕ → S → Type κ) (body : ℕ → S → S) (last : ℕ)
    (keep : (k : ℕ) (state : S) → k < last → P k state → P (k + 1) (body k state)) where
  pub for_range_inv :
      (rounds first : ℕ) (state : S)
      → first + rounds ≡ last
      → P first state
      → P last (for_range rounds first body state)
  unfolding for_range
  for_range_inv zero first state total held =
      let at_end : first ≡ last = omega arith in rw (← at_end) held
  for_range_inv (suc rounds) first state total held =
      let step = keep first state (omega arith) held in
      for_range_inv rounds (first + 1) (body first state) (omega arith) step

-- Loops whose rounds do the same are the same.
pub for_range_same {ℓ} :
    {S : Type ℓ} (f g : ℕ → S → S) (rounds first : ℕ) (state : S)
    → ((k : ℕ) (s : S) → first ≤ k → k < first + rounds → f k s ≡ g k s)
    → for_range rounds first f state ≡ for_range rounds first g state
unfolding for_range
for_range_same f g zero first state same = refl
for_range_same f g (suc rounds) first state same =
    rw (same first state (omega arith) (omega arith)) (
      for_range_same f g rounds (first + 1) (g first state)
        (λ k s lo hi. same k s (omega arith) (omega arith)))
