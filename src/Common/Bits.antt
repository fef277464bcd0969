-- ===== src/Common/Bits.antt =====
-- `|` and `&` of C at variables: a law for the lowest binary digit, and what follows from it for
-- every width.
mod Step
pub use Step.{bit_or_step, bit_and_step}
use Prim.Native.Nat.{
  ℕ, zero, suc, ◌+◌, ◌-◌, ◌*◌, ◌/◌, ◌%◌, ◌^◌, ◌<◌, ◌≤◌, bit_and, bit_or, bit_or-bitwise,
}
use mathlib.Core.Path.{◌≡◌, refl, ap, ap₂, sym, ◌∙◌}
use mathlib.Core.Logic.{◌⊎◌, inl, inr}
use mathlib.Core.Bool.{Bool, true, ◌&&◌}
use native.Mathlib.Nat.{pow-suc, pow-succ', one-le-pow, div-div-eq-div-mul}
use native.Mathlib.Omega.{arith}
use ppo_os.Common.Tests.{tests}

-- Checks a test at every number below the first argument.
unfoldable pub all_below : ℕ → (ℕ → Bool) → Bool
all_below zero test = true
all_below (suc bound) test = test bound && all_below bound test

pub all_below_sound :
    (bound : ℕ) (test : ℕ → Bool) (k : ℕ) → all_below bound test ≡ true → k < bound → test k ≡ true
unfolding all_below
all_below_sound zero test k all lt = absurd (omega arith)
all_below_sound (suc bound) test k all lt = ground (arith, all_below_sound bound test k)

-- By recursion on a bound of the number, since its half is no direct part of it.
by_halves :
    (op : ℕ → ℕ → ℕ) (out : ℕ → ℕ)
    → op 0 0 ≡ out 0
    → ((m : ℕ) → op (m / 2) 0 ≡ out (m / 2) → op m 0 ≡ out m)
    → (bound m : ℕ) → m ≤ bound
    → op m 0 ≡ out m
by_halves op out start descend zero m le = let none_left : m ≡ 0 = omega arith in rw none_left start
by_halves op out start descend (suc bound) m le = elim (zero_or m) [
  | inl z ↦ rw z start
  | inr p ↦ descend m (by_halves op out start descend bound (m / 2) (omega arith))
]
  where
    zero_or : (m : ℕ) → (m ≡ 0) ⊎ (0 < m)
    zero_or m = omega arith

pub bit_or-zero : (a : ℕ) → bit_or a 0 ≡ a
bit_or-zero a =
    by_halves bit_or (λ m. m) refl (λ m half. omega (arith, bit_or_step m 0, half)) a a
      (omega arith)

pub bit_and-zero : (a : ℕ) → bit_and a 0 ≡ 0
bit_and-zero a =
    by_halves bit_and (λ m. 0) refl (λ m half. omega (arith, bit_and_step m 0, half)) a a
      (omega arith)

double_shift : (n width : ℕ) → n * 2 ^ suc width ≡ 2 * (n * 2 ^ width)
double_shift n width =
    let power : 2 ^ suc width ≡ 2 * 2 ^ width = omega (arith, pow-suc 2 width) in
    rw power (omega arith)

-- A multiple of `2 ^ width` or-ed with `width` low bits is their sum.
pub bit_or_fields :
    (width high low : ℕ) → low < 2 ^ width → bit_or (high * 2 ^ width) low ≡ high * 2 ^ width + low
bit_or_fields zero high low fits = ground (arith, bit_or-zero high)
bit_or_fields (suc width) high low fits =
    let narrow : low / 2 < 2 ^ width = omega (arith, pow-suc 2 width) in
    ground (
      arith,
      double_shift high width,
      bit_or_fields width high (low / 2) narrow,
      bit_or_step (high * 2 ^ suc width) low,
    )

bit_and_fields : (k q r : ℕ) → r < 2 ^ k → bit_and (q * 2 ^ k + r) (2 ^ k - 1) ≡ r
bit_and_fields zero q r fits = omega (arith, bit_and-zero (q * 1 + r))
bit_and_fields (suc k) q r fits = ground (
  arith,
  bit_and_step (q * 2 ^ suc k + r) (2 ^ suc k - 1),
  double_shift q k,
  pow-suc 2 k,
  one-le-pow k 2,
  bit_and_fields k q (r / 2) (omega (arith, pow-suc 2 k)),
)

-- A mask of `k` low bits is the remainder by `2 ^ k`.
pub bit_and_mask : (k a : ℕ) → bit_and a (2 ^ k - 1) ≡ a % 2 ^ k
bit_and_mask k a = ground (arith, one-le-pow k 2, bit_and_fields k (a / 2 ^ k) (a % 2 ^ k))

-- A mask whose low `k` bits are clear acts on the bits above them.
pub bit_and_fields_high : (k a q : ℕ) → bit_and a (q * 2 ^ k) ≡ bit_and (a / 2 ^ k) q * 2 ^ k
bit_and_fields_high zero a q =
    let e : q * 2 ^ 0 ≡ q = omega arith in
    let d : a / 2 ^ 0 ≡ a = omega arith in rw (e, d) (omega arith)
bit_and_fields_high (suc k) a q =
    let half : q * 2 ^ suc k / 2 ≡ q * 2 ^ k = omega (arith, double_shift q k) in
    let split : a / 2 / 2 ^ k ≡ a / 2 ^ suc k =
      div-div-eq-div-mul a 2 (2 ^ k) ∙ ap (λ (t : ℕ). a / t) (sym (pow-succ' 2 k)) in
    omega (
      arith,
      bit_and_step a (q * 2 ^ suc k),
      double_shift q k,
      ap (λ (t : ℕ). bit_and (a / 2) t) half,
      bit_and_fields_high k (a / 2) q,
      ap (λ (t : ℕ). bit_and t q * 2 ^ k) split,
      double_shift (bit_and (a / 2 ^ suc k) q) k,
    )

pub zero-bit_or : (b : ℕ) → bit_or 0 b ≡ b
zero-bit_or b = bit_or-bitwise 0 b

-- Bits from `k` on and those below are or-ed apart.
pub bit_or_split :
    (k a b c d : ℕ)
    → c < 2 ^ k
    → d < 2 ^ k
    → bit_or (a * 2 ^ k + c) (b * 2 ^ k + d) ≡ bit_or a b * 2 ^ k + bit_or c d
bit_or_split zero a b c d hc hd =
    let ec : c ≡ 0 = omega arith in
    let ed : d ≡ 0 = omega arith in
    let ea : a * 2 ^ 0 + 0 ≡ a = omega arith in
    let eb : b * 2 ^ 0 + 0 ≡ b = omega arith in rw (ec, ed, ea, eb) (omega (arith, zero-bit_or 0))
bit_or_split (suc k) a b c d hc hd =
    let ha : (a * 2 ^ suc k + c) / 2 ≡ a * 2 ^ k + c / 2 = omega (arith, double_shift a k) in
    let hb : (b * 2 ^ suc k + d) / 2 ≡ b * 2 ^ k + d / 2 = omega (arith, double_shift b k) in
    omega (
      arith,
      bit_or_step (a * 2 ^ suc k + c) (b * 2 ^ suc k + d),
      ap₂ bit_or ha hb,
      bit_or_split k a b (c / 2) (d / 2) (omega (arith, pow-suc 2 k)) (omega (arith, pow-suc 2 k)),
      bit_or_step c d,
      double_shift a k,
      double_shift b k,
      double_shift (bit_or a b) k,
    )
