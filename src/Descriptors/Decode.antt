-- ===== src/Descriptors/Decode.antt =====
-- What the processor reads from the descriptors.
use ppo_os.Common.{ℕ, ◌+◌, ◌*◌, ◌/◌, ◌%◌, ◌^◌, ◌<◌, ◌≡◌, ◌↔◌, ap, ◌∙◌, bit_and, List, arith, get_or}
use ppo_os.Common.Bits.{bit_and_mask, bit_and_fields_high, zero-bit_or}
use ppo_os.Descriptors.{IdtEntry, gate, tss_descriptor}

-- The base in a descriptor of 16 bytes: bytes 2 to 4, and 7 to 11.
abbrev pub base_of : List ℕ → ℕ
base_of d =
    get_or d 2 0
    + get_or d 3 0 * 2 ^ 8
    + get_or d 4 0 * 2 ^ 16
    + get_or d 7 0 * 2 ^ 24
    + get_or d 8 0 * 2 ^ 32
    + get_or d 9 0 * 2 ^ 40
    + get_or d 10 0 * 2 ^ 48
    + get_or d 11 0 * 2 ^ 56

-- The address in a gate.
abbrev pub offset_of : IdtEntry → ℕ
offset_of e = e.offset_low + e.offset_mid * 2 ^ 16 + e.offset_high * 2 ^ 32

high_four : (x : ℕ) → bit_and x 0xF0 ≡ x / 16 % 16 * 16
high_four x = bit_and_fields_high 4 x 15 ∙ ap (λ (t : ℕ). t * 16) (bit_and_mask 4 (x / 16))

pub gate-offset : (base sel flags : ℕ) → base < 2 ^ 64 → offset_of (gate base sel flags) ≡ base
unfolding gate
gate-offset base sel flags fits =
    omega (
      arith,
      bit_and_mask 16 base,
      bit_and_mask 16 (base / 2 ^ 16),
      bit_and_mask 32 (base / 2 ^ 32),
    )

tss_descriptor-base :
    (b : ℕ) → b < 2 ^ 64 → base_of (tss_descriptor b) + b / 2 ^ 24 % 16 * 2 ^ 24 ≡ b
unfolding tss_descriptor
tss_descriptor-base b fits =
    rw
      (
        zero-bit_or (bit_and (b / 2 ^ 24) 0xF0),
        high_four (b / 2 ^ 24),
        bit_and_mask 8 b,
        bit_and_mask 8 (b / 2 ^ 8),
        bit_and_mask 8 (b / 2 ^ 16),
        bit_and_mask 8 (b / 2 ^ 32),
        bit_and_mask 8 (b / 2 ^ 40),
        bit_and_mask 8 (b / 2 ^ 48),
        bit_and_mask 8 (b / 2 ^ 56),
      )
      (omega arith)

-- The base that the processor reads from the descriptor of the TSS at a 64-bit address is this
-- address exactly if its bits 24 to 27 are 0.
pub tss_descriptor_iff :
    (b : ℕ) → b < 2 ^ 64 → (base_of (tss_descriptor b) ≡ b) ↔ (b / 2 ^ 24 % 16 ≡ 0)
tss_descriptor_iff b fits = (
  (λ e. omega (arith, tss_descriptor-base b fits)),
  (λ e. omega (arith, tss_descriptor-base b fits)),
)
