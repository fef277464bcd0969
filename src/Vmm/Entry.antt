-- ===== src/Vmm/Entry.antt =====
-- Page-table entries as numbers: presence, the frame they name, and the index of each level.
use ppo_os.Common.{ℕ, ◌+◌, ◌-◌, ◌*◌, ◌/◌, ◌%◌, ◌^◌, ◌<◌, ◌≡◌, ◌∙◌, ap, bit_and, bit_or, arith, ◌==◌}
use ppo_os.Common.Bits.{bit_and_mask, bit_and_fields_high, bit_or_split, bit_or-zero}
use native.Mathlib.Nat.{add-zero}
use ppo_os.Vmm.{page_mask, present, table_index, table_entry}

pub present_lem : (e : ℕ) → present e ≡ (e % 2 == 1)
unfolding present
present_lem e = ground (arith, bit_and_mask 1 e)

pub table_index_lem : (shift v : ℕ) → table_index shift v ≡ v / 2 ^ shift % 512
unfolding table_index
table_index_lem shift v = bit_and_mask 9 (v / 2 ^ shift)

-- `e & PAGE_MASK` clears the low twelve bits, and nothing else.
pub page_mask_lem : (e : ℕ) → e < 2 ^ 64 → bit_and e page_mask ≡ e / 4096 * 4096
page_mask_lem e small =
    bit_and_fields_high 12 e (2 ^ 52 - 1)
    ∙ ap (λ (t : ℕ). t * 4096) (bit_and_mask 52 (e / 4096) ∙ omega arith)

pub page_offset_lem : (v : ℕ) → bit_and v 4095 ≡ v % 4096
page_offset_lem v = bit_and_mask 12 v

pub table_entry_lem : (p : ℕ) → p % 4096 ≡ 0 → table_entry p ≡ p + 7
unfolding table_entry
table_entry_lem p aligned = rw (one, two) four
  where
    split :
        (c d : ℕ)
        → c < 4096
        → d < 4096
        → bit_or (p / 4096 * 4096 + c) (0 * 4096 + d) ≡ bit_or (p / 4096) 0 * 4096 + bit_or c d
    split c d = bit_or_split 12 (p / 4096) 0 c d

    whole : (c : ℕ) → p / 4096 * 4096 + c ≡ p + c
    whole c = omega arith

    one : bit_or p 1 ≡ p + 1
    one = omega (
      arith,
      ap (λ (t : ℕ). bit_or t 1) (whole 0),
      ap (λ (t : ℕ). bit_or t 1) (add-zero p),
      split 0 1 (omega arith) (omega arith),
      bit_or-zero (p / 4096),
    )

    two : bit_or (p + 1) 2 ≡ p + 3
    two = omega (
      arith,
      ap (λ (t : ℕ). bit_or t 2) (whole 1),
      split 1 2 (omega arith) (omega arith),
      bit_or-zero (p / 4096),
    )

    four : bit_or (p + 3) 4 ≡ p + 7
    four = omega (
      arith,
      ap (λ (t : ℕ). bit_or t 4) (whole 3),
      split 3 4 (omega arith) (omega arith),
      bit_or-zero (p / 4096),
    )
