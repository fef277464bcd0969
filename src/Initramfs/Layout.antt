-- ===== src/Initramfs/Layout.antt =====
-- Where the entries lie that `initramfs_init` stores, for any bytes in memory.
use ppo_os.Common.{
  ℕ, zero, suc, ◌+◌, ◌-◌, ◌*◌, ◌/◌, ◌%◌, ◌^◌, ◌≤◌, ◌<◌, ◌≡◌, refl, ap, ◌∙◌, bit_or, not, ◌&&◌, List,
  [], ◌∷◌, arith, length, ltb, leb, if◌then◌else◌, ltb→le,
}
use ppo_os.Common.Bits.{bit_or_fields, bit_and_fields_high, bit_and_mask}
use ppo_os.Common.Branch.{if_elim}
use ppo_os.Common.Loops.{for_range_inv}
use ppo_os.CString.{Memory}
use ppo_os.Initramfs.{
  InitramfsFile, add_digit, hex2u32, align4, entry, next_header, read_entries, initramfs_init,
  starts_with, is_string, cpio_newc_magic, trailer,
}

or_digit : (v d : ℕ) → d < 16 → bit_or (v * 16 % 2 ^ 32) d ≡ v * 16 % 2 ^ 32 + d
or_digit v d lt =
    let split : v * 16 % 2 ^ 32 ≡ v % 2 ^ 28 * 2 ^ 4 = omega arith in
    rw split (bit_or_fields 4 (v % 2 ^ 28) d lt)

-- A digit is added to sixteen times the number.
pub add_digit_lem :
    (c v : ℕ)
    → add_digit c v ≡ (
        if leb 48 c && leb c 57
        then v * 16 % 2 ^ 32 + (c - 48)
        else if leb 97 c && leb c 102
        then v * 16 % 2 ^ 32 + (c - 97 + 10)
        else if leb 65 c && leb c 70
        then v * 16 % 2 ^ 32 + (c - 65 + 10)
        else v * 16 % 2 ^ 32)
unfolding add_digit
add_digit_lem c v =
    ground (arith, or_digit v (c - 48), or_digit v (c - 97 + 10), or_digit v (c - 65 + 10))

add_digit-lt : (c v : ℕ) → add_digit c v < 2 ^ 32
add_digit-lt c v = ground (arith, add_digit_lem c v)

pub hex2u32-lt : (m : Memory) (s n : ℕ) → hex2u32 m s n < 2 ^ 32
unfolding hex2u32
hex2u32-lt m s n =
    for_range_inv (λ i (v : ℕ). v < 2 ^ 32) (λ i v. add_digit (m (s + i)) v) n
      (λ i v lt h. add_digit-lt (m (s + i)) v) n 0 0 (omega arith) (omega arith)

-- The next multiple of 4.
pub align4_lem : (x : ℕ) → x + 3 < 2 ^ 64 → align4 x ≡ (x + 3) / 4 * 4
unfolding align4
align4_lem x small =
    let same : (x + 3) % 2 ^ 64 ≡ x + 3 = omega arith in
    rw same (
      bit_and_fields_high 2 (x + 3) (2 ^ 62 - 1)
      ∙ ap (λ (t : ℕ). t * 4) (bit_and_mask 62 ((x + 3) / 4) ∙ omega arith))

-- The entries lie one behind another between the first address and the second: a header of 110
-- bytes, the name with as many bytes as the header says, and the data.
pub data Laid (m : Memory) : ℕ → ℕ → List InitramfsFile → Type 0 where
  none_left : {p end : ℕ} → Laid m p end []
  next_entry :
      {p end : ℕ} {fs : List InitramfsFile} (f : InitramfsFile) (q : ℕ)
      → f.name ≡ p + 110
      → f.name + hex2u32 m (p + 94) 8 ≤ f.data_start
      → f.data_start + f.size ≤ q
      → q ≤ end
      → Laid m q end fs
      → Laid m p end (f ∷ fs)

module _ (m : Memory) where
  -- One entry that the loop stores.
  entry_fits :
      (p end : ℕ)
      → p < end
      → end + 2 ^ 34 ≤ 2 ^ 64
      → ((entry m p).name + hex2u32 m (p + 94) 8 ≤ (entry m p).data_start)
        × ((entry m p).data_start + (entry m p).size ≤ next_header (entry m p))
  unfolding entry next_header
  entry_fits p end lt room =
      let names = hex2u32-lt m (p + 94) 8 in
      let sizes = hex2u32-lt m (p + 54) 8 in
      let start = align4_lem (p + 110 + hex2u32 m (p + 94) 8) (omega arith) in
      let no_wrap : (p + 110 + hex2u32 m (p + 94) 8) % 2 ^ 64 ≡ p + 110 + hex2u32 m (p + 94) 8 =
        omega arith in
      rw no_wrap (
        ground (
          arith,
          start,
          align4_lem (align4 (p + 110 + hex2u32 m (p + 94) 8) + hex2u32 m (p + 54) 8),
        ))

  read_entries-Laid :
      (rounds p end : ℕ) → end + 2 ^ 34 ≤ 2 ^ 64 → Laid m p end (read_entries rounds m p end)
  unfolding read_entries entry
  read_entries-Laid zero p end room = none_left
  read_entries-Laid (suc rounds) p end room =
      if_elim (Laid m p end) (not (ltb (p + 110) end)) (λ _. none_left)
        (λ inside.
          if_elim (Laid m p end) (not (starts_with m p cpio_newc_magic)) (λ _. none_left)
            (λ _.
              if_elim (Laid m p end) (ltb 0 (hex2u32 m (p + 94) 8) && is_string m (p + 110) trailer)
                (λ _. none_left)
                (λ _.
                  if_elim (Laid m p end) (ltb end (next_header (entry m p))) (λ _. none_left)
                    (λ fits.
                      let below : p < end = ground arith in
                      let (named, stored) = entry_fits p end below room in
                      next_entry (entry m p) (next_header (entry m p)) refl named stored
                        (ltb→le _ _ fits)
                        (read_entries-Laid rounds (next_header (entry m p)) end room)))))

  length-read_entries : (rounds p end : ℕ) → length (read_entries rounds m p end) ≤ rounds
  unfolding read_entries
  length-read_entries zero p end = omega arith
  length-read_entries (suc rounds) p end =
      ground (arith, length-read_entries rounds (next_header (entry m p)) end)

  -- Whatever bytes are in memory, `initramfs_init` stores at most 16 files, one behind another,
  -- and the header, the declared name and the data of each lie in this order between `base` and
  -- `base + len`, if that is 2^34 or more below the end of the address space.
  pub initramfs_init-Laid :
      (base len : ℕ)
      → base + len + 2 ^ 34 ≤ 2 ^ 64
      → Laid m base (base + len) (initramfs_init m base len).files
        × (length (initramfs_init m base len).files ≤ 16)
  unfolding initramfs_init
  initramfs_init-Laid base len room =
      (read_entries-Laid 16 base (base + len) room, length-read_entries 16 base (base + len))
