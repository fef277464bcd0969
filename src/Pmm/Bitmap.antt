-- ===== src/Pmm/Bitmap.antt =====
-- The bit operations of the frame bitmap act as updates of a table of flags.
use ppo_os.Common.{
  ℕ, ◌-◌, ◌/◌, ◌%◌, ◌^◌, ◌<◌, ◌≡◌, refl, Bool, true, false, not, ◌&&◌, bit_and, bit_or, arith, ltb,
  ltb→lt, ◌==◌, if◌then◌else◌,
}
use ppo_os.Common.Bits.{all_below, all_below_sound}
use ppo_os.Pmm.{Bitmap, bitmap_set, bitmap_unset, bitmap_test}

-- Every entry is a byte.
abbrev pub IsBytes : Bitmap → Type 0
IsBytes m = (i : ℕ) → m i < 256

abbrev same : Bool → Bool → Bool
same true b = b
same false b = not b

eq_of_same : (a b : Bool) → same a b ≡ true → a ≡ b
eq_of_same true true h = refl
eq_of_same true false h = ground arith
eq_of_same false true h = ground arith
eq_of_same false false h = refl

abbrev byte_set : ℕ → ℕ → ℕ
byte_set b k = bit_or b (2 ^ k)

abbrev byte_unset : ℕ → ℕ → ℕ
byte_unset b k = bit_and b (255 - 2 ^ k)

abbrev byte_test : ℕ → ℕ → Bool
byte_test b k = not (bit_and b (2 ^ k) == 0)

abbrev set_check : ℕ → ℕ → ℕ → Bool
set_check b k l =
    ltb (byte_set b k) 256
    && same (byte_test (byte_set b k) l) (if k == l then true else byte_test b l)

abbrev unset_check : ℕ → ℕ → ℕ → Bool
unset_check b k l =
    ltb (byte_unset b k) 256
    && same (byte_test (byte_unset b k) l) (if k == l then false else byte_test b l)

abbrev all_bits : (ℕ → ℕ → ℕ → Bool) → ℕ → Bool
all_bits p b = all_below 8 (λ k. all_below 8 (p b k))

set_table : all_below 256 (all_bits set_check) ≡ true
unfolding all_below
set_table = refl

unset_table : all_below 256 (all_bits unset_check) ≡ true
unfolding all_below
unset_table = refl

table_sound :
    (p : ℕ → ℕ → ℕ → Bool) (b k l : ℕ)
    → all_below 256 (all_bits p) ≡ true
    → b < 256
    → k < 8
    → l < 8
    → p b k l ≡ true
table_sound p b k l table hb hk hl =
    all_below_sound 8 (p b k) l
      (all_below_sound 8 (λ k. all_below 8 (p b k)) k (all_below_sound 256 (all_bits p) b table hb)
        hk)
      hl

and_parts : (a b : Bool) → (a && b) ≡ true → (a ≡ true) × (b ≡ true)
and_parts a b h = ground arith

module _ (b k l : ℕ) (hb : b < 256) (hk : k < 8) (hl : l < 8) where
  byte_set_lem :
      (byte_set b k < 256) × (byte_test (byte_set b k) l ≡ (if k == l then true else byte_test b l))
  byte_set_lem =
      let parts = and_parts _ _ (table_sound set_check b k l set_table hb hk hl) in
      (ltb→lt _ _ parts.0, eq_of_same _ _ parts.1)

  byte_unset_lem :
      (byte_unset b k < 256)
      × (byte_test (byte_unset b k) l ≡ (if k == l then false else byte_test b l))
  byte_unset_lem =
      let parts = and_parts _ _ (table_sound unset_check b k l unset_table hb hk hl) in
      (ltb→lt _ _ parts.0, eq_of_same _ _ parts.1)

module _ {m : Bitmap} (bytes : IsBytes m) where
  pub bitmap_set-IsBytes : (f : ℕ) → IsBytes (bitmap_set m f)
  unfolding bitmap_set
  bitmap_set-IsBytes f i =
      ground (arith, bytes i, byte_set_lem (m (f / 8)) (f % 8) 0 (bytes (f / 8)))

  pub bitmap_unset-IsBytes : (f : ℕ) → IsBytes (bitmap_unset m f)
  unfolding bitmap_unset
  bitmap_unset-IsBytes f i =
      ground (arith, bytes i, byte_unset_lem (m (f / 8)) (f % 8) 0 (bytes (f / 8)))

  -- After `pmm_bitmap_set` the flag of that frame is set, and every other is as before.
  pub bitmap_test-set :
      (f g : ℕ) → bitmap_test (bitmap_set m f) g ≡ (if f == g then true else bitmap_test m g)
  unfolding bitmap_set bitmap_test
  bitmap_test-set f g = ground (arith, byte_set_lem (m (f / 8)) (f % 8) (g % 8) (bytes (f / 8)))

  -- After `pmm_bitmap_unset` the flag of that frame is clear, and every other is as before.
  pub bitmap_test-unset :
      (f g : ℕ) → bitmap_test (bitmap_unset m f) g ≡ (if f == g then false else bitmap_test m g)
  unfolding bitmap_unset bitmap_test
  bitmap_test-unset f g = ground (arith, byte_unset_lem (m (f / 8)) (f % 8) (g % 8) (bytes (f / 8)))
