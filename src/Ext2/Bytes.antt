-- ===== src/Ext2/Bytes.antt =====
-- The bytes of a file, one by one, and what the blocks of an image have of them.
use ppo_os.Common.{
  ℕ, zero, suc, ◌+◌, ◌*◌, ◌/◌, ◌%◌, ◌≤◌, ◌<◌, ◌≡◌, refl, ap, ◌∙◌, Option, none, some, List, [], ◌∷◌,
  ◌++◌, arith, ltb, if◌then◌else◌, option_case, Bool-cases, inl, inr, lt→ltb, le→ltb,
}
use native.Mathlib.Nat.{mul-add-div_right, mul-add-mod_self_right, mod-eq_of_lt, div-eq_of_lt}
use ppo_os.Fs.{Memory, read_bytes}
use ppo_os.Ext2.{Ext2, inode_block, ext2_read_block}

-- Quotient and remainder, by what determines them.
pub quotient : (q r d : ℕ) → r < d → (q * d + r) / d ≡ q
quotient q r d lt =
    let positive : 0 < d = omega arith in
    omega (arith, mul-add-div_right positive q r, div-eq_of_lt lt)

pub remainder : (q r d : ℕ) → r < d → (q * d + r) % d ≡ r
remainder q r d lt = mul-add-mod_self_right q d r ∙ mod-eq_of_lt lt

module _ (s : Ext2) (m : Memory) (inode : ℕ) where
  -- The byte at position `j` of the file, if it is in one of the 12 direct blocks and that block
  -- can be read.
  abbrev pub byte_at : ℕ → Option ℕ
  byte_at j =
      if ltb (j / s.block_size) 12
      then option_case (ext2_read_block s m (inode_block m inode (j / s.block_size))) none
          (λ block_data. some (m (block_data + j % s.block_size)))
      else none

  -- The bytes from position `j` on, `n` of them, or those before the first that is not there.
  abbrev pub bytes_from : ℕ → ℕ → List ℕ
  bytes_from zero j = []
  bytes_from (suc n) j =
      let rest = bytes_from n (j + 1) in option_case (byte_at j) [] (λ b. b ∷ rest)

  byte_at-block :
      (i r d : ℕ)
      → i < 12
      → r < s.block_size
      → ext2_read_block s m (inode_block m inode i) ≡ some d
      → byte_at (i * s.block_size + r) ≡ some (m (d + r))
  byte_at-block i r d direct inside here =
      rw
        (
          quotient i r s.block_size inside,
          remainder i r s.block_size inside,
          lt→ltb i 12 direct,
          here,
        )
        refl

  -- A part of one block.
  pub bytes_from-block :
      (n k i r d : ℕ)
      → i < 12
      → r + n ≤ s.block_size
      → ext2_read_block s m (inode_block m inode i) ≡ some d
      → bytes_from (n + k) (i * s.block_size + r)
        ≡ read_bytes m (d + r) n ++ bytes_from k (i * s.block_size + (r + n))
  bytes_from-block zero k i r d direct fits here =
      let e1 : 0 + k ≡ k = omega arith in let e2 : r + 0 ≡ r = omega arith in rw (e1, e2) refl
  bytes_from-block (suc n) k i r d direct fits here =
      let e1 : suc n + k ≡ suc (n + k) = omega arith in
      let e2 : i * s.block_size + r + 1 ≡ i * s.block_size + (r + 1) = omega arith in
      let e3 : r + suc n ≡ r + 1 + n = omega arith in
      let e4 : d + r + 1 ≡ d + (r + 1) = omega arith in
      rw (e1, byte_at-block i r d direct (omega arith) here, e2, e3, e4)
        (ap (λ l. m (d + r) ∷ l) (bytes_from-block n k i (r + 1) d direct (omega arith) here))

  pub bytes_from-unreadable :
      (n i r : ℕ)
      → r < s.block_size
      → ext2_read_block s m (inode_block m inode i) ≡ none
      → bytes_from n (i * s.block_size + r) ≡ []
  bytes_from-unreadable zero i r inside here = refl
  bytes_from-unreadable (suc n) i r inside here =
      rw (quotient i r s.block_size inside, here)
        (elim (Bool-cases (ltb i 12)) [ inl e ↦ rw e refl | inr e ↦ rw e refl ])

  pub bytes_from-indirect :
      (n i r : ℕ) → r < s.block_size → 12 ≤ i → bytes_from n (i * s.block_size + r) ≡ []
  bytes_from-indirect zero i r inside far = refl
  bytes_from-indirect (suc n) i r inside far =
      rw (quotient i r s.block_size inside, le→ltb i 12 far) refl
