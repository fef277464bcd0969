-- ===== src/Ext2/Rounds.antt =====
-- How many bytes a round of `ext2_read_inode_data` copies.
use ppo_os.Common.Numbers.{row_below}
use ppo_os.Common.{
  ℕ, suc, ◌+◌, ◌-◌, ◌*◌, ◌/◌, ◌%◌, ◌^◌, ◌≤◌, ◌<◌, ◌≡◌, ◌≢◌, ap, ◌∙◌, sym, min, arith, ltb, ◌==◌,
  if◌then◌else◌, Bool-cases, inl, inr, ltb→lt, ltb→le, lt→ltb, ==→eq, ==→ne,
}
use native.Mathlib.Nat.{div-le_self, div-add-mod', mod-lt}
use ppo_os.Ext2.{to_read}
use ppo_os.Ext2.Bytes.{remainder}

-- What a round in the last block copies, where `w` is the position of the last byte.
last_part :
    (bs r got len w : ℕ)
    → w < bs
    → r < bs
    → got < len
    → got + (w + 1) ≡ len + r
    → bs < 2 ^ 32
    → len ≤ 2 ^ 32
    → (λ (part : ℕ). if ltb len ((got + part) % 2 ^ 64) then len - got else part)
        (if ltb 0 (if w + 1 == bs then 0 else w + 1)
          then ((if w + 1 == bs then 0 else w + 1) + 2 ^ 64 - r) % 2 ^ 64
          else bs - r)
      ≡ min (bs - r) (len - got)
last_part bs r got len w hw hr hg at narrow small = elim (Bool-cases (w + 1 == bs)) [
  | inl e ↦ rw e (ground (arith, ==→eq _ _ e))
  | inr e ↦ rw (e, lt→ltb 0 (w + 1) (omega arith)) (ground (arith, ==→ne _ _ e))
]

whole_part :
    (bs r got len : ℕ)
    → r < bs
    → got + (bs - r) < len
    → len ≤ 2 ^ 32
    → (if ltb len ((got + (bs - r)) % 2 ^ 64) then len - got else bs - r) ≡ min (bs - r) (len - got)
whole_part bs r got len hr more small = ground arith

-- The number of bytes in a round is what is left of the block or of the request.
module _ (bs offset len : ℕ) (some_bytes : 0 < len) (small : offset + len ≤ 2 ^ 32)
    (narrow : bs < 2 ^ 32) where
  -- Block and position of the last byte.
  abbrev pub last_block : ℕ
  last_block = (offset + len - 1) / bs

  abbrev pub last_offset : ℕ
  last_offset = (offset + len - 1) % bs

  pub last_lem : 0 < bs → offset + len ≡ last_block * bs + (last_offset + 1)
  last_lem positive = omega (arith, div-add-mod' (offset + len - 1) bs)

  pub start_small : offset / bs % 2 ^ 32 ≡ offset / bs
  start_small = omega (arith, div-le_self offset bs)

  pub end_small : (offset + len + (2 ^ 64 - 1)) % 2 ^ 64 / bs % 2 ^ 32 ≡ last_block
  end_small =
      let unwrapped : (offset + len + (2 ^ 64 - 1)) % 2 ^ 64 ≡ offset + len - 1 = omega arith in
      rw unwrapped (omega (arith, div-le_self (offset + len - 1) bs))

  end_offset_lem :
      0 < bs → (offset + len) % 2 ^ 64 % bs ≡ (if last_offset + 1 == bs then 0 else last_offset + 1)
  end_offset_lem positive =
      let unwrapped : (offset + len) % 2 ^ 64 ≡ offset + len = omega arith in
      let below = mod-lt (offset + len - 1) positive in
      elim (Bool-cases (last_offset + 1 == bs)) [
        | inl full ↦
            let e : offset + len ≡ suc last_block * bs + 0 =
              grind (arith, last_lem positive, ==→eq _ _ full) in
            rw (unwrapped, full)
              (ap (λ (t : ℕ). t % bs) e ∙ remainder (suc last_block) 0 bs positive)
        | inr part ↦
            let lt : last_offset + 1 < bs = omega (arith, ==→ne _ _ part, below) in
            rw (unwrapped, part)
              (ap (λ (t : ℕ). t % bs) (last_lem positive)
                ∙ remainder last_block (last_offset + 1) bs lt)
      ]

  pub to_read-min :
      (i r got : ℕ)
      → r < bs
      → got < len
      → offset + got ≡ i * bs + r
      → (i ≡ offset / bs → got ≡ 0)
      → (i ≢ offset / bs → r ≡ 0)
      → to_read bs offset len i got ≡ min (bs - r) (len - got)
  unfolding to_read
  to_read-min i r got inside more at first later =
      let positive : 0 < bs = omega arith in
      let begins : (if i == offset / bs then offset % bs else 0) ≡ r =
        elim (Bool-cases (i == offset / bs)) [
          | inl e ↦
              let none_before = first (==→eq _ _ e) in
              let whole : offset ≡ i * bs + r = omega arith in
              rw e (ap (λ (t : ℕ). t % bs) whole ∙ remainder i r bs inside)
          | inr e ↦ rw e (sym (later (==→ne _ _ e)))
        ] in
      let below = mod-lt (offset + len - 1) positive in
      let last = last_lem positive in
      rw (start_small, end_small, end_offset_lem positive, begins)
        (elim (Bool-cases (i == last_block)) [
          | inl e ↦
              let same : i ≡ last_block = ==→eq _ _ e in
              let rows : i * bs ≡ last_block * bs = ap (λ (t : ℕ). t * bs) same in
              rw e (
                last_part bs r got len last_offset below inside more (omega arith) narrow
                  (omega arith))
          | inr e ↦
              let apart : i ≢ last_block = ==→ne _ _ e in
              let ahead : i < last_block = elim (Bool-cases (ltb i last_block)) [
                | inl lt ↦ ltb→lt _ _ lt
                | inr ge ↦
                    let ordered : last_block ≤ i = ltb→le _ _ ge in
                    let row = row_below last_block i bs (omega arith) in absurd (omega arith)
              ] in
              let row = row_below i last_block bs ahead in
              rw e (whole_part bs r got len inside (omega arith) (omega arith))
        ])
