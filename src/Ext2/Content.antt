-- ===== src/Ext2/Content.antt =====
-- `ext2_read_inode_data` against a byte by byte reading of the file.
use ppo_os.Common.Numbers.{row_below}
use ppo_os.Common.{
  ℕ, zero, suc, ◌+◌, ◌-◌, ◌*◌, ◌/◌, ◌%◌, ◌^◌, ◌≤◌, ◌<◌, ◌≡◌, ◌≢◌, refl, ap, ap₂, ◌∙◌, sym, min,
  false, some, List, [], ◌++◌, arith, ltb, leb, ◌==◌, if◌then◌else◌, Bool-cases, Option-cases, inl,
  inr, ◌⊎◌, ltb→lt, ltb→le, le→ltb, ==→eq, ==→ne, ne→==,
}
use native.Mathlib.Nat.{div-le_self, div-add-mod', mod-lt}
use ppo_os.Common.Branch.{if_elim, option_elim}
use ppo_os.Fs.{Memory, read_bytes}
use ppo_os.Ext2.{
  Ext2, inode_bytes, inode_block, ext2_read_block, to_read, read_direct, ext2_read_inode_data,
}
use ppo_os.Ext2.Bytes.{
  remainder, bytes_from, bytes_from-block, bytes_from-unreadable, bytes_from-indirect,
}
use ppo_os.Ext2.Rounds.{last_lem, start_small, end_small, to_read-min}

module _ (s : Ext2) (m : Memory) (inode offset len : ℕ) (positive : 0 < s.block_size)
    (narrow : s.block_size < 2 ^ 32) (some_bytes : 0 < len) (small : offset + len ≤ 2 ^ 32) where
  -- The state of the loop before block `i`: it stands at position `r` of the block.
  record Reading (i r got : ℕ) : Type 0 where
    inside : r < s.block_size
    more : got < len
    at : offset + got ≡ i * s.block_size + r
    first : i ≡ offset / s.block_size → got ≡ 0
    later : i ≢ offset / s.block_size → r ≡ 0
    started : offset / s.block_size ≤ i

  block_offset_lem :
      {i r got : ℕ}
      → Reading i r got
      → (if i == offset / s.block_size % 2 ^ 32 then offset % s.block_size else 0) ≡ r
  block_offset_lem {i} {r} {got} h =
      rw (start_small s.block_size offset len some_bytes small narrow)
        (elim (Bool-cases (i == offset / s.block_size)) [
          | inl e ↦
              let none_before = h.first (==→eq _ _ e) in
              let whole : offset ≡ i * s.block_size + r = omega (arith, h.at) in
              rw e (ap (λ (t : ℕ). t % s.block_size) whole ∙ remainder i r s.block_size h.inside)
          | inr e ↦ rw e (sym (h.later (==→ne _ _ e)))
        ])

  not_past_end :
      {i r got : ℕ}
      → Reading i r got
      → ltb ((offset + len + (2 ^ 64 - 1)) % 2 ^ 64 / s.block_size % 2 ^ 32) i ≡ false
  not_past_end {i} {r} {got} h = rw (end_small s.block_size offset len some_bytes small narrow) (
      le→ltb _ i (elim (Bool-cases (ltb ((offset + len - 1) / s.block_size) i)) [
        | inl lt ↦
            let row =
              row_below ((offset + len - 1) / s.block_size) i s.block_size (ltb→lt _ _ lt) in
            let last = last_lem s.block_size offset len some_bytes small narrow positive in
            let below = mod-lt (offset + len - 1) positive in absurd (omega (arith, h.at, h.more))
        | inr ge ↦ ltb→le _ _ ge
      ]))

  next_block :
      {i r got part : ℕ}
      → Reading i r got
      → part ≡ min (s.block_size - r) (len - got)
      → got + part < len
      → Reading (i + 1) 0 (got + part)
  next_block {i} {r} {got} {part} h parts more =
      let full : r + part ≡ s.block_size = omega (arith, parts, h.inside) in
      record {
        inside = positive;
        more = more;
        at = omega (arith, h.at);
        first = λ e. absurd (omega (arith, h.started));
        later = λ e. refl;
        started = omega (arith, h.started);
      }

  round :
      (i r got d part : ℕ) (rest : List ℕ)
      → Reading i r got
      → ext2_read_block s m (inode_block m inode i) ≡ some d
      → part ≡ min (s.block_size - r) (len - got)
      → i < 12
      → (got + part < len
          → rest ≡ bytes_from s m inode (len - (got + part)) (offset + (got + part)))
      → read_bytes m (d + r) part ++ (if leb len (got + part) then [] else rest)
        ≡ bytes_from s m inode (len - got) (i * s.block_size + r)
  round i r got d part rest h e parts direct continued =
      let inside : r + part ≤ s.block_size = omega (arith, parts, h.inside) in
      elim (Bool-cases (leb len (got + part))) [
        | inl ends ↦
            let reached : len ≤ got + part = ground arith in
            let whole : len - got ≡ part + 0 = omega (arith, h.more) in
            rw (ends, whole) (sym (bytes_from-block s m inode part 0 i r d direct inside e))
        | inr goes_on ↦
            let more : got + part < len = ground arith in
            let split : len - got ≡ part + (len - (got + part)) = omega arith in
            let place : offset + (got + part) ≡ i * s.block_size + (r + part) =
              omega (arith, h.at) in
            rw (goes_on, split, continued more, place)
              (sym (bytes_from-block s m inode part (len - (got + part)) i r d direct inside e))
      ]

  read_direct-bytes_from :
      (left i r got : ℕ)
      → Reading i r got
      → (i + left ≡ 12) ⊎ ((left ≡ 0) × (12 ≤ i))
      → read_direct s m inode offset len left i got
        ≡ bytes_from s m inode (len - got) (offset + got)
  unfolding read_direct
  read_direct-bytes_from zero i r got h total =
      rw h.at (sym (bytes_from-indirect s m inode (len - got) i r h.inside (omega arith)))
  read_direct-bytes_from (suc left) i r got h total =
      rw (h.at, not_past_end h, block_offset_lem h)
        (elim (Option-cases (ext2_read_block s m (inode_block m inode i))) [
          | inl e ↦ rw e (sym (bytes_from-unreadable s m inode (len - got) i r h.inside e))
          | inr (d, e) ↦
              let part = to_read s.block_size offset len i got in
              let parts =
                to_read-min s.block_size offset len some_bytes small narrow i r got h.inside h.more
                  h.at h.first h.later in
              rw e (
                round i r got d part _ h e parts (omega arith) (λ more.
                  read_direct-bytes_from left (i + 1) 0 (got + part) (next_block h parts more)
                    (omega arith)))
        ])

to_read_none : (bs offset i : ℕ) → bs < 2 ^ 32 → to_read bs offset 0 i 0 ≡ 0
unfolding to_read
to_read_none bs offset i narrow = ground arith

read_direct_none :
    (s : Ext2) (m : Memory) (inode offset left i : ℕ)
    → s.block_size < 2 ^ 32
    → read_direct s m inode offset 0 left i 0 ≡ []
unfolding read_direct
read_direct_none s m inode offset zero i narrow = refl
read_direct_none s m inode offset (suc left) i narrow =
    if_elim (λ l. l ≡ []) (ltb ((offset + 0 + (2 ^ 64 - 1)) % 2 ^ 64 / s.block_size % 2 ^ 32) i)
      (λ _. refl)
      (λ _.
        option_elim (λ l. l ≡ []) (ext2_read_block s m (inode_block m inode i)) refl
          (λ d e. rw (to_read_none s.block_size offset i narrow) refl))

-- With a block size that is not 0 and below 2^32, an inode whose size is below 2^32, and a request
-- that ends below 2^64, `ext2_read_inode_data` gives the bytes of the file one by one from the
-- offset on, as many as are asked for and there, up to the first that lies in a block that cannot
-- be read or behind the 12 direct blocks.
pub ext2_read_inode_data-bytes_from :
    (s : Ext2) (m : Memory) (inode offset len : ℕ)
    → 0 < s.block_size
    → s.block_size < 2 ^ 32
    → inode_bytes m inode < 2 ^ 32
    → offset + len < 2 ^ 64
    → ext2_read_inode_data s m (some inode) offset len
      ≡ some (bytes_from s m inode (min len (inode_bytes m inode - offset)) offset)
unfolding ext2_read_inode_data
ext2_read_inode_data-bytes_from s m inode offset len positive narrow size_small fits =
    elim (Bool-cases (leb (inode_bytes m inode) offset)) [
      | inl past ↦
          let nothing : min len (inode_bytes m inode - offset) ≡ 0 = ground arith in
          rw (past, nothing) refl
      | inr inside ↦
          let before_end : offset < inode_bytes m inode = ground arith in
          let limit : (if ltb (inode_bytes m inode) ((offset + len) % 2 ^ 64)
                then inode_bytes m inode - offset
                else len)
              ≡ min len (inode_bytes m inode - offset) =
            ground arith in
          let start : offset / s.block_size % 2 ^ 32 ≡ offset / s.block_size =
            omega (arith, div-le_self offset s.block_size) in
          rw (inside, ne→== s.block_size 0 (omega arith), limit, start)
            (ap some (begin_at (min len (inode_bytes m inode - offset)) (omega arith)))
    ]
  where
    begin_at :
        (n : ℕ)
        → offset + n ≤ 2 ^ 32
        → read_direct s m inode offset n (12 - offset / s.block_size) (offset / s.block_size) 0
          ≡ bytes_from s m inode n offset
    begin_at zero room = read_direct_none s m inode offset _ _ narrow
    begin_at (suc n) room =
        let filled : 0 < suc n = omega arith in
        let none_before : offset + 0 ≡ offset = omega arith in
        let start : Reading s m inode offset (suc n) positive narrow filled room
            (offset / s.block_size) (offset % s.block_size) 0 =
          record {
            inside = mod-lt offset positive;
            more = omega arith;
            at = omega (arith, div-add-mod' offset s.block_size);
            first = λ e. refl;
            later = λ ne. absurd (ne refl);
            started = omega arith;
          } in
        let all_left : suc n - 0 ≡ suc n = omega arith in
        read_direct-bytes_from s m inode offset (suc n) positive narrow filled room
          (12 - offset / s.block_size) (offset / s.block_size) (offset % s.block_size) 0 start
          (omega arith)
        ∙ ap₂ (bytes_from s m inode) all_left none_before
