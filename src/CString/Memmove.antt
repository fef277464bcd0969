-- ===== src/CString/Memmove.antt =====
-- `memmove` and `memcpy` against a copy of the region as it was before; `memcmp` against equality.
use ppo_os.Common.{
  ℕ, zero, suc, ◌+◌, ◌-◌, ◌≤◌, ◌<◌, ◌≡◌, ◌≢◌, refl, ◌⊎◌, inl, inr, ◌&&◌, arith, ltb, leb, ◌==◌,
  if◌then◌else◌, Bool-cases, ltb→lt, ltb→le, ==→eq, ==→ne,
}
use ppo_os.Common.Int.{ℤ, pos, negsuc}
use ppo_os.Common.Loops.{for_range, for_range_inv}
use ppo_os.CString.{Memory, copy_byte, memcpy, copy_down, memmove, compare_from, memcmp}

-- The byte at `a` when the `n` bytes at `src` have been moved to `dest` at once.
abbrev pub moved : Memory → ℕ → ℕ → ℕ → Memory
moved m dest src n a = if leb dest a && ltb a (dest + n) then m (src + (a - dest)) else m a

module _ (m : Memory) (dest src n : ℕ) where
  up :
      (dest ≤ src) ⊎ (src + n ≤ dest)
      → (a : ℕ) → for_range n 0 (copy_byte dest src) m a ≡ moved m dest src n a
  unfolding copy_byte
  up order =
      for_range_inv (λ k (m' : Memory). (a : ℕ) → m' a ≡ moved m dest src k a) (copy_byte dest src)
        n
        (λ k m' lt h a.
          let at : dest + k - dest ≡ k = omega arith in
          elim (Bool-cases (a == dest + k)) [
            | inl e ↦ rw (==→eq a (dest + k) e) (ground (arith, h (src + k), at))
            | inr e ↦ ground (arith, h a)
          ])
        n 0 m (omega arith) (λ a. ground arith)

  -- With `k` bytes left to copy, those above have been moved.
  down_from :
      src < dest
      → (k : ℕ) (m' : Memory) → k ≤ n
      → ((a : ℕ)
          → m' a ≡ (if leb (dest + k) a && ltb a (dest + n) then m (src + (a - dest)) else m a))
      → (a : ℕ) → copy_down dest src k m' a ≡ moved m dest src n a
  unfolding copy_down copy_byte
  down_from below zero m' le h a = ground (arith, h a)
  down_from below (suc k) m' le h a =
      let at : dest + k - dest ≡ k = omega arith in
      down_from below k (copy_byte dest src k m') (omega arith)
        (λ b. elim (Bool-cases (b == dest + k)) [
          | inl e ↦ rw (==→eq b (dest + k) e) (ground (arith, h (src + k), at))
          | inr e ↦ ground (arith, h b)
        ])
        a

  down : src < dest → (a : ℕ) → copy_down dest src n m a ≡ moved m dest src n a
  down lt a = down_from lt n m (omega arith) (λ b. ground arith) a

  self : (a : ℕ) → m a ≡ moved m dest dest n a
  self a = elim (Bool-cases (leb dest a && ltb a (dest + n))) [
    | inl e ↦ let back : dest + (a - dest) ≡ a = ground arith in rw (e, back) refl
    | inr e ↦ rw e refl
  ]

  -- After `memmove` each byte of the destination is the byte that the source had before, and every
  -- other byte is unchanged, also where the regions overlap.
  pub memmove-moved : (a : ℕ) → memmove m dest src n a ≡ moved m dest src n a
  unfolding memmove
  memmove-moved a = elim (Bool-cases (ltb dest src)) [
    | inl e ↦ rw e (up (inl (ground arith)) a)
    | inr e ↦ rw e (elim (Bool-cases (ltb src dest)) [
      | inl e' ↦ rw e' (down (ltb→lt _ _ e') a)
      | inr e' ↦ let same : src ≡ dest = ground arith in rw (e', same) (self a)
    ])
  ]

  -- If the destination is not above the source, or above its end, `memcpy` moves the bytes as they
  -- were before and leaves every other byte unchanged.
  pub memcpy-moved :
      (dest ≤ src) ⊎ (src + n ≤ dest) → (a : ℕ) → memcpy m dest src n a ≡ moved m dest src n a
  unfolding memcpy
  memcpy-moved order a = up order a

-- How the comparison of bytes `i` to `i + n` ends: all are equal, or the first that differ decide.
pub data Compared (m : Memory) (s1 s2 i n : ℕ) : ℤ → Type 0 where
  equal : ((k : ℕ) → i ≤ k → k < i + n → m (s1 + k) ≡ m (s2 + k)) → Compared m s1 s2 i n (pos 0)
  less :
      (k : ℕ)
      → i ≤ k
      → k < i + n
      → ((j : ℕ) → i ≤ j → j < k → m (s1 + j) ≡ m (s2 + j))
      → m (s1 + k) < m (s2 + k)
      → Compared m s1 s2 i n (negsuc 0)
  greater :
      (k : ℕ)
      → i ≤ k
      → k < i + n
      → ((j : ℕ) → i ≤ j → j < k → m (s1 + j) ≡ m (s2 + j))
      → m (s2 + k) < m (s1 + k)
      → Compared m s1 s2 i n (pos 1)

module _ (m : Memory) (s1 s2 : ℕ) where
  abbrev Same : ℕ → Type 0
  Same k = m (s1 + k) ≡ m (s2 + k)

  -- Equality from `i + 1` on, and at `i`.
  from_next :
      {i k : ℕ} → Same i → ((j : ℕ) → i + 1 ≤ j → j < k → Same j) → (j : ℕ) → i ≤ j → j < k → Same j
  from_next {i} {k} here rest j le lt = elim (Bool-cases (j == i)) [
    | inl e ↦ rw (==→eq j i e) here
    | inr e ↦ let ne : j ≢ i = ==→ne j i e in rest j (omega arith) lt
  ]

  one_more :
      {i n : ℕ} {r : ℤ} → Same i → Compared m s1 s2 (i + 1) n r → Compared m s1 s2 i (suc n) r
  one_more here (equal all) =
      equal λ k le lt. from_next here (λ j ij jk. all j ij (omega arith)) k le lt
  one_more here (less k le lt before d) =
      less k (omega arith) (omega arith) (from_next here before) d
  one_more here (greater k le lt before d) =
      greater k (omega arith) (omega arith) (from_next here before) d

  compare_from-Compared : (i n : ℕ) → Compared m s1 s2 i n (compare_from m s1 s2 i n)
  unfolding compare_from
  compare_from-Compared i zero = equal λ k le lt. absurd (omega arith)
  compare_from-Compared i (suc n) = elim (Bool-cases (m (s1 + i) == m (s2 + i))) [
    | inl e ↦ rw e (one_more (==→eq _ _ e) (compare_from-Compared (i + 1) n))
    | inr e ↦ rw e (elim (Bool-cases (ltb (m (s1 + i)) (m (s2 + i)))) [
      | inl l ↦
          rw l (less i (omega arith) (omega arith) (λ j le lt. absurd (omega arith)) (ltb→lt _ _ l))
      | inr g ↦
          let ne : m (s1 + i) ≢ m (s2 + i) = ==→ne _ _ e in
          let ge : m (s2 + i) ≤ m (s1 + i) = ltb→le _ _ g in
          rw g
            (greater i (omega arith) (omega arith) (λ j le lt. absurd (omega arith)) (omega arith))
    ])
  ]

  -- `memcmp` returns 0 if all bytes are equal, and else -1 or 1 by the order of the first bytes
  -- that differ.
  pub memcmp-Compared : (n : ℕ) → Compared m s1 s2 0 n (memcmp m s1 s2 n)
  unfolding memcmp
  memcmp-Compared n = compare_from-Compared 0 n
