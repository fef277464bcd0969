-- ===== src/Pmm/Alloc/Scan.antt =====
-- The scan of `pmm_alloc_frame` stops at the first frame that is neither low nor in use.
use native.Mathlib.Nat.{mod-lt}
use ppo_os.Common.{
  ℕ, zero, suc, ◌+◌, ◌*◌, ◌%◌, ◌^◌, ◌≤◌, ◌<◌, ◌≡◌, refl, ◌⊎◌, inl, inr, true, false, Option, none,
  some, arith, ltb, ltb→lt, ltb→le, Bool-cases,
}
use ppo_os.Pmm.{Pmm, page_size, bitmap_set, bitmap_test, alloc_scan}

-- The frame that a round looks at.
abbrev pub index_at : Pmm → ℕ → ℕ → ℕ
index_at s m k = (s.last_alloc_index + k) % 2 ^ 64 % m

pub record Granted (s : Pmm) (m c : ℕ) (out : Pmm × Option ℕ) : Type 0 where
  pub in_range : c < m
  pub above_low : 256 ≤ c
  pub clear : bitmap_test s.bitmap c ≡ false
  pub result : out ≡ (
    record s { bitmap = bitmap_set s.bitmap c; last_alloc_index = c + 1 },
    some (c * page_size),
  )

abbrev pub Blocked : Pmm → ℕ → Type 0
Blocked s c = (c < 256) ⊎ (bitmap_test s.bitmap c ≡ true)

-- Every round from `i` on found its frame blocked.
abbrev pub Exhausted : Pmm → ℕ → ℕ → ℕ → Pmm × Option ℕ → Type 0
Exhausted s m i n out =
    (out ≡ (s, none)) × ((k : ℕ) → i ≤ k → k < i + n → Blocked s (index_at s m k))

abbrev pub Outcome : Pmm → ℕ → ℕ → ℕ → Pmm × Option ℕ → Type 0
Outcome s m i n out = ((c : ℕ) × Granted s m c out) ⊎ Exhausted s m i n out

module _ (s : Pmm) (m : ℕ) (small : m ≤ 1048576) (some_bits : 0 < m) where
  extend :
      (i n : ℕ) {out : Pmm × Option ℕ}
      → Blocked s (index_at s m i)
      → Outcome s m (i + 1) n out
      → Outcome s m i (suc n) out
  extend i n b (inl g) = inl g
  extend i n b (inr (e, all)) = inr (e, λ k lo hi. at k lo hi (order k))
    where
      order : (k : ℕ) → (k ≡ i) ⊎ (i + 1 ≤ k) ⊎ (k < i)
      order k = omega arith

      at :
          (k : ℕ)
          → i ≤ k
          → k < i + suc n
          → (k ≡ i) ⊎ (i + 1 ≤ k) ⊎ (k < i)
          → Blocked s (index_at s m k)
      at k lo hi (inl p) = rw p b
      at k lo hi (inr (inl p)) = all k p (omega arith)
      at k lo hi (inr (inr p)) = absurd (omega arith)

  pub alloc_scan_cases : (n i : ℕ) → Outcome s m i n (alloc_scan m n i s)
  unfolding alloc_scan
  alloc_scan_cases zero i = inr (refl, λ k lo hi. absurd (omega arith))
  alloc_scan_cases (suc n) i =
      let c = index_at s m i in
      let c<m : c < m = mod-lt _ some_bits in
      elim (Bool-cases (ltb (c * page_size % 2 ^ 64) 0x100000)) [
        | inl low ↦
            rw low (extend i n (inl (omega (arith, ltb→lt _ _ low))) (alloc_scan_cases n (i + 1)))
        | inr high ↦ elim (Bool-cases (bitmap_test s.bitmap c)) [
          | inl used ↦ rw (high, used) (extend i n (inr used) (alloc_scan_cases n (i + 1)))
          | inr clear ↦
              rw (high, clear)
                (inl (
                  c,
                  record {
                    in_range = c<m;
                    above_low = omega (arith, ltb→le _ _ high);
                    clear = clear;
                    result = ground arith;
                  },
                ))
        ]
      ]
