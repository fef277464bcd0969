-- ===== src/Vmm/Tree.antt =====
-- The page tables in memory form a tree: each table in use belongs to one entry of one table of the
-- level above. Walks are described by the frames of the tables that they pass.
use ppo_os.Common.{
  ℕ, zero, suc, ◌+◌, ◌*◌, ◌/◌, ◌%◌, ◌^◌, ◌≤◌, ◌<◌, ◌≡◌, ◌≢◌, refl, ap, ◌⊎◌, inl, inr, true, false,
  Option, none, some, bit_and, arith, ◌==◌, if◌then◌else◌, Bool-cases, ==→eq, ==→ne,
}
use ppo_os.Pmm.{page_size, bitmap_test}
use ppo_os.Pmm.Flags.{frames}
use ppo_os.Pmm.Alloc.{IsValid}
use ppo_os.Vmm.{Vmm, Memory, page_mask, present, entry_addr}

-- Where a frame stands in the tree. Level 0 is no table, level 1 a page table, level 4 a root.
pub record Owner : Type 0 where
  pub level : ℕ
  pub parent : ℕ
  pub index : ℕ

abbrev pub Owners : Type 0
Owners = ℕ → Owner

-- A present entry of the table in frame `f` names the table that belongs to it.
pub record Child (own : Owners) (f i e : ℕ) : Type 0 where
  pub target : ℕ
  pub names : bit_and e page_mask ≡ target * page_size
  pub small : target < frames
  pub below : (own target).level + 1 ≡ (own f).level
  pub parent : (own target).parent ≡ f
  pub index : (own target).index ≡ i

module _ (hhdm : ℕ) where
  -- The kernel virtual address of a frame, and of an entry of the table in it.
  abbrev pub base : ℕ → ℕ
  base f = f * page_size + hhdm

  abbrev pub slot : ℕ → ℕ → ℕ
  slot f i = entry_addr (base f) i

  pub record IsTree (own : Owners) (s : Vmm) : Type 0 where
    pub valid : IsValid s.pmm
    pub unowned : (f : ℕ) → f < frames → bitmap_test s.pmm.bitmap f ≡ false → (own f).level ≡ 0
    pub tables : (f : ℕ) → 0 < (own f).level → f < frames
    pub entries :
        (f i : ℕ)
        → 2 ≤ (own f).level
        → i < 512
        → present (s.mem (slot f i)) ≡ true
        → Child own f i (s.mem (slot f i))

  -- The index that page number `page` has in a table of level `suc k`.
  abbrev pub page_index : ℕ → ℕ → ℕ
  page_index k page = page / 512 ^ k % 512

  -- The frame and the index of the last entry on a walk from a table of the given level.
  abbrev pub leaf : Memory → ℕ → ℕ → ℕ → Option (ℕ × ℕ)
  leaf m zero f page = none
  leaf m (suc zero) f page = some (f, page_index 0 page)
  leaf m (suc (suc k)) f page =
      if present (m (slot f (page_index (suc k) page)))
      then leaf m (suc k) (bit_and (m (slot f (page_index (suc k) page))) page_mask / page_size)
          page
      else none

  -- The entry at the end of a walk; zero if the walk breaks off.
  abbrev pub entry_at : Memory → Option (ℕ × ℕ) → ℕ
  entry_at m none = 0
  entry_at m (some (f, i)) = m (slot f i)

  pub present-zero : present 0 ≡ false
  unfolding present
  present-zero = refl

  -- In a table whose entries are all zero every walk ends at zero.
  pub entry_at-empty :
      (m : Memory) (k g page : ℕ)
      → ((j : ℕ) → j < 512 → m (slot g j) ≡ 0)
      → entry_at m (leaf m k g page) ≡ 0
  entry_at-empty m zero g page empty = refl
  entry_at-empty m (suc zero) g page empty = empty _ (omega arith)
  entry_at-empty m (suc (suc k)) g page empty =
      rw (empty (page_index (suc k) page) (omega arith), present-zero) refl

  pub slot-ne :
      (f g i j : ℕ) → i < 512 → j < 512 → (f ≢ g) ⊎ (i ≢ j) → (slot f i == slot g j) ≡ false
  slot-ne f g i j hi hj h = go h
    where
      go : (f ≢ g) ⊎ (i ≢ j) → (slot f i == slot g j) ≡ false
      go (inl ne) = ground arith
      go (inr ne) = ground arith

  -- A new empty table behind an entry that was not present changes the end of no walk.
  module _ {own : Owners} {s : Vmm} (tree : IsTree own s) (f i g : ℕ) (m : Memory) where
    pub entry_at-grow :
        2 ≤ (own f).level
        → present (s.mem (slot f i)) ≡ false
        → bit_and (m (slot f i)) page_mask ≡ g * page_size
        → ((j : ℕ) → j < 512 → m (slot g j) ≡ 0)
        → ((h j : ℕ)
            → 0 < (own h).level
            → j < 512
            → (h ≢ f) ⊎ (j ≢ i)
            → m (slot h j) ≡ s.mem (slot h j))
        → (k h page : ℕ) → (own h).level ≡ k
        → entry_at m (leaf m k h page) ≡ entry_at s.mem (leaf s.mem k h page)
    entry_at-grow two absent names empty same zero h page lv = refl
    entry_at-grow two absent names empty same (suc zero) h page lv =
        same h _ (omega arith) (omega arith)
          (inl (λ e. omega (arith, ap (λ (x : ℕ). (own x).level) e)))
    entry_at-grow two absent names empty same (suc (suc k)) h page lv =
        go (entry_at-grow two absent names empty same (suc k)) (Bool-cases (h == f))
          (Bool-cases (page_index (suc k) page == i))
      where
        idx : ℕ
        idx = page_index (suc k) page

        Goal : Type 0
        Goal =
            entry_at m (leaf m (suc (suc k)) h page)
            ≡ entry_at s.mem (leaf s.mem (suc (suc k)) h page)

        Below : Type 0
        Below =
            (h page : ℕ)
            → (own h).level ≡ suc k
            → entry_at m (leaf m (suc k) h page) ≡ entry_at s.mem (leaf s.mem (suc k) h page)

        other : Below → (h ≢ f) ⊎ (idx ≢ i) → Goal
        other ih ne =
            rw (same h idx (omega arith) (omega arith) ne)
              (elim (Bool-cases (present (s.mem (slot h idx)))) [
                | inl p ↦
                    let c = tree.entries h idx (omega arith) (omega arith) p in
                    let e : bit_and (s.mem (slot h idx)) page_mask / page_size ≡ c.target =
                      omega (arith, c.names) in
                    rw (p, e) (ih c.target page (omega (arith, c.below)))
                | inr p ↦ rw p refl
              ])

        go :
            Below
            → ((h == f) ≡ true) ⊎ ((h == f) ≡ false)
            → ((idx == i) ≡ true) ⊎ ((idx == i) ≡ false)
            → Goal
        go ih (inr ne) q = other ih (inl (==→ne h f ne))
        go ih (inl e) (inr ne) = other ih (inr (==→ne idx i ne))
        go ih (inl e) (inl q) =
            rw (==→eq h f e, ==→eq idx i q, absent)
              (elim (Bool-cases (present (m (slot f i)))) [
                | inl p ↦
                    let back : bit_and (m (slot f i)) page_mask / page_size ≡ g =
                      omega (arith, names) in
                    rw (p, back) (entry_at-empty m (suc k) g page empty)
                | inr p ↦ rw p refl
              ])
