-- ===== src/Vmm/Leaf.antt =====
-- Writing the entry at the end of a walk changes the end of exactly the walks of the same page.
use ppo_os.Common.{
  ℕ, zero, suc, ◌/◌, ◌%◌, ◌^◌, ◌≤◌, ◌<◌, ◌≡◌, ◌≢◌, refl, ap, ◌⊎◌, inl, inr, Bool, true, false,
  Option, none, some, bit_and, arith, ◌==◌, if◌then◌else◌, Bool-cases, ==→eq, ==→ne, eq→==,
}
use ppo_os.Pmm.{page_size}
use ppo_os.Vmm.{Vmm, Memory, page_mask, present, write_word}
use ppo_os.Vmm.Tree.{Owners, IsTree, slot, page_index, leaf, entry_at, slot-ne}
use ppo_os.Vmm.Walk.{SamePath, leaf-injective}

-- Two addresses in one page of the 48-bit space that four levels of tables translate.
abbrev pub same_page : ℕ → ℕ → Bool
same_page v w = v / page_size % 2 ^ 36 == w / page_size % 2 ^ 36

module _ (hhdm : ℕ) {own : Owners} {s : Vmm} (tree : IsTree hhdm own s) where
  -- A walk ends in a page table.
  pub leaf-level :
      (k f page t j : ℕ)
      → (own f).level ≡ suc k
      → leaf hhdm s.mem (suc k) f page ≡ some (t, j)
      → ((own t).level ≡ 1) × (j < 512)
  leaf-level zero f page t j lv e =
      let et : f ≡ t = ground arith in
      let ej : page_index hhdm 0 page ≡ j = ground arith in (rw (← et) lv, omega arith)
  leaf-level (suc k) f page t j lv e =
      go (leaf-level k) (Bool-cases (present (s.mem (slot hhdm f i))))
    where
      i : ℕ
      i = page_index hhdm (suc k) page

      Ih : Type 0
      Ih =
          (f page t j : ℕ)
          → (own f).level ≡ suc k
          → leaf hhdm s.mem (suc k) f page ≡ some (t, j)
          → ((own t).level ≡ 1) × (j < 512)

      go :
          Ih
          → (present (s.mem (slot hhdm f i)) ≡ true) ⊎ (present (s.mem (slot hhdm f i)) ≡ false)
          → ((own t).level ≡ 1) × (j < 512)
      go ih (inr p) = absurd (ground (arith, p))
      go ih (inl p) =
          let c = tree.entries f i (omega arith) (omega arith) p in
          let back : bit_and (s.mem (slot hhdm f i)) page_mask / page_size ≡ c.target =
            omega (arith, c.names) in
          ih c.target page t j (omega (arith, c.below)) (rw (p, back) at e)

  -- Walks depend on the page's indices only.
  pub leaf-path :
      (k f page page' : ℕ) (m : Memory)
      → SamePath hhdm tree k page page'
      → leaf hhdm m (suc k) f page ≡ leaf hhdm m (suc k) f page'
  leaf-path zero f page page' m path = rw (path 0 (omega arith)) refl
  leaf-path (suc k) f page page' m path = rw (path (suc k) (omega arith)) (
      go _ (
        leaf-path k
          (bit_and (m (slot hhdm f (page_index hhdm (suc k) page'))) page_mask / page_size) page
          page' m (λ j le. path j (omega arith))))
    where
      go :
          {a b : Option (ℕ × ℕ)} (c : Bool)
          → a ≡ b
          → (if c then a else none) ≡ (if c then b else none)
      go c e = ap (λ (o : Option (ℕ × ℕ)). if c then o else none) e

  pub same_page-SamePath :
      (v w : ℕ) → same_page v w ≡ true → SamePath hhdm tree 3 (v / page_size) (w / page_size)
  same_page-SamePath v w h zero le = omega (arith, ==→eq _ _ h)
  same_page-SamePath v w h (suc zero) le = omega (arith, ==→eq _ _ h)
  same_page-SamePath v w h (suc (suc zero)) le = omega (arith, ==→eq _ _ h)
  same_page-SamePath v w h (suc (suc (suc zero))) le = omega (arith, ==→eq _ _ h)
  same_page-SamePath v w h (suc (suc (suc (suc k)))) le = absurd (omega arith)

  module _ (t j e : ℕ) (pt : (own t).level ≡ 1) (jlt : j < 512) where
    abbrev written : Memory
    written = write_word s.mem (slot hhdm t j) e

    upper_same :
        (f i : ℕ) → 2 ≤ (own f).level → i < 512 → written (slot hhdm f i) ≡ s.mem (slot hhdm f i)
    upper_same f i two ilt = ground (
      arith,
      slot-ne hhdm f t i j ilt jlt (inl (λ q. omega (arith, ap (λ (x : ℕ). (own x).level) q))),
    )

    -- A page table's entry is on no walk but at its end.
    pub leaf-write :
        (k f page : ℕ)
        → (own f).level ≡ suc k
        → leaf hhdm written (suc k) f page ≡ leaf hhdm s.mem (suc k) f page
    leaf-write zero f page lv = refl
    leaf-write (suc k) f page lv =
        rw (upper_same f i (omega arith) (omega arith))
          (go (leaf-write k) (Bool-cases (present (s.mem (slot hhdm f i)))))
      where
        i : ℕ
        i = page_index hhdm (suc k) page

        Ih : Type 0
        Ih =
            (f page : ℕ)
            → (own f).level ≡ suc k
            → leaf hhdm written (suc k) f page ≡ leaf hhdm s.mem (suc k) f page

        target : ℕ
        target = bit_and (s.mem (slot hhdm f i)) page_mask / page_size

        go :
            Ih
            → (present (s.mem (slot hhdm f i)) ≡ true) ⊎ (present (s.mem (slot hhdm f i)) ≡ false)
            → (if present (s.mem (slot hhdm f i))
                then leaf hhdm written (suc k) target page
                else none)
              ≡ (if present (s.mem (slot hhdm f i))
                  then leaf hhdm s.mem (suc k) target page
                  else none)
        go ih (inr p) = rw p refl
        go ih (inl p) =
            let c = tree.entries f i (omega arith) (omega arith) p in
            let back : target ≡ c.target = omega (arith, c.names) in
            rw (p, back) (ih c.target page (omega (arith, c.below)))

    pub written-IsTree : IsTree hhdm own (record s { mem = written })
    written-IsTree = record {
      valid = tree.valid;
      unowned = tree.unowned;
      tables = tree.tables;
      entries = λ f i two ilt p.
          let same = upper_same f i two ilt in rw same (tree.entries f i two ilt (rw same at p));
    }

    -- The new entry ends the walks of its own page; every other walk ends as before.
    pub entry_at-write :
        (root v w : ℕ)
        → (own root).level ≡ 4
        → leaf hhdm s.mem 4 root (v / page_size) ≡ some (t, j)
        → entry_at hhdm written (leaf hhdm written 4 root (w / page_size)) ≡ (
            if same_page v w
            then e
            else entry_at hhdm s.mem (leaf hhdm s.mem 4 root (w / page_size)))
    entry_at-write root v w lv end =
        rw (leaf-write 3 root (w / page_size) lv) (elim (Bool-cases (same_page v w)) [
          | inl same ↦
              rw
                (
                  same,
                  ← leaf-path 3 root (v / page_size) (w / page_size) s.mem
                      (same_page-SamePath v w same),
                  end,
                )
                (rw (eq→== (slot hhdm t j) (slot hhdm t j) refl) refl)
          | inr ne ↦ rw ne (other (leaf hhdm s.mem 4 root (w / page_size)) refl ne)
        ])
      where
        meet : SamePath hhdm tree 3 (v / page_size) (w / page_size) → same_page v w ≡ true
        meet path = eq→== _ _ (
            omega (
              arith,
              path 0 (omega arith),
              path 1 (omega arith),
              path 2 (omega arith),
              path 3 (omega arith),
            ))

        other :
            (o : Option (ℕ × ℕ))
            → leaf hhdm s.mem 4 root (w / page_size) ≡ o
            → same_page v w ≡ false
            → entry_at hhdm written o ≡ entry_at hhdm s.mem o
        other none q ne = refl
        other (some (t', j')) q ne =
            let lvl = leaf-level 3 root (w / page_size) t' j' lv q in
            ground (
              arith,
              slot-ne hhdm t' t j' j lvl.1 jlt
                  (apart (Bool-cases (t' == t)) (Bool-cases (j' == j))),
            )
          where
            apart :
                ((t' == t) ≡ true) ⊎ ((t' == t) ≡ false)
                → ((j' == j) ≡ true) ⊎ ((j' == j) ≡ false)
                → (t' ≢ t) ⊎ (j' ≢ j)
            apart (inr n) b = inl (==→ne t' t n)
            apart (inl a) (inr n) = inr (==→ne j' j n)
            apart (inl a) (inl b) = absurd (
                cc (
                  ne,
                  meet
                      (leaf-injective hhdm tree 3 (t, j) root root (v / page_size) (w / page_size)
                        lv lv end (rw (==→eq t' t a, ==→eq j' j b) at q)).1,
                ))
