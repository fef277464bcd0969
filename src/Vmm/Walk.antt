-- ===== src/Vmm/Walk.antt =====
-- Walks through the tree: no two pages share a last entry, and `vmm_get_physical_address` reads the
-- entry at the end of the walk.
use ppo_os.Common.{
  ℕ, zero, suc, ◌+◌, ◌*◌, ◌/◌, ◌%◌, ◌^◌, ◌≤◌, ◌<◌, ◌≡◌, refl, ap, ◌∙◌, ◌⊎◌, inl, inr, true, false,
  Option, none, some, bit_and, bit_or, arith, option_case, if◌then◌else◌, not, Bool-cases,
}
use ppo_os.Pmm.{page_size}
use ppo_os.Vmm.{
  Vmm, page_mask, present, entry_addr, phys_to_virt, follow, table_index, vmm_get_physical_address,
  vmm_unmap_page, write_word,
}
use ppo_os.Vmm.Entry.{table_index_lem}
use ppo_os.Vmm.Tree.{Owners, IsTree, base, slot, page_index, leaf, entry_at, present-zero}

-- The direct map of 4 GiB stays inside the address space.
abbrev pub IsDirect : ℕ → Type 0
IsDirect hhdm = hhdm + 2 ^ 32 ≤ 2 ^ 64

-- The value that a translation makes of the entry at the end of its walk.
abbrev pub resolve : ℕ → ℕ → ℕ
resolve pte virt_addr =
    if not (present pte) then 0 else bit_or (bit_and pte page_mask) (bit_and virt_addr 4095)

module _ (hhdm : ℕ) (direct : IsDirect hhdm) where
  pub virt-base : (f : ℕ) → f < 2 ^ 20 → phys_to_virt hhdm (f * page_size) ≡ base hhdm f
  unfolding phys_to_virt
  virt-base f small = omega arith

module _ (hhdm : ℕ) {own : Owners} {s : Vmm} (tree : IsTree hhdm own s) where
  abbrev pub SamePath : ℕ → ℕ → ℕ → Type 0
  SamePath k page page' = (j : ℕ) → j ≤ k → page_index hhdm j page ≡ page_index hhdm j page'

  -- Walks from two tables of one level that end at the same entry are the same walk.
  pub leaf-injective :
      (k : ℕ) (p : ℕ × ℕ) (f f' page page' : ℕ)
      → (own f).level ≡ suc k
      → (own f').level ≡ suc k
      → leaf hhdm s.mem (suc k) f page ≡ some p
      → leaf hhdm s.mem (suc k) f' page' ≡ some p
      → (f ≡ f') × SamePath k page page'
  leaf-injective zero p f f' page page' lv lv' e e' =
      (ground arith, λ j le. let z : j ≡ 0 = omega arith in rw z (ground arith))
  leaf-injective (suc k) p f f' page page' lv lv' e e' =
      go (Bool-cases (present (s.mem (slot hhdm f i))))
        (Bool-cases (present (s.mem (slot hhdm f' i')))) (leaf-injective k)
    where
      i : ℕ
      i = page_index hhdm (suc k) page

      i' : ℕ
      i' = page_index hhdm (suc k) page'

      Ih : Type 0
      Ih =
          (p : ℕ × ℕ) (f f' page page' : ℕ)
          → (own f).level ≡ suc k
          → (own f').level ≡ suc k
          → leaf hhdm s.mem (suc k) f page ≡ some p
          → leaf hhdm s.mem (suc k) f' page' ≡ some p
          → (f ≡ f') × SamePath k page page'

      order : (j : ℕ) → j ≤ suc k → (j ≤ k) ⊎ (j ≡ suc k)
      order j le = omega arith

      go :
          (present (s.mem (slot hhdm f i)) ≡ true) ⊎ (present (s.mem (slot hhdm f i)) ≡ false)
          → (present (s.mem (slot hhdm f' i')) ≡ true) ⊎ (present (s.mem (slot hhdm f' i')) ≡ false)
          → Ih
          → (f ≡ f') × SamePath (suc k) page page'
      go (inr a) b ih = absurd (ground (arith, a))
      go (inl a) (inr b) ih = absurd (ground (arith, b))
      go (inl a) (inl b) ih =
          let c = tree.entries f i (omega arith) (omega arith) a in
          let c' = tree.entries f' i' (omega arith) (omega arith) b in
          let t : bit_and (s.mem (slot hhdm f i)) page_mask / page_size ≡ c.target =
            omega (arith, c.names) in
          let t' : bit_and (s.mem (slot hhdm f' i')) page_mask / page_size ≡ c'.target =
            omega (arith, c'.names) in
          let (same, path) =
            ih p c.target c'.target page page' (omega (arith, c.below)) (omega (arith, c'.below))
              (rw (a, t) at e) (rw (b, t') at e') in
          let at_top : i ≡ i' = cc (c.index, c'.index, same) in
          (
            cc (c.parent, c'.parent, same),
            λ j le. elim (order j le) [ inl below ↦ path j below | inr top ↦ rw top at_top ],
          )

module _ (hhdm : ℕ) (direct : IsDirect hhdm) {own : Owners} {s : Vmm}
    (tree : IsTree hhdm own s) where
  -- A present entry of a table leads to the table that belongs to it.
  pub follow-some :
      (f i : ℕ)
      → 2 ≤ (own f).level
      → i < 512
      → present (s.mem (slot hhdm f i)) ≡ true
      → (g : ℕ) × (follow hhdm s.mem (base hhdm f) i ≡ some (base hhdm g))
        × (bit_and (s.mem (slot hhdm f i)) page_mask / page_size ≡ g)
        × ((own g).level + 1 ≡ (own f).level)
  unfolding follow
  follow-some f i two lt p =
      let c = tree.entries f i two lt p in
      (
        c.target,
        rw (p, c.names) (ap some (virt-base hhdm direct c.target c.small)),
        omega (arith, c.names),
        c.below,
      )

  pub follow-none :
      (f i : ℕ) → present (s.mem (slot hhdm f i)) ≡ false → follow hhdm s.mem (base hhdm f) i ≡ none
  unfolding follow
  follow-none f i p = rw p refl

  module _ {ℓ} {B : Type ℓ} (page : ℕ) (broken : B) (reached : ℕ → B) where
    -- The walk by recursion on the level, from a table's virtual address.
    abbrev walk : ℕ → ℕ → B
    walk zero table = broken
    walk (suc zero) table = reached (entry_addr table (page_index hhdm 0 page))
    walk (suc (suc k)) table =
        option_case (follow hhdm s.mem table (page_index hhdm (suc k) page)) broken
          λ next. walk (suc k) next

    walk-leaf :
        (k f : ℕ)
        → (own f).level ≡ suc k
        → walk (suc k) (base hhdm f)
          ≡ option_case (leaf hhdm s.mem (suc k) f page) broken (λ (t, j). reached (slot hhdm t j))
    walk-leaf zero f lv = refl
    walk-leaf (suc k) f lv = go (walk-leaf k) (Bool-cases (present (s.mem (slot hhdm f i))))
      where
        i : ℕ
        i = page_index hhdm (suc k) page

        Ih : Type ℓ
        Ih =
            (f : ℕ)
            → (own f).level ≡ suc k
            → walk (suc k) (base hhdm f)
              ≡ option_case (leaf hhdm s.mem (suc k) f page) broken
                  (λ (t, j). reached (slot hhdm t j))

        go :
            Ih
            → (present (s.mem (slot hhdm f i)) ≡ true) ⊎ (present (s.mem (slot hhdm f i)) ≡ false)
            → walk (suc (suc k)) (base hhdm f)
              ≡ option_case
                  (leaf hhdm s.mem (suc (suc k)) f page)
                  broken
                  (λ (t, j). reached (slot hhdm t j))
        go ih (inl p) =
            let (g, to, t, below) = follow-some f i (omega arith) (omega arith) p in
            rw (to, p, t) (ih g (omega arith))
        go ih (inr p) = rw (follow-none f i p, p) refl

  pub shift :
      (a b v : ℕ)
      → v / 2 ^ a % 512 ≡ page_index hhdm b (v / page_size)
      → table_index a v ≡ page_index hhdm b (v / page_size)
  shift a b v e = table_index_lem a v ∙ e

  module _ (root v : ℕ) (lv : (own root).level ≡ 4) where
    pub at_root : phys_to_virt hhdm (root * page_size) ≡ base hhdm root
    at_root = virt-base hhdm direct root (tree.tables root (omega arith))

    -- `vmm_get_physical_address` resolves the entry at the end of the four-level walk.
    pub get-entry_at :
        vmm_get_physical_address hhdm s.mem (root * page_size) v
        ≡ resolve (entry_at hhdm s.mem (leaf hhdm s.mem 4 root (v / page_size))) v
    unfolding vmm_get_physical_address
    get-entry_at =
        rw
          (
            at_root,
            shift 39 3 v (omega arith),
            shift 30 2 v (omega arith),
            shift 21 1 v (omega arith),
            shift 12 0 v (omega arith),
            vmm_get_physical_address,
          )
          (walk-leaf (v / page_size) 0 (λ a. resolve (s.mem a) v) 3 root lv
            ∙ ends (leaf hhdm s.mem 4 root (v / page_size)))
      where
        ends :
            (o : Option (ℕ × ℕ))
            → option_case o 0 (λ (t, j). resolve (s.mem (slot hhdm t j)) v)
              ≡ resolve (entry_at hhdm s.mem o) v
        ends none = rw (present-zero hhdm) refl
        ends (some (t, j)) = refl

    -- `vmm_unmap_page` clears the entry at the end of the walk, if it is present.
    pub unmap-leaf :
        vmm_unmap_page hhdm s (root * page_size) v
        ≡ option_case (leaf hhdm s.mem 4 root (v / page_size)) s (λ (t, j).
          if not (present (s.mem (slot hhdm t j)))
          then s
          else record s { mem = write_word s.mem (slot hhdm t j) 0 })
    unfolding vmm_unmap_page
    unmap-leaf =
        rw
          (
            at_root,
            shift 39 3 v (omega arith),
            shift 30 2 v (omega arith),
            shift 21 1 v (omega arith),
            shift 12 0 v (omega arith),
            vmm_unmap_page,
          )
          (walk-leaf (v / page_size) s
            (λ a. if not (present (s.mem a)) then s else record s { mem = write_word s.mem a 0 }) 3
            root lv)
