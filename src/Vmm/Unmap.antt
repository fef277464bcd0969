-- ===== src/Vmm/Unmap.antt =====
-- `vmm_unmap_page` against the translation of addresses.
use ppo_os.Common.{
  ℕ, ◌*◌, ◌/◌, ◌≡◌, refl, sym, ap, ◌∙◌, ◌⊎◌, inl, inr, true, false, Option, none, some,
  if◌then◌else◌, not, Bool-cases, option_case,
}
use ppo_os.Pmm.{page_size}
use ppo_os.Vmm.{Vmm, present, write_word, vmm_unmap_page, vmm_get_physical_address}
use ppo_os.Vmm.Tree.{Owners, IsTree, slot, leaf, entry_at, present-zero}
use ppo_os.Vmm.Walk.{IsDirect, resolve, get-entry_at, unmap-leaf}
use ppo_os.Vmm.Leaf.{
  same_page, leaf-level, leaf-path, same_page-SamePath, entry_at-write, written-IsTree,
}

module _ (hhdm : ℕ) (direct : IsDirect hhdm) where
  -- On a tree of page tables, after `vmm_unmap_page` no address of the page translates, and every
  -- other one translates as before.
  pub get-unmap :
      {own : Owners} {s : Vmm} (root v w : ℕ)
      → IsTree hhdm own s
      → (own root).level ≡ 4
      → vmm_get_physical_address hhdm
          (vmm_unmap_page hhdm s (root * page_size) v).mem
          (root * page_size)
          w
        ≡ (if same_page v w then 0 else vmm_get_physical_address hhdm s.mem (root * page_size) w)
  get-unmap {own} {s} root v w tree top =
      rw (unmap-leaf hhdm direct tree root v top)
        (go (leaf hhdm s.mem 4 root (v / page_size)) refl (Bool-cases (same_page v w)))
    where
      Result : Vmm → Type 0
      Result s' =
          vmm_get_physical_address hhdm s'.mem (root * page_size) w
          ≡ (if same_page v w then 0 else vmm_get_physical_address hhdm s.mem (root * page_size) w)

      -- Nothing was mapped.
      absent :
          (o : Option (ℕ × ℕ))
          → leaf hhdm s.mem 4 root (v / page_size) ≡ o
          → present (entry_at hhdm s.mem o) ≡ false
          → (same_page v w ≡ true) ⊎ (same_page v w ≡ false)
          → Result s
      absent o e no_entry (inr n) = rw n refl
      absent o e no_entry (inl y) =
          rw
            (
              y,
              get-entry_at hhdm direct tree root w top,
              ← leaf-path hhdm tree 3 root (v / page_size) (w / page_size) s.mem
                  (same_page-SamePath hhdm tree v w y),
              e,
              no_entry,
            )
            refl

      cleared : ℕ → ℕ → Vmm
      cleared t j = record s { mem = write_word s.mem (slot hhdm t j) 0 }

      go :
          (o : Option (ℕ × ℕ))
          → leaf hhdm s.mem 4 root (v / page_size) ≡ o
          → (same_page v w ≡ true) ⊎ (same_page v w ≡ false)
          → Result (
              option_case o s
                (λ (t, j). if not (present (s.mem (slot hhdm t j))) then s else cleared t j))
      go none e c = absent none e (present-zero hhdm) c
      go (some (t, j)) e c = elim (Bool-cases (present (s.mem (slot hhdm t j)))) [
        | inr no_entry ↦ rw no_entry (absent (some (t, j)) e no_entry c)
        | inl shown ↦ rw shown (
            let end = leaf-level hhdm tree 3 root (v / page_size) t j top e in
            let tree' = written-IsTree hhdm tree t j 0 end.0 end.1 in
            get-entry_at hhdm direct tree' root w top
            ∙ ap (λ (x : ℕ). resolve x w)
                (entry_at-write hhdm tree t j 0 end.0 end.1 root v w top e)
            ∙ split c)
      ]
        where
          split :
              (same_page v w ≡ true) ⊎ (same_page v w ≡ false)
              → resolve
                  (if same_page v w
                    then 0
                    else entry_at hhdm s.mem (leaf hhdm s.mem 4 root (w / page_size)))
                  w
                ≡ (if same_page v w
                    then 0
                    else vmm_get_physical_address hhdm s.mem (root * page_size) w)
          split (inl y) = rw (y, present-zero hhdm) refl
          split (inr n) = rw n (sym (get-entry_at hhdm direct tree root w top))
