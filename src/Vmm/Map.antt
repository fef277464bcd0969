-- ===== src/Vmm/Map.antt =====
-- `vmm_map_page` against the translation of addresses.
use ppo_os.Common.{
  ℕ, ◌*◌, ◌/◌, ◌<◌, ◌≡◌, refl, sym, ap, ◌∙◌, ◌⊎◌, inl, inr, Bool, true, false, Option, none, some,
  bit_or, arith, if◌then◌else◌, ◌&&◌, Bool-cases, option_case,
}
use ppo_os.Pmm.{page_size}
use ppo_os.Vmm.{Vmm, entry_addr, write_word, next_table, vmm_map_page, vmm_get_physical_address}
use ppo_os.Vmm.Tree.{Owners, IsTree, slot, base, page_index, leaf, entry_at}
use ppo_os.Vmm.Walk.{IsDirect, resolve, get-entry_at, at_root, shift}
use ppo_os.Vmm.Grow.{Stepped, next_table_cases}
use ppo_os.Vmm.Leaf.{same_page, leaf-level, entry_at-write, written-IsTree}

module _ (hhdm : ℕ) (direct : IsDirect hhdm) where
  -- A state with a tree in which the root still stands and every walk ends as it did in `s`.
  pub record Walked (s : Vmm) (root : ℕ) (s' : Vmm) : Type 0 where
    pub own : Owners
    pub tree : IsTree hhdm own s'
    pub top : (own root).level ≡ 4
    pub same :
        (page : ℕ)
        → entry_at hhdm s'.mem (leaf hhdm s'.mem 4 root page)
          ≡ entry_at hhdm s.mem (leaf hhdm s.mem 4 root page)

  module _ (s : Vmm) (root v pa flags : ℕ) where
    abbrev page : ℕ
    page = v / page_size

    -- The walk reached the page table in frame `t`, where the entry is written.
    record Reached (s' : Vmm) (out : Vmm × Bool) : Type 0 where
      before : Vmm
      walked : Walked s root before
      t : ℕ
      end : leaf hhdm before.mem 4 root page ≡ some (t, page_index hhdm 0 page)
      result : out ≡ (
        record before {
          mem = write_word before.mem (slot hhdm t (page_index hhdm 0 page)) (bit_or pa flags);
        },
        true,
      )

    abbrev MapOutcome : Vmm × Bool → Type 0
    MapOutcome out = ((s' : Vmm) × Walked s root s' × (out ≡ (s', false))) ⊎ Reached s out

    abbrev idx : ℕ → ℕ
    idx k = page_index hhdm k page

    -- The rest of `vmm_map_page` behind each of its three steps down.
    abbrev from_pt : Vmm × Option ℕ → Vmm × Bool
    from_pt (s3, pt) =
        option_case pt (s3, false)
          λ pt_virt. (
            record s3 { mem = write_word s3.mem (entry_addr pt_virt (idx 0)) (bit_or pa flags) },
            true,
          )

    abbrev from_pd : Vmm × Option ℕ → Vmm × Bool
    from_pd (s2, pd) =
        option_case pd (s2, false) λ pd_virt. from_pt (next_table hhdm s2 pd_virt (idx 1))

    abbrev from_pdpt : Vmm × Option ℕ → Vmm × Bool
    from_pdpt (s1, pdpt) =
        option_case pdpt (s1, false) λ pdpt_virt. from_pd (next_table hhdm s1 pdpt_virt (idx 2))

    map-from_pdpt :
        {own : Owners}
        → IsTree hhdm own s
        → (own root).level ≡ 4
        → vmm_map_page hhdm s (root * page_size) v pa flags
          ≡ from_pdpt (next_table hhdm s (base hhdm root) (idx 3))
    unfolding vmm_map_page
    map-from_pdpt tree top =
        rw
          (
            at_root hhdm direct tree root v top,
            shift hhdm direct tree 39 3 v (omega arith),
            shift hhdm direct tree 30 2 v (omega arith),
            shift hhdm direct tree 21 1 v (omega arith),
            shift hhdm direct tree 12 0 v (omega arith),
          )
          refl

    module _ {own : Owners} (tree : IsTree hhdm own s) (top : (own root).level ≡ 4) {s1 : Vmm}
        (st1 : Stepped hhdm direct own s root (idx 3) s1) where
      top1 : (st1.own' root).level ≡ 4
      top1 = rw (st1.keeps root (omega arith)) top

      walked1 : Walked s root s1
      walked1 = record {
        own = st1.own';
        tree = st1.tree;
        top = top1;
        same = λ p. st1.same 4 root p top;
      }

      module _ {s2 : Vmm} (st2 : Stepped hhdm direct st1.own' s1 st1.next (idx 2) s2) where
        top2 : (st2.own' root).level ≡ 4
        top2 = rw (st2.keeps root (omega (arith, top1))) top1

        walked2 : Walked s root s2
        walked2 = record {
          own = st2.own';
          tree = st2.tree;
          top = top2;
          same = λ p. st2.same 4 root p top1 ∙ walked1.same p;
        }

        root2 : s2.mem (slot hhdm root (idx 3)) ≡ s1.mem (slot hhdm root (idx 3))
        root2 = st2.kept root (idx 3) (omega (arith, top1)) (omega arith) st1.shown

        module _ {s3 : Vmm} (st3 : Stepped hhdm direct st2.own' s2 st2.next (idx 1) s3) where
          walked3 : Walked s root s3
          walked3 = record {
            own = st3.own';
            tree = st3.tree;
            top = rw (st3.keeps root (omega (arith, top2))) top2;
            same = λ p. st3.same 4 root p top2 ∙ walked2.same p;
          }

          root3 : s3.mem (slot hhdm root (idx 3)) ≡ s1.mem (slot hhdm root (idx 3))
          root3 =
              st3.kept root (idx 3) (omega (arith, top2)) (omega arith) (rw root2 st1.shown) ∙ root2

          pdpt_level : 0 < (st2.own' st1.next).level
          pdpt_level =
              let at1 : (st1.own' st1.next).level ≡ 3 = omega (arith, st1.below, top) in
              rw (st2.keeps st1.next (omega arith), at1) (omega arith)

          pdpt3 : s3.mem (slot hhdm st1.next (idx 2)) ≡ s2.mem (slot hhdm st1.next (idx 2))
          pdpt3 = st3.kept st1.next (idx 2) pdpt_level (omega arith) st2.shown

          end3 : leaf hhdm s3.mem 4 root page ≡ some (st3.next, idx 0)
          end3 =
              rw (root3, st1.shown, st1.names, pdpt3, st2.shown, st2.names, st3.shown, st3.names)
                refl

          reached3 : Reached s (from_pt (s3, some (base hhdm st3.next)))
          reached3 = record {
            before = s3;
            walked = walked3;
            t = st3.next;
            end = end3;
            result = refl;
          }

        level2 : (st2.own' st2.next).level ≡ 2
        level2 =
            let at1 : (st1.own' st1.next).level ≡ 3 = omega (arith, st1.below, top) in
            omega (arith, st2.below)

        from_pt_cases : MapOutcome (from_pt (next_table hhdm s2 (base hhdm st2.next) (idx 1)))
        from_pt_cases = go (
            next_table_cases hhdm direct st2.tree st2.next (idx 1) (omega (arith, level2))
              (omega arith))
          where
            go :
                (next_table hhdm s2 (base hhdm st2.next) (idx 1) ≡ (s2, none))
                  ⊎ ((s3 : Vmm) × (st3 : Stepped hhdm direct st2.own' s2 st2.next (idx 1) s3)
                      × (next_table hhdm s2 (base hhdm st2.next) (idx 1)
                          ≡ (s3, some (base hhdm st3.next))))
                → MapOutcome (from_pt (next_table hhdm s2 (base hhdm st2.next) (idx 1)))
            go (inl e) = rw e (inl (s2, walked2, refl))
            go (inr (s3, st3, e)) = rw e (inr (reached3 st3))

      level3 : (st1.own' st1.next).level ≡ 3
      level3 = omega (arith, st1.below, top)

      from_pd_cases : MapOutcome (from_pd (next_table hhdm s1 (base hhdm st1.next) (idx 2)))
      from_pd_cases = go (
          next_table_cases hhdm direct st1.tree st1.next (idx 2) (omega (arith, level3))
            (omega arith))
        where
          go :
              (next_table hhdm s1 (base hhdm st1.next) (idx 2) ≡ (s1, none))
                ⊎ ((s2 : Vmm) × (st2 : Stepped hhdm direct st1.own' s1 st1.next (idx 2) s2)
                    × (next_table hhdm s1 (base hhdm st1.next) (idx 2)
                        ≡ (s2, some (base hhdm st2.next))))
              → MapOutcome (from_pd (next_table hhdm s1 (base hhdm st1.next) (idx 2)))
          go (inl e) = rw e (inl (s1, walked1, refl))
          go (inr (s2, st2, e)) = rw e (from_pt_cases st2)

    module _ {own : Owners} (tree : IsTree hhdm own s) (top : (own root).level ≡ 4) where
      map_cases : MapOutcome (vmm_map_page hhdm s (root * page_size) v pa flags)
      map_cases =
          rw (map-from_pdpt tree top)
            (go (next_table_cases hhdm direct tree root (idx 3) (omega arith) (omega arith)))
        where
          go :
              (next_table hhdm s (base hhdm root) (idx 3) ≡ (s, none))
                ⊎ ((s1 : Vmm) × (st1 : Stepped hhdm direct own s root (idx 3) s1) × (next_table hhdm
                        s
                        (base hhdm root)
                        (idx 3)
                      ≡ (s1, some (base hhdm st1.next))))
              → MapOutcome (from_pdpt (next_table hhdm s (base hhdm root) (idx 3)))
          go (inl e) =
              rw e (inl (s, record { own = own; tree = tree; top = top; same = λ p. refl }, refl))
          go (inr (s1, st1, e)) = rw e (from_pd_cases tree top st1)

      -- What `vmm_map_page` promises, of the state it leaves and its result.
      pub record Mapped (out : Vmm × Bool) : Type 0 where
        pub own' : Owners
        pub tree' : IsTree hhdm own' out.0
        pub top' : (own' root).level ≡ 4
        pub translates :
            (w : ℕ)
            → vmm_get_physical_address hhdm out.0.mem (root * page_size) w ≡ (
                if out.1 && same_page v w
                then resolve (bit_or pa flags) w
                else vmm_get_physical_address hhdm s.mem (root * page_size) w)

      mapped : {out : Vmm × Bool} → MapOutcome out → Mapped out
      mapped (inl (s', walked, e)) = rw e (record {
        own' = walked.own;
        tree' = walked.tree;
        top' = walked.top;
        translates = λ w.
            get-entry_at hhdm direct walked.tree root w walked.top
            ∙ ap (λ (x : ℕ). resolve x w) (walked.same (w / page_size))
            ∙ sym (get-entry_at hhdm direct tree root w top);
      })
      mapped (inr r) = rw r.result (record {
        own' = r.walked.own;
        tree' = new_tree;
        top' = r.walked.top;
        translates = λ w.
            get-entry_at hhdm direct new_tree root w r.walked.top
            ∙ ap (λ (x : ℕ). resolve x w)
                (entry_at-write hhdm r.walked.tree r.t (idx 0) (bit_or pa flags) end.0 end.1 root v
                  w r.walked.top r.end)
            ∙ split w (Bool-cases (same_page v w));
      })
        where
          end : ((r.walked.own r.t).level ≡ 1) × (idx 0 < 512)
          end = leaf-level hhdm r.walked.tree 3 root page r.t (idx 0) r.walked.top r.end

          new_tree : IsTree hhdm r.walked.own (record r.before {
            mem = write_word r.before.mem (slot hhdm r.t (idx 0)) (bit_or pa flags);
          })
          new_tree = written-IsTree hhdm r.walked.tree r.t (idx 0) (bit_or pa flags) end.0 end.1

          split :
              (w : ℕ)
              → (same_page v w ≡ true) ⊎ (same_page v w ≡ false)
              → resolve
                  (if same_page v w
                    then bit_or pa flags
                    else entry_at hhdm r.before.mem (leaf hhdm r.before.mem 4 root (w / page_size)))
                  w
                ≡ (if same_page v w
                    then resolve (bit_or pa flags) w
                    else vmm_get_physical_address hhdm s.mem (root * page_size) w)
          split w (inl y) = rw y refl
          split w (inr n) =
              rw (n, r.walked.same (w / page_size)) (sym (get-entry_at hhdm direct tree root w top))

      -- On a tree of page tables, `vmm_map_page` keeps the tables a tree with its root; if it
      -- returns true then the addresses of the page translate by the new entry, and every other
      -- address, and after a failure every address, translates as before.
      pub vmm_map_page-Mapped : Mapped (vmm_map_page hhdm s (root * page_size) v pa flags)
      vmm_map_page-Mapped = mapped map_cases
