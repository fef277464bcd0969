-- ===== src/Vmm/Grow.antt =====
-- One level of the walk in `vmm_map_page`: the tree grows by at most one table, and no translation
-- changes.
use ppo_os.Common.{
  ℕ, ◌+◌, ◌-◌, ◌*◌, ◌/◌, ◌%◌, ◌^◌, ◌≤◌, ◌<◌, ◌≡◌, ◌≢◌, refl, sym, ap, ◌∙◌, ◌⊎◌, inl, inr, true,
  false, Option, none, some, bit_and, arith, ◌==◌, if◌then◌else◌, Bool-cases, ==→eq, ==→ne, eq→==,
  ne→==,
}
use ppo_os.Pmm.{Pmm, page_size, pmm_alloc_frame}
use ppo_os.Pmm.Flags.{frames}
use ppo_os.Pmm.Alloc.{IsValid, Allocated, AllocOutcome, pmm_alloc_frame_cases}
use ppo_os.Vmm.{Vmm, Memory, page_mask, present, table_entry, write_word, zero_page, next_table}
use ppo_os.Vmm.Entry.{table_entry_lem, page_mask_lem, present_lem}
use ppo_os.Vmm.Tree.{
  Owners, Child, IsTree, base, slot, leaf, entry_at, entry_at-grow, present-zero, slot-ne,
}
use ppo_os.Vmm.Walk.{IsDirect, virt-base}

module _ (hhdm : ℕ) (direct : IsDirect hhdm) where
  -- From `s` to `s'` the walk went from entry `i` of the table in `f` to a table below it.
  pub record Stepped (own : Owners) (s : Vmm) (f i : ℕ) (s' : Vmm) : Type 0 where
    pub own' : Owners
    pub tree : IsTree hhdm own' s'
    pub keeps : (h : ℕ) → 0 < (own h).level → own' h ≡ own h
    pub next : ℕ
    pub below : (own' next).level + 1 ≡ (own f).level
    pub shown : present (s'.mem (slot hhdm f i)) ≡ true
    pub names : bit_and (s'.mem (slot hhdm f i)) page_mask / page_size ≡ next
    pub same :
        (k h page : ℕ)
        → (own h).level ≡ k
        → entry_at hhdm s'.mem (leaf hhdm s'.mem k h page)
          ≡ entry_at hhdm s.mem (leaf hhdm s.mem k h page)
    pub kept :
        (h j : ℕ)
        → 0 < (own h).level
        → j < 512
        → present (s.mem (slot hhdm h j)) ≡ true
        → s'.mem (slot hhdm h j) ≡ s.mem (slot hhdm h j)

  module _ {own : Owners} {s : Vmm} (tree : IsTree hhdm own s) (f i : ℕ) (two : 2 ≤ (own f).level)
      (lt : i < 512) where
    existing :
        present (s.mem (slot hhdm f i)) ≡ true
        → (st : Stepped own s f i s) × (next_table hhdm s (base hhdm f) i
            ≡ (s, some (base hhdm st.next)))
    unfolding next_table
    existing p =
        let c = tree.entries f i two lt p in
        (
          record {
            own' = own;
            tree = tree;
            keeps = λ h pos. refl;
            next = c.target;
            below = c.below;
            shown = p;
            names = omega (arith, c.names);
            same = λ k h page lv. refl;
            kept = λ h j pos jlt q. refl;
          },
          rw (p, c.names) (ap (λ (v : ℕ). (s, some v)) (virt-base hhdm direct c.target c.small)),
        )

    module _ (absent : present (s.mem (slot hhdm f i)) ≡ false) (g : ℕ) (pmm' : Pmm)
        (done : Allocated s.pmm (g * page_size) pmm') (valid : IsValid pmm') where
      abbrev grown : Memory
      grown =
          write_word (zero_page s.mem (base hhdm g)) (slot hhdm f i) (table_entry (g * page_size))

      abbrev after : Vmm
      after = record s { pmm = pmm'; mem = grown }

      abbrev own_new : Owners
      own_new h =
          if h == g then record { level = (own f).level - 1; parent = f; index = i } else own h

      g_small : g < frames
      g_small = omega (arith, done.free.in_range, tree.valid.managed)

      g_free : (own g).level ≡ 0
      g_free =
          let e : g * page_size / page_size ≡ g = omega arith in
          tree.unowned g g_small (rw e at done.free.clear)

      ne_g : (h : ℕ) → 0 < (own h).level → (h == g) ≡ false
      ne_g h pos = ne→== h g (λ e. omega (arith, g_free, ap (λ (x : ℕ). (own x).level) e))

      f_ne_g : f ≢ g
      f_ne_g = ==→ne f g (ne_g f (omega arith))

      entry_value : table_entry (g * page_size) ≡ g * page_size + 7
      entry_value = table_entry_lem (g * page_size) (omega arith)

      entry_names : bit_and (table_entry (g * page_size)) page_mask ≡ g * page_size
      entry_names =
          let small : g * page_size + 7 < 2 ^ 64 = omega (arith, g_small) in
          rw entry_value (omega (arith, page_mask_lem (g * page_size + 7) small))

      entry_present : present (table_entry (g * page_size)) ≡ true
      entry_present =
          rw (entry_value, present_lem) (eq→== ((g * page_size + 7) % 2) 1 (omega arith))

      at_entry : grown (slot hhdm f i) ≡ table_entry (g * page_size)
      at_entry = rw (eq→== (slot hhdm f i) (slot hhdm f i) refl) refl

      at_new : (j : ℕ) → j < 512 → grown (slot hhdm g j) ≡ 0
      at_new j jlt = ground (arith, slot-ne hhdm g f j i jlt lt (inl (λ e. f_ne_g (sym e))))

      elsewhere :
          (h j : ℕ)
          → 0 < (own h).level
          → j < 512
          → (h ≢ f) ⊎ (j ≢ i)
          → grown (slot hhdm h j) ≡ s.mem (slot hhdm h j)
      elsewhere h j pos jlt ne =
          ground (arith, slot-ne hhdm h f j i jlt lt ne, ==→ne h g (ne_g h pos))

      keeps_owner : (h : ℕ) → 0 < (own h).level → own_new h ≡ own h
      keeps_owner h pos = rw (ne_g h pos) refl

      new_owner : own_new g ≡ record { level = (own f).level - 1; parent = f; index = i }
      new_owner = rw (eq→== g g refl) refl

      old-Child : (h e : ℕ) (j : ℕ) → 2 ≤ (own h).level → Child own h j e → Child own_new h j e
      old-Child h e j hl c =
          let k = keeps_owner c.target (omega (arith, c.below)) in
          let kh = keeps_owner h (omega arith) in
          record {
            target = c.target;
            names = c.names;
            small = c.small;
            below = rw (k, kh) c.below;
            parent = rw k c.parent;
            index = rw k c.index;
          }

      new-Child : Child own_new f i (table_entry (g * page_size))
      new-Child = record {
        target = g;
        names = entry_names;
        small = g_small;
        below = rw (new_owner, keeps_owner f (omega arith)) (omega arith);
        parent = rw new_owner refl;
        index = rw new_owner refl;
      }

      grown_entries :
          (h j : ℕ)
          → 2 ≤ (own_new h).level
          → j < 512
          → present (grown (slot hhdm h j)) ≡ true
          → Child own_new h j (grown (slot hhdm h j))
      grown_entries h j hl jlt p =
          go (Bool-cases (h == g)) (Bool-cases (h == f)) (Bool-cases (j == i))
        where
          Goal : Type 0
          Goal = Child own_new h j (grown (slot hhdm h j))

          old : (h == g) ≡ false → (h ≢ f) ⊎ (j ≢ i) → Goal
          old ng ne =
              let level : 2 ≤ (own h).level = rw ng at hl in
              let e = elsewhere h j (omega arith) jlt ne in
              rw e (
                old-Child h (s.mem (slot hhdm h j)) j level
                  (tree.entries h j level jlt (rw e at p)))

          go :
              ((h == g) ≡ true) ⊎ ((h == g) ≡ false)
              → ((h == f) ≡ true) ⊎ ((h == f) ≡ false)
              → ((j == i) ≡ true) ⊎ ((j == i) ≡ false)
              → Goal
          go (inl e) b c =
              let z : grown (slot hhdm h j) ≡ 0 = rw (==→eq h g e) (at_new j jlt) in
              absurd (cc (p, ap present z, present-zero hhdm))
          go (inr ng) (inr n) c = old ng (inl (==→ne h f n))
          go (inr ng) (inl e) (inr n) = old ng (inr (==→ne j i n))
          go (inr ng) (inl e) (inl q) = rw (==→eq h f e, ==→eq j i q, at_entry) new-Child

      grown_tree : IsTree hhdm own_new after
      grown_tree = record {
        valid = valid;
        unowned = λ h small clear. elim (Bool-cases (h == g)) [
          | inl e ↦ absurd (ground (arith, done.marks h))
          | inr n ↦ rw n (tree.unowned h small (ground (arith, done.marks h)))
        ];
        tables = λ h pos. ground (arith, tree.tables h, g_small);
        entries = grown_entries;
      }

      grown_step : Stepped own s f i after
      grown_step = record {
        own' = own_new;
        tree = grown_tree;
        keeps = keeps_owner;
        next = g;
        below = rw new_owner (omega arith);
        shown = rw at_entry entry_present;
        names = rw (at_entry, entry_names) (omega arith);
        same =
            entry_at-grow hhdm tree f i g grown two absent (rw at_entry entry_names) at_new
              elsewhere;
        kept = λ h j pos jlt p. elim (Bool-cases (h == f)) [
          | inr n ↦ elsewhere h j pos jlt (inl (==→ne h f n))
          | inl e ↦ elim (Bool-cases (j == i)) [
            | inr n ↦ elsewhere h j pos jlt (inr (==→ne j i n))
            | inl q ↦ absurd (cc (absent, p, ==→eq h f e, ==→eq j i q))
          ]
        ];
      }

      next_table-new :
          pmm_alloc_frame s.pmm ≡ (pmm', some (g * page_size))
          → next_table hhdm s (base hhdm f) i ≡ (after, some (base hhdm g))
      unfolding next_table
      next_table-new e = rw (absent, e, virt-base hhdm direct g g_small) refl

    -- Either there is no frame for a table and nothing has changed, or the walk went one level down.
    pub next_table_cases :
        (next_table hhdm s (base hhdm f) i ≡ (s, none))
        ⊎ ((s' : Vmm) × (st : Stepped own s f i s') × (next_table hhdm s (base hhdm f) i
              ≡ (s', some (base hhdm st.next))))
    unfolding next_table grown_step
    next_table_cases = elim (Bool-cases (present (s.mem (slot hhdm f i)))) [
      | inl p ↦ inr (let (st, e) = existing p in (s, st, e))
      | inr p ↦ alloc p (pmm_alloc_frame s.pmm) refl (pmm_alloc_frame_cases tree.valid)
    ]
      where
        alloc :
            present (s.mem (slot hhdm f i)) ≡ false
            → (out : Pmm × Option ℕ) → pmm_alloc_frame s.pmm ≡ out
            → AllocOutcome tree.valid out
            → (next_table hhdm s (base hhdm f) i ≡ (s, none))
              ⊎ ((s' : Vmm) × (st : Stepped own s f i s') × (next_table hhdm s (base hhdm f) i
                    ≡ (s', some (base hhdm st.next))))
        alloc p out e (inl (a, got, done, valid)) =
            let whole : a / page_size * page_size ≡ a = omega (arith, done.frame) in
            let made : Allocated s.pmm (a / page_size * page_size) out.0 = rw whole done in
            let g = a / page_size in
            let found : pmm_alloc_frame s.pmm ≡ (out.0, some (g * page_size)) =
              rw whole (e ∙ ap (λ (o : Option ℕ). (out.0, o)) got) in
            inr (
              after p g out.0 made valid,
              grown_step p g out.0 made valid,
              next_table-new p g out.0 made valid found,
            )
        alloc p out e (inr (got, full)) = inl (rw (p, e, got) refl)
