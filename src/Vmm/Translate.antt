-- ===== src/Vmm/Translate.antt =====
-- What a page that `vmm_map_page` has mapped translates to.
use ppo_os.Common.{
  ℕ, ◌+◌, ◌*◌, ◌/◌, ◌%◌, ◌^◌, ◌≤◌, ◌<◌, ◌≡◌, refl, ap, ap₂, ◌∙◌, Bool, true, bit_and, bit_or, arith,
  eq→==,
}
use ppo_os.Common.Bits.{bit_or_fields, bit_or_split, bit_or-zero, zero-bit_or}
use ppo_os.Pmm.{page_size}
use ppo_os.Vmm.{Vmm, page_mask, pte_nx, present, vmm_map_page, vmm_get_physical_address}
use ppo_os.Vmm.Entry.{present_lem, page_mask_lem, page_offset_lem}
use ppo_os.Vmm.Tree.{Owners, IsTree}
use ppo_os.Vmm.Walk.{IsDirect, resolve}
use ppo_os.Vmm.Leaf.{same_page}
use ppo_os.Vmm.Map.{vmm_map_page-Mapped}

module _ (pa flags v : ℕ) (aligned : pa % 4096 ≡ 0) (small : pa < 2 ^ 52) (low : flags < 4096)
    (odd : flags % 2 ≡ 1) where
  or_low : (q r : ℕ) → q % 4096 ≡ 0 → r < 4096 → bit_or q r ≡ q + r
  or_low q r hq hr =
      let e : q ≡ q / 4096 * 4096 = omega arith in rw e (bit_or_fields 12 (q / 4096) r hr)

  resolve_lem :
      (hi e : ℕ) → hi % 4096 ≡ 0 → hi + 4096 ≤ 2 ^ 64 → e ≡ hi + flags → resolve e v ≡ hi + v % 4096
  resolve_lem hi e hh hs he =
      let shown : present e ≡ true = present_lem e ∙ eq→== _ _ (omega arith) in
      let mask : bit_and e page_mask ≡ hi = omega (arith, page_mask_lem e (omega arith)) in
      rw (shown, mask, page_offset_lem v) (or_low hi (v % 4096) hh (omega arith))

  -- A plain entry resolves to the frame's address and the offset in the page.
  pub resolve_plain : resolve (bit_or pa flags) v ≡ pa + v % 4096
  resolve_plain =
      resolve_lem pa (bit_or pa flags) aligned (omega arith) (or_low pa flags aligned low)

  or_nx : bit_or pa (pte_nx + flags) ≡ 2 ^ 63 + pa + flags
  or_nx =
      let whole : pa ≡ pa / 4096 * 2 ^ 12 + 0 = omega arith in
      let high : pte_nx + flags ≡ 2 ^ 51 * 2 ^ 12 + flags = omega arith in
      let frame : pa / 4096 ≡ 0 * 2 ^ 51 + pa / 4096 = omega arith in
      let upper : bit_or (pa / 4096) (2 ^ 51) ≡ 2 ^ 51 + pa / 4096 = omega (
        arith,
        ap (λ (t : ℕ). bit_or t (2 ^ 51)) frame,
        bit_or_split 51 0 1 (pa / 4096) 0 (omega arith) (omega arith),
        bit_or-zero (pa / 4096),
      ) in
      omega (
        arith,
        ap₂ bit_or whole high,
        bit_or_split 12 (pa / 4096) (2 ^ 51) 0 flags (omega arith) low,
        upper,
        zero-bit_or flags,
      )

  -- With the no-execute bit the result is off by `2 ^ 63`: PAGE_MASK does not clear that bit.
  pub resolve_nx : resolve (bit_or pa (pte_nx + flags)) v ≡ 2 ^ 63 + pa + v % 4096
  resolve_nx =
      resolve_lem (2 ^ 63 + pa) (bit_or pa (pte_nx + flags)) (omega arith) (omega arith) or_nx

module _ (hhdm : ℕ) (direct : IsDirect hhdm) {own : Owners} {s : Vmm} (tree : IsTree hhdm own s)
    (root v : ℕ) (pa flags : ℕ) (top : (own root).level ≡ 4) (aligned : pa % 4096 ≡ 0)
    (small : pa < 2 ^ 52) (low : flags < 4096) (odd : flags % 2 ≡ 1) where
  abbrev map_out : ℕ → Vmm × Bool
  map_out fl = vmm_map_page hhdm s (root * page_size) v pa fl

  translated :
      (fl w : ℕ)
      → (map_out fl).1 ≡ true
      → same_page v w ≡ true
      → vmm_get_physical_address hhdm (map_out fl).0.mem (root * page_size) w
        ≡ resolve (bit_or pa fl) w
  translated fl w ok same =
      (vmm_map_page-Mapped hhdm direct s root v pa fl tree top).translates w ∙ rw (ok, same) refl

  -- An address of a page that was mapped with success to an aligned frame below 2^52, with flags
  -- below 4096 that include the present bit, translates to the frame with the offset in the page
  -- kept.
  pub map-get_plain :
      (w : ℕ)
      → (vmm_map_page hhdm s (root * page_size) v pa flags).1 ≡ true
      → same_page v w ≡ true
      → vmm_get_physical_address hhdm
          (vmm_map_page hhdm s (root * page_size) v pa flags).0.mem
          (root * page_size)
          w
        ≡ pa + w % 4096
  map-get_plain w ok same =
      translated flags w ok same ∙ resolve_plain pa flags w aligned small low odd

  -- A page that was mapped with success to an aligned frame below 2^52, with flags below 4096 that
  -- include the present bit and with PTE_NX, translates to an address 2^63 above its frame, since
  -- PAGE_MASK keeps bit 63.
  pub map-get_nx :
      (w : ℕ)
      → (vmm_map_page hhdm s (root * page_size) v pa (pte_nx + flags)).1 ≡ true
      → same_page v w ≡ true
      → vmm_get_physical_address hhdm
          (vmm_map_page hhdm s (root * page_size) v pa (pte_nx + flags)).0.mem
          (root * page_size)
          w
        ≡ 2 ^ 63 + pa + w % 4096
  map-get_nx w ok same =
      translated (pte_nx + flags) w ok same ∙ resolve_nx pa flags w aligned small low odd
