-- ===== src/Vmm/Space.antt =====
-- `vmm_create_address_space`: a new root shares the kernel's half and has an empty user half.
use ppo_os.Common.{
  ℕ, ◌+◌, ◌*◌, ◌/◌, ◌≤◌, ◌<◌, ◌≡◌, ◌≢◌, refl, ap, ◌∙◌, inl, inr, true, false, some, arith, ltb, leb,
  ◌==◌, if◌then◌else◌, ◌&&◌, Bool-cases, ==→eq, ==→ne, eq→==, ne→==,
}
use ppo_os.Common.Loops.{for_range, for_range_inv}
use ppo_os.Pmm.{Pmm, page_size, pmm_alloc_frame, bitmap_test}
use ppo_os.Pmm.Flags.{frames}
use ppo_os.Pmm.Alloc.{IsValid, alloc-Allocated}
use ppo_os.Vmm.{Vmm, Memory, present, zero_page, copy_entry, vmm_create_address_space, phys_to_virt}
use ppo_os.Vmm.Tree.{base, slot, slot-ne}
use ppo_os.Vmm.Walk.{IsDirect, virt-base}

-- The entries of a new root: the kernel's present ones from 256 on, else nothing.
abbrev pub kernel_half : ℕ → Memory → ℕ → ℕ → ℕ
kernel_half hhdm m kernel i =
    if leb 256 i && present (m (slot hhdm kernel i)) then m (slot hhdm kernel i) else 0

module _ (hhdm : ℕ) (direct : IsDirect hhdm) (kernel user : ℕ) (apart : kernel ≢ user)
    (m0 : Memory) where
  record Copied (k : ℕ) (m : Memory) : Type 0 where
    source : (i : ℕ) → i < 512 → m (slot hhdm kernel i) ≡ m0 (slot hhdm kernel i)
    copy :
        (i : ℕ)
        → i < 512
        → m (slot hhdm user i) ≡ (if ltb i k then kernel_half hhdm m0 kernel i else 0)

  start : Copied 256 (zero_page m0 (base hhdm user))
  start = record { source = λ i lt. ground arith; copy = λ i lt. ground arith }

  round :
      (k : ℕ) (m : Memory)
      → k < 512
      → 256 ≤ k
      → Copied k m
      → Copied (k + 1) (copy_entry (base hhdm kernel) (base hhdm user) k m)
  unfolding copy_entry
  round k m lt ge c = record {
    source =
        λ i ilt. ground (arith, c.source i ilt, slot-ne hhdm kernel user i k ilt lt (inl apart));
    copy = λ i ilt. elim (Bool-cases (i == k)) [
      | inl e ↦ rw (==→eq i k e) (
          ground
            (arith, c.copy k lt, c.source k lt, eq→== (slot hhdm user k) (slot hhdm user k) refl))
      | inr n ↦ ground (arith, c.copy i ilt, slot-ne hhdm user user i k ilt lt (inr (==→ne i k n)))
    ];
  }

-- If a frame is free, `vmm_create_address_space` returns one that `pmm_alloc_frame` gives; the new
-- root's entries below 256 are empty, those from 256 on are the kernel's present ones, and the
-- kernel's own entries are untouched.
pub create-kernel_half :
    (hhdm : ℕ) (s : Vmm) (kernel : ℕ) {pmm' : Pmm} {a : ℕ} (i : ℕ)
    → IsDirect hhdm
    → IsValid s.pmm
    → s.g_kernel_pml4 ≡ kernel * page_size
    → 0 < kernel
    → kernel < frames
    → bitmap_test s.pmm.bitmap kernel ≡ true
    → pmm_alloc_frame s.pmm ≡ (pmm', some a)
    → i < 512
    → (s' : Vmm) × (vmm_create_address_space hhdm s ≡ some (s', some a))
      × (s'.pmm ≡ pmm')
      × (s'.mem (slot hhdm (a / page_size) i) ≡ kernel_half hhdm s.mem kernel i)
      × (s'.mem (slot hhdm kernel i) ≡ s.mem (slot hhdm kernel i))
unfolding vmm_create_address_space
create-kernel_half hhdm s kernel {pmm'} {a} i direct valid root pos small used got lt =
    let done = (alloc-Allocated valid got).0 in
    let user = a / page_size in
    let whole : a ≡ user * page_size = omega (arith, done.frame) in
    let apart : kernel ≢ user = λ e. cc (used, done.free.clear, e) in
    let user_small : user < frames = omega (arith, done.free.in_range, valid.managed) in
    let result =
      for_range_inv (λ k m. (256 ≤ k) × Copied hhdm direct kernel user apart s.mem k m)
        (copy_entry (base hhdm kernel) (base hhdm user)) 512
        (λ k m klt (ge, c). (omega arith, round hhdm direct kernel user apart s.mem k m klt ge c))
        256 256 (zero_page s.mem (base hhdm user)) (omega arith)
        (omega arith, start hhdm direct kernel user apart s.mem) in
    let set : (s.g_kernel_pml4 == 0) ≡ false = ne→== _ _ (omega arith) in
    let vk = virt-base hhdm direct kernel small in
    let vu = virt-base hhdm direct user user_small in
    let va : phys_to_virt hhdm a ≡ base hhdm user = ap (phys_to_virt hhdm) whole ∙ vu in
    let vr : phys_to_virt hhdm s.g_kernel_pml4 ≡ base hhdm kernel =
      ap (phys_to_virt hhdm) root ∙ vk in
    let copied =
      for_range 256 256 (copy_entry (base hhdm kernel) (base hhdm user))
        (zero_page s.mem (base hhdm user)) in
    (
      record s { pmm = pmm'; mem = copied },
      rw (set, got, va, vr) refl,
      refl,
      ground (arith, result.1.copy i lt),
      result.1.source i lt,
    )
