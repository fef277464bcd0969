-- ===== src/Pmm/Flags.antt =====
-- The flags that the loops of `pmm_init` set, in terms of their bounds.
use ppo_os.Common.{
  ℕ, ◌+◌, ◌-◌, ◌/◌, ◌%◌, ◌^◌, ◌≤◌, ◌<◌, ◌≡◌, refl, ◌⊎◌, inl, inr, Bool, true, false, ◌&&◌, ◌||◌,
  List, [], ◌∷◌, arith, leb, ltb, if◌then◌else◌, ◌==◌, Bool-cases,
}
use ppo_os.Common.Loops.{for_range, for_range_inv}
use ppo_os.Pmm.{
  Pmm, MemmapEntry, page_size, max_phys_addr, memmap_usable, bitmap_test, free_round, free_entry,
  free_entries, mark_round, mark_range, start_frame, end_frame, first_frame, last_frame,
}
use ppo_os.Pmm.Bitmap.{
  IsBytes, bitmap_set-IsBytes, bitmap_unset-IsBytes, bitmap_test-set, bitmap_test-unset,
}

-- The number of frames that the bitmap describes.
abbrev pub frames : ℕ
frames = 1048576

abbrev pub within : ℕ → ℕ → ℕ → Bool
within i j f = leb i f && ltb f j

-- The loop over the memory map releases the frame.
abbrev pub released : List MemmapEntry → ℕ → Bool
released [] f = false
released (e ∷ es) f =
    ((e.type == memmap_usable) && within (start_frame e) (end_frame e) f) || released es f

-- `mark_range` marks the frame.
abbrev pub marked : ℕ → ℕ → ℕ → Bool
marked addr size f = within (first_frame addr) (last_frame addr size) f

-- What holds of the allocator throughout `pmm_init`.
pub record IsSound (t : Pmm) : Type 0 where
  pub bytes : IsBytes t.bitmap
  pub aligned : t.highest_address % page_size ≡ 0
  pub managed : t.highest_address ≤ max_phys_addr
  pub covers :
      (f : ℕ) → f < frames → bitmap_test t.bitmap f ≡ false → f < t.highest_address / page_size

-- From `s` to `t` the flags in a set of frames became `b`, and no other changed.
abbrev pub Flags : Pmm → Bool → (ℕ → Bool) → Pmm → Type 0
Flags s b p t =
    (f : ℕ) → f < frames → bitmap_test t.bitmap f ≡ (if p f then b else bitmap_test s.bitmap f)

module _ (k : ℕ) {t : Pmm} (small : k < 2 ^ 52) (h : IsSound t) where
  free_round-flag :
      (f : ℕ)
      → f < frames
      → bitmap_test (free_round k t).bitmap f ≡ (if k == f then false else bitmap_test t.bitmap f)
  unfolding free_round
  free_round-flag f lt = ground (arith, bitmap_test-unset h.bytes k f)

  free_round-IsSound : IsSound (free_round k t)
  unfolding free_round
  free_round-IsSound = record {
    bytes = λ i. ground (arith, h.bytes i, bitmap_unset-IsBytes h.bytes k i);
    aligned = ground (arith, h.aligned);
    managed = ground (arith, h.managed);
    covers = λ f lt clear. ground (arith, h.covers f, bitmap_test-unset h.bytes k f);
  }

  mark_round-flag :
      (f : ℕ)
      → f < frames
      → bitmap_test (mark_round k t).bitmap f ≡ (if k == f then true else bitmap_test t.bitmap f)
  unfolding mark_round
  mark_round-flag f lt = ground (arith, bitmap_test-set h.bytes k f)

  mark_round-IsSound : IsSound (mark_round k t)
  unfolding mark_round
  mark_round-IsSound = record {
    bytes = λ i. ground (arith, h.bytes i, bitmap_set-IsBytes h.bytes k i);
    aligned = ground (arith, h.aligned);
    managed = ground (arith, h.managed);
    covers = λ f lt clear. ground (arith, h.covers f, bitmap_test-set h.bytes k f);
  }

-- A loop whose rounds each set the flag of their own frame to `b`.
loop-Flags :
    (b : Bool) (round : ℕ → Pmm → Pmm)
    → ((k : ℕ) (t : Pmm) → k < 2 ^ 52 → IsSound t → IsSound (round k t))
    → ((k : ℕ) (t : Pmm)
        → k < 2 ^ 52
        → IsSound t
        → (f : ℕ) → f < frames
        → bitmap_test (round k t).bitmap f ≡ (if k == f then b else bitmap_test t.bitmap f))
    → (i j : ℕ) (s : Pmm) → j < 2 ^ 52
    → IsSound s
    → IsSound (for_range (j - i) i round s) × Flags s b (within i j) (for_range (j - i) i round s)
unfolding for_range
loop-Flags b round sound flag i j s small h = go (order i j)
  where
    P : ℕ → Pmm → Type 0
    P k t = IsSound t × Flags s b (within i k) t

    keep : (k : ℕ) (t : Pmm) → k < j → i ≤ k → P k t → P (k + 1) (round k t)
    keep k t lt le (ht, p) =
        (sound k t (omega arith) ht, λ f fr. ground (arith, p f fr, flag k t (omega arith) ht f fr))

    order : (a c : ℕ) → (a ≤ c) ⊎ (c < a)
    order a c = omega arith

    go :
        (i ≤ j) ⊎ (j < i)
        → IsSound (for_range (j - i) i round s)
          × Flags s b (within i j) (for_range (j - i) i round s)
    go (inl le) =
        (for_range_inv (λ k t. (i ≤ k) × P k t) round j
          (λ k t lt (ik, p). (omega arith, keep k t lt ik p)) (j - i) i s (omega arith)
          (omega arith, (h, λ f fr. ground arith))).1
    go (inr gt) = let none_left : j - i ≡ 0 = omega arith in rw none_left (h, λ f fr. ground arith)

module _ {s : Pmm} (h : IsSound s) where
  free_entry-Flags :
      (e : MemmapEntry)
      → IsSound (free_entry e s)
        × Flags s false
            (λ f. (e.type == memmap_usable) && within (start_frame e) (end_frame e) f)
            (free_entry e s)
  unfolding free_entry
  free_entry-Flags e = elim (Bool-cases (e.type == memmap_usable)) [
    | inl p ↦ rw p (
        loop-Flags false free_round (λ k t. free_round-IsSound k) (λ k t. free_round-flag k)
          (start_frame e) (end_frame e) s (omega arith) h)
    | inr p ↦ rw p (h, λ f fr. refl)
  ]

  pub mark_range-Flags :
      (addr size : ℕ)
      → IsSound (mark_range addr size s) × Flags s true (marked addr size) (mark_range addr size s)
  unfolding mark_range
  mark_range-Flags addr size =
      loop-Flags true mark_round (λ k t. mark_round-IsSound k) (λ k t. mark_round-flag k)
        (first_frame addr) (last_frame addr size) s (omega arith) h

pub free_entries-Flags :
    (es : List MemmapEntry) {s : Pmm}
    → IsSound s
    → IsSound (free_entries es s) × Flags s false (released es) (free_entries es s)
unfolding free_entries
free_entries-Flags [] h = (h, λ f fr. refl)
free_entries-Flags (e ∷ es) {s} h =
    let (h1, p1) = free_entry-Flags h e in
    let (h2, p2) = free_entries-Flags es h1 in (h2, λ f fr. ground (arith, p1 f fr, p2 f fr))
