-- ===== src/Pmm/Alloc.antt =====
-- `pmm_alloc_frame` and `pmm_free_frame`: what they hand out, what they change and when they fail.
mod Scan
use native.Mathlib.Nat.{mod-lt, mod-eq_of_lt, mod-eq-sub-mod}
use ppo_os.Common.{
  ℕ, zero, suc, ◌+◌, ◌-◌, ◌*◌, ◌/◌, ◌%◌, ◌^◌, ◌≤◌, ◌<◌, ◌≡◌, ◌≢◌, refl, ◌⊎◌, inl, inr, Bool, true,
  false, Option, none, some, arith, if◌then◌else◌, ◌==◌, ap,
}
use ppo_os.Pmm.{
  Pmm, page_size, max_phys_addr, bitmap_set, bitmap_unset, bitmap_test, pmm_alloc_frame,
  pmm_free_frame, alloc_scan,
}
use ppo_os.Pmm.Bitmap.{
  IsBytes, bitmap_set-IsBytes, bitmap_unset-IsBytes, bitmap_test-set, bitmap_test-unset,
}
use Scan.{Granted, Blocked, Exhausted, Outcome, alloc_scan_cases}

-- The allocator's invariant: the bitmap holds bytes, the managed range ends on a frame below
-- 4 GiB, and the next search starts inside it or just behind.
pub record IsValid (s : Pmm) : Type 0 where
  pub bytes : IsBytes s.bitmap
  pub aligned : s.highest_address % page_size ≡ 0
  pub managed : s.highest_address ≤ max_phys_addr
  pub start : s.last_alloc_index ≤ s.highest_address / page_size

-- A frame that the allocator may hand out.
pub record IsFree (s : Pmm) (frame : ℕ) : Type 0 where
  pub in_range : frame < s.highest_address / page_size
  pub above_low : 256 ≤ frame
  pub clear : bitmap_test s.bitmap frame ≡ false

-- What a successful allocation did: it took a free frame, set its bit and no other.
pub record Allocated (s : Pmm) (a : ℕ) (s' : Pmm) : Type 0 where
  pub frame : a % page_size ≡ 0
  pub free : IsFree s (a / page_size)
  pub marks :
      (g : ℕ)
      → bitmap_test s'.bitmap g ≡ (if a / page_size == g then true else bitmap_test s.bitmap g)
  pub highest : s'.highest_address ≡ s.highest_address

-- The round that looks at a given index, from any start.
round_of :
    (m l c : ℕ) → l ≤ m → m ≤ 1048576 → c < m → (k : ℕ) × (k < m) × ((l + k) % 2 ^ 64 % m ≡ c)
round_of m l c hl hm hc = go (order l c)
  where
    order : (a b : ℕ) → (a ≤ b) ⊎ (b < a)
    order a b = omega arith

    go : (l ≤ c) ⊎ (c < l) → (k : ℕ) × (k < m) × ((l + k) % 2 ^ 64 % m ≡ c)
    go (inl p) =
        let sum : l + (c - l) ≡ c = omega arith in
        let no_wrap : c % 2 ^ 64 ≡ c = omega arith in
        (c - l, omega arith, rw (sum, no_wrap) (mod-eq_of_lt hc))
    go (inr p) =
        let sum : l + (c + m - l) ≡ c + m = omega arith in
        let no_wrap : (c + m) % 2 ^ 64 ≡ c + m = omega arith in
        (c + m - l, omega arith, rw (sum, no_wrap) (grind arith))

module _ {s : Pmm} (v : IsValid s) where
  abbrev bits : ℕ
  bits = s.highest_address / page_size

  abbrev after : ℕ → Pmm
  after c = record s { bitmap = bitmap_set s.bitmap c; last_alloc_index = c + 1 }

  taken-Allocated :
      (c : ℕ)
      → c < bits
      → 256 ≤ c
      → bitmap_test s.bitmap c ≡ false
      → Allocated s (c * page_size) (after c) × IsValid (after c)
  taken-Allocated c lt above clear =
      let same : c * page_size / page_size ≡ c = omega arith in
      (
        record {
          frame = omega arith;
          free = record { in_range = omega arith; above_low = omega arith; clear = rw same clear };
          marks = λ g. rw same (bitmap_test-set v.bytes c g);
          highest = refl;
        },
        record {
          bytes = bitmap_set-IsBytes v.bytes c;
          aligned = v.aligned;
          managed = v.managed;
          start = omega arith;
        },
      )

  -- No frame is free.
  abbrev pub IsFull : Type 0
  IsFull = (f : ℕ) → ¬ IsFree s f

  exhausted-IsFull : {out : Pmm × Option ℕ} → 0 < bits → Exhausted s bits 0 bits out → IsFull
  exhausted-IsFull some_bits (e, all) f free =
      let (k, lt, at) =
        round_of bits s.last_alloc_index f v.start (omega (arith, v.managed)) free.in_range in
      blocked (rw at at (all k (omega arith) (omega arith)))
    where
      blocked : Blocked s f → ⊥
      blocked (inl low) = omega (arith, free.above_low)
      blocked (inr used) = cc (used, free.clear)

  abbrev pub AllocOutcome : Pmm × Option ℕ → Type 0
  AllocOutcome out =
      ((a : ℕ) × (out.1 ≡ some a) × Allocated s a out.0 × IsValid out.0)
      ⊎ ((out ≡ (s, none)) × IsFull)

  from_scan : {out : Pmm × Option ℕ} → 0 < bits → Outcome s bits 0 bits out → AllocOutcome out
  from_scan some_bits (inl (c, g)) = inl (
      rw g.result (
        let (done, valid) = taken-Allocated c g.in_range g.above_low g.clear in
        (c * page_size, refl, done, valid)))
  from_scan some_bits (inr x) = inr (x.0, exhausted-IsFull some_bits x)

  -- On a valid allocator `pmm_alloc_frame` either takes a free frame from 1 MiB on, sets its bit
  -- and no other, and keeps the invariant, or returns NULL, changes nothing, and there is no free
  -- frame.
  pub pmm_alloc_frame_cases : AllocOutcome (pmm_alloc_frame s)
  unfolding pmm_alloc_frame alloc_scan
  pmm_alloc_frame_cases = elim (order bits) [
    | inl none_managed ↦ inr (rw none_managed refl, λ f free. omega (arith, free.in_range))
    | inr some_bits ↦
        from_scan some_bits (alloc_scan_cases s bits (omega (arith, v.managed)) some_bits bits 0)
  ]
    where
      order : (n : ℕ) → (n ≡ 0) ⊎ (0 < n)
      order n = omega arith

  -- `pmm_free_frame` keeps the allocator's invariant, whatever address it is given.
  pub pmm_free_frame-IsValid : (a : ℕ) → IsValid (pmm_free_frame s a)
  unfolding pmm_free_frame
  pmm_free_frame-IsValid a = record {
    bytes = λ i. ground (arith, v.bytes i, bitmap_unset-IsBytes v.bytes (a / page_size) i);
    aligned = ground (arith, v.aligned);
    managed = ground (arith, v.managed);
    start = ground (arith, v.start);
  }

  -- `pmm_free_frame` of a frame in the managed range clears its bit and no other.
  pub bitmap_test-free :
      (a g : ℕ)
      → a % page_size ≡ 0
      → a < s.highest_address
      → bitmap_test (pmm_free_frame s a).bitmap g
        ≡ (if a / page_size == g then false else bitmap_test s.bitmap g)
  unfolding pmm_free_frame
  bitmap_test-free a g aligned below = ground (arith, bitmap_test-unset v.bytes (a / page_size) g)

  outcome_some :
      {out : Pmm × Option ℕ} {s' : Pmm} {a : ℕ}
      → out ≡ (s', some a)
      → AllocOutcome out
      → Allocated s a s' × IsValid s'
  outcome_some {out} {s'} {a} e (inl (a', p, done, valid)) =
      let same : a' ≡ a = cc in
      let state : out.0 ≡ s' = ap (λ (x : Pmm × Option ℕ). x.0) e in
      rw (← same, ← state) (done, valid)
  outcome_some e (inr (p, full)) = cc

  -- A successful `pmm_alloc_frame` returns the address of a frame that was free, sets its bit and
  -- no other, leaves the managed range alone and keeps the invariant.
  pub alloc-Allocated :
      {s' : Pmm} {a : ℕ} → pmm_alloc_frame s ≡ (s', some a) → Allocated s a s' × IsValid s'
  alloc-Allocated e = outcome_some e pmm_alloc_frame_cases

-- Releasing a frame that was just allocated from a valid allocator restores every flag of the
-- bitmap.
pub free-alloc :
    {s s' : Pmm} {a : ℕ} (g : ℕ)
    → IsValid s
    → pmm_alloc_frame s ≡ (s', some a)
    → bitmap_test (pmm_free_frame s' a).bitmap g ≡ bitmap_test s.bitmap g
free-alloc {s} {s'} {a} g v e =
    let (done, v') = alloc-Allocated v e in
    ground (
      arith,
      done.frame,
      done.free.in_range,
      done.free.clear,
      done.highest,
      v.aligned,
      done.marks g,
      bitmap_test-free v' a g,
    )

pub highest-free : (s : Pmm) (a : ℕ) → s.highest_address ≡ (pmm_free_frame s a).highest_address
unfolding pmm_free_frame
highest-free s a = ground arith
