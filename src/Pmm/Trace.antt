-- ===== src/Pmm/Trace.antt =====
-- Sequences of allocations and releases: no frame is handed out twice while it is held.
use ppo_os.Common.{
  ℕ, ◌/◌, ◌%◌, ◌<◌, ◌≡◌, refl, inl, inr, Bool, true, false, some, List, [], ◌∷◌, arith, ◌==◌,
  if◌then◌else◌, ◌||◌, Bool-cases, ==→eq, sym,
}
use ppo_os.Pmm.{Pmm, page_size, bitmap_test, pmm_alloc_frame, pmm_free_frame}
use ppo_os.Pmm.Alloc.{
  IsValid, alloc-Allocated, highest-free, pmm_free_frame-IsValid, bitmap_test-free,
}

-- The addresses that clients hold.
abbrev pub holds : ℕ → List ℕ → Bool
holds a [] = false
holds a (b ∷ bs) = (a == b) || holds a bs

abbrev pub drop_held : ℕ → List ℕ → List ℕ
drop_held a [] = []
drop_held a (b ∷ bs) = if a == b then drop_held a bs else b ∷ drop_held a bs

-- A call of a client: an allocation that succeeds, or the release of a frame that it holds.
pub data Step : Pmm × List ℕ → Pmm × List ℕ → Type 0 where
  alloc :
      {s s' : Pmm} {held : List ℕ} {a : ℕ}
      → pmm_alloc_frame s ≡ (s', some a)
      → Step (s, held) (s', a ∷ held)
  free :
      {s : Pmm} {held : List ℕ} (a : ℕ)
      → holds a held ≡ true
      → Step (s, held) (pmm_free_frame s a, drop_held a held)

pub data Reach (start : Pmm × List ℕ) : Pmm × List ℕ → Type 0 where
  here : Reach start start
  next : {t u : Pmm × List ℕ} → Reach start t → Step t u → Reach start u

abbrev pub IsFrame : Pmm → ℕ → Type 0
IsFrame s a =
    (a % page_size ≡ 0) × (a < s.highest_address) × (bitmap_test s.bitmap (a / page_size) ≡ true)

-- Each held frame is in the managed range and marked as used, and none is held twice.
abbrev pub Held : Pmm → List ℕ → Type 0
Held s [] = Unit {0}
Held s (a ∷ l) = IsFrame s a × (holds a l ≡ false) × Held s l

pub record IsSafe (t : Pmm × List ℕ) : Type 0 where
  pub valid : IsValid t.0
  pub held : Held t.0 t.1

Held-IsFrame : (s : Pmm) (a : ℕ) (l : List ℕ) → Held s l → holds a l ≡ true → IsFrame s a
Held-IsFrame s a [] h m = absurd (cc)
Held-IsFrame s a (b ∷ l) h m = elim (Bool-cases (a == b)) [
  | inl e ↦ rw (==→eq a b e) h.0
  | inr n ↦ Held-IsFrame s a l h.2 (ground arith)
]

not-holds-drop : (a b : ℕ) (l : List ℕ) → holds b l ≡ false → holds b (drop_held a l) ≡ false
not-holds-drop a b [] h = refl
not-holds-drop a b (c ∷ l) h = ground (arith, not-holds-drop a b l)

not-holds-drop_self : (a : ℕ) (l : List ℕ) → holds a (drop_held a l) ≡ false
not-holds-drop_self a [] = refl
not-holds-drop_self a (c ∷ l) = ground (arith, not-holds-drop_self a l)

-- The held frames stay so under any change that keeps their flags.
Held-keep :
    (s t : Pmm) (l : List ℕ)
    → s.highest_address ≡ t.highest_address
    → ((b : ℕ) → holds b l ≡ true → IsFrame s b → bitmap_test t.bitmap (b / page_size) ≡ true)
    → Held s l
    → Held t l
Held-keep s t [] e keep h = tt
Held-keep s t (b ∷ l) e keep (f, new, rest) = (
  (f.0, omega (arith, f.1), keep b (ground arith) f),
  new,
  Held-keep s t l e (λ c m. keep c (ground arith)) rest,
)

Held-drop : (s : Pmm) (a : ℕ) (l : List ℕ) → Held s l → Held s (drop_held a l)
Held-drop s a [] h = tt
Held-drop s a (b ∷ l) (f, new, rest) = elim (Bool-cases (a == b)) [
  | inl e ↦ rw e (Held-drop s a l rest)
  | inr n ↦ rw n (f, not-holds-drop a b l new, Held-drop s a l rest)
]

-- A frame that the allocator hands out is not held by anyone.
pub alloc-not-held :
    {s s' : Pmm} {a : ℕ} (l : List ℕ)
    → IsSafe (s, l)
    → pmm_alloc_frame s ≡ (s', some a)
    → holds a l ≡ false
alloc-not-held {s} {s'} {a} l safe e = elim (Bool-cases (holds a l)) [
  | inl m ↦
      absurd (cc ((Held-IsFrame s a l safe.held m).2, (alloc-Allocated safe.valid e).0.free.clear))
  | inr n ↦ n
]

Step-IsSafe : {t u : Pmm × List ℕ} → Step t u → IsSafe t → IsSafe u
Step-IsSafe (alloc {s} {s'} {held = l} {a} e) safe =
    let (done, valid) = alloc-Allocated safe.valid e in
    let new = alloc-not-held l safe e in
    let low = done.free.in_range in
    record {
      valid = valid;
      held = (
        (
          done.frame,
          omega (arith, done.frame, low, done.highest, safe.valid.aligned),
          ground (arith, done.marks (a / page_size)),
        ),
        new,
        Held-keep s s' l (sym done.highest) (λ b m f. ground (arith, done.marks (b / page_size)))
            safe.held,
      );
    }
Step-IsSafe (free {s} {held = l} a m) safe =
    let frame = Held-IsFrame s a l safe.held m in
    record {
      valid = pmm_free_frame-IsValid safe.valid a;
      held =
          Held-keep s (pmm_free_frame s a) (drop_held a l) (highest-free s a)
            (λ b mb f. ground (
              arith,
              bitmap_test-free safe.valid a (b / page_size) frame.0 frame.1,
              not-holds-drop_self a l,
              frame.0,
              f.0,
            ))
            (Held-drop s a l safe.held);
    }

-- From a valid allocator of which nobody holds a frame, through any calls of clients that only
-- release what they hold, every held frame is marked as used and no frame is held twice.
pub Reach-IsSafe : {s : Pmm} {t : Pmm × List ℕ} → IsValid s → Reach (s, []) t → IsSafe t
Reach-IsSafe v here = record { valid = v; held = tt }
Reach-IsSafe v (next r st) = Step-IsSafe st (Reach-IsSafe v r)
