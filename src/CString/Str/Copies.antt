-- ===== src/CString/Str/Copies.antt =====
-- Where strcpy, strcat and strncpy put their bytes.
use ppo_os.Common.{
  ℕ, zero, suc, ◌+◌, ◌≤◌, ◌<◌, ◌≡◌, ◌≢◌, ◌⊎◌, inl, inr, refl, ◌∙◌, List, [], ◌∷◌, ◌++◌, some, arith,
  length, ◌==◌, Bool-cases, get_or, eq→==, ne→==, ==→eq, ==→ne,
}
use ppo_os.CString.{Memory, write}
use ppo_os.CString.Str.{copy_string, strcpy, strcat, pad_nul, strncpy}
use ppo_os.CString.Str.Held.{Held, Held-frame, strlen-Held}

-- What a copy of `cs` to `p` leaves: the string, and every byte behind or before it as it was.
pub record Copied (m m' : Memory) (p : ℕ) (cs : List ℕ) : Type 0 where
  pub there : Held m' p cs
  pub apart : (a : ℕ) → (a < p) ⊎ (p + length cs < a) → m' a ≡ m a

-- The regions of `n` bytes and a NUL at `p` and at `q` have no byte in common.
abbrev pub Apart : ℕ → ℕ → ℕ → Type 0
Apart p q n = (p + n < q) ⊎ (q + n < p)

write_ne : (m : Memory) (p v a : ℕ) → a ≢ p → write m p v a ≡ m a
write_ne m p v a h = rw (ne→== a p h) refl

write_self : (m : Memory) (p v : ℕ) → write m p v p ≡ v
write_self m p v = rw (eq→== p p refl) refl

pub copy_string-Copied :
    (fuel : ℕ) (m : Memory) (p src : ℕ) (cs : List ℕ)
    → length cs < fuel
    → Held m src cs
    → Apart p src (length cs)
    → (m' : Memory) × (copy_string fuel m p src ≡ some m') × Copied m m' p cs
unfolding copy_string
copy_string-Copied zero m p src cs lt h far = absurd (omega arith)
copy_string-Copied (suc fuel) m p src [] lt h far = (
  write m p 0,
  rw h refl,
  record { there = write_self m p 0; apart = λ a out. write_ne m p 0 a (omega arith) },
)
copy_string-Copied (suc fuel) m p src (c ∷ cs) lt (here, some_byte, h) far =
    let m1 = write m p (m src) in
    let kept = Held-frame m m1 (src + 1) cs (λ a lo hi. write_ne m p (m src) a (omega arith)) h in
    let (m', run, done) =
      copy_string-Copied fuel m1 (p + 1) (src + 1) cs (omega arith) kept (omega arith) in
    let first : m' p ≡ c = done.apart p (omega arith) ∙ write_self m p (m src) ∙ here in
    (
      m',
      rw (ne→== (m src) 0 (omega arith)) run,
      record {
        there = (first, some_byte, done.there);
        apart = λ a out. done.apart a (omega arith) ∙ write_ne m p (m src) a (omega arith);
      },
    )

pub strcpy-Copied :
    (fuel : ℕ) (m : Memory) (dest src : ℕ) (cs : List ℕ)
    → length cs < fuel
    → Held m src cs
    → Apart dest src (length cs)
    → (m' : Memory) × (strcpy fuel m dest src ≡ some m') × Copied m m' dest cs
unfolding strcpy
strcpy-Copied fuel m dest src cs lt h far = copy_string-Copied fuel m dest src cs lt h far

-- A string kept up to its NUL, and a string from there on, are one string.
Held-append :
    (m m' : Memory) (s : ℕ) (xs ys : List ℕ)
    → Held m s xs
    → ((a : ℕ) → a < s + length xs → m' a ≡ m a)
    → Held m' (s + length xs) ys
    → Held m' s (xs ++ ys)
Held-append m m' s [] ys h kept tail = let at : s + 0 ≡ s = omega arith in rw (← at) tail
Held-append m m' s (x ∷ xs) ys (here, some_byte, h) kept tail =
    let next : s + suc (length xs) ≡ s + 1 + length xs = omega arith in
    (
      kept s (omega arith) ∙ here,
      some_byte,
      Held-append m m' (s + 1) xs ys h (λ a lt. kept a (omega arith)) (rw (← next) tail),
    )

-- `strcat` of two C strings returns, leaves the first with the second behind it at `dest`, and
-- keeps every byte before the NUL of the first and behind the NUL of the new string, if the second
-- does not overlap with the bytes that are added.
pub strcat-append :
    (fuel : ℕ) (m : Memory) (dest src : ℕ) (xs ys : List ℕ)
    → length xs + length ys < fuel
    → Held m dest xs
    → Held m src ys
    → Apart (dest + length xs) src (length ys)
    → (m' : Memory) × (strcat fuel m dest src ≡ some m')
      × Held m' dest (xs ++ ys)
      × ((a : ℕ) → (a < dest + length xs) ⊎ (dest + length xs + length ys < a) → m' a ≡ m a)
unfolding strcat
strcat-append fuel m dest src xs ys lt hx hy far =
    let (m', run, done) =
      copy_string-Copied fuel m (dest + length xs) src ys (omega arith) hy far in
    (
      m',
      rw (strlen-Held fuel m dest xs (omega arith) hx) run,
      Held-append m m' dest xs ys hx (λ a lo. done.apart a (inl lo)) done.there,
      done.apart,
    )

pad_nul-zero :
    (m : Memory) (p n a : ℕ)
    → ((p ≤ a) → a < p + n → pad_nul m p n a ≡ 0) × ((a < p) ⊎ (p + n ≤ a) → pad_nul m p n a ≡ m a)
unfolding pad_nul
pad_nul-zero m p zero a = (λ lo hi. absurd (omega arith), λ out. refl)
pad_nul-zero m p (suc n) a =
    let (inside, outside) = pad_nul-zero (write m p 0) (p + 1) n a in
    (
      (λ lo hi. elim (Bool-cases (a == p)) [
        | inl e ↦ outside (omega (arith, ==→eq a p e)) ∙ rw e refl
        | inr e ↦ let ne : a ≢ p = ==→ne a p e in inside (omega arith) (omega arith)
      ]),
      (λ out. outside (omega arith) ∙ write_ne m p 0 a (omega arith)),
    )

-- `strncpy` from a C string that does not overlap with the destination writes exactly `n` bytes:
-- those of the string as far as they go and then zeros, and every other byte stays.
pub strncpy-fills :
    (m : Memory) (dest src n : ℕ) (cs : List ℕ)
    → Held m src cs
    → (dest + n ≤ src) ⊎ (src + length cs < dest)
    → ((i : ℕ) → i < n → strncpy m dest src n (dest + i) ≡ get_or cs i 0)
      × ((a : ℕ) → (a < dest) ⊎ (dest + n ≤ a) → strncpy m dest src n a ≡ m a)
unfolding strncpy
strncpy-fills m dest src zero cs h far = (λ i lt. absurd (omega arith), λ a out. refl)
strncpy-fills m dest src (suc n) [] h far = rw h (
  (λ i lt. (pad_nul-zero m dest (suc n) (dest + i)).0 (omega arith) (omega arith)),
  (λ a out. (pad_nul-zero m dest (suc n) a).1 out),
)
strncpy-fills m dest src (suc n) (c ∷ cs) (here, some_byte, h) far =
    let m1 = write m dest (m src) in
    let kept =
      Held-frame m m1 (src + 1) cs (λ a lo hi. write_ne m dest (m src) a (omega arith)) h in
    let (bytes, others) = strncpy-fills m1 (dest + 1) (src + 1) n cs kept (omega arith) in
    rw (ne→== (m src) 0 (omega arith))
      (at bytes others, λ a out. others a (omega arith) ∙ write_ne m dest (m src) a (omega arith))
  where
    at :
        ((i : ℕ)
          → i < n
          → strncpy (write m dest (m src)) (dest + 1) (src + 1) n (dest + 1 + i) ≡ get_or cs i 0)
        → ((a : ℕ)
            → (a < dest + 1) ⊎ (dest + 1 + n ≤ a)
            → strncpy (write m dest (m src)) (dest + 1) (src + 1) n a ≡ write m dest (m src) a)
        → (i : ℕ) → i < suc n
        → strncpy (write m dest (m src)) (dest + 1) (src + 1) n (dest + i) ≡ get_or (c ∷ cs) i 0
    at bytes others zero lt =
        others (dest + 0) (omega arith)
        ∙ (let e : dest + 0 ≡ dest = omega arith in rw e (write_self m dest (m src)))
        ∙ here
    at bytes others (suc i) lt =
        let e : dest + suc i ≡ dest + 1 + i = omega arith in rw e (bytes i (omega arith))
