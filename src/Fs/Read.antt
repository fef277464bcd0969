-- ===== src/Fs/Read.antt =====
-- `fs_read` against the bytes of a file, and against `fs_write`.
use ppo_os.Common.{
  ℕ, zero, suc, ◌+◌, ◌-◌, ◌*◌, ◌^◌, ◌≤◌, ◌<◌, ◌≡◌, ◌≢◌, refl, inl, inr, none, some, List, [], ◌∷◌,
  arith, ltb, ◌==◌, if◌then◌else◌, length, get_or, get_elem?, min, Bool-cases, ◌∙◌, ap, ==→eq, ap₂,
}
use ppo_os.Fs.{Fs, entry, Memory, Driver, pool_size, read_bytes, fs_read, fs_write}
use ppo_os.Fs.Valid.{file_at, IsValid}
use ppo_os.Fs.Write.{byte, fs_write_cases}

get_elem?-read_bytes :
    (m : Memory) (p n k : ℕ)
    → get_elem? (read_bytes m p n) k ≡ (if ltb k n then some (m (p + k)) else none)
get_elem?-read_bytes m p zero k = ground arith
get_elem?-read_bytes m p (suc n) zero = ground arith
get_elem?-read_bytes m p (suc n) (suc k) =
    let shift : p + 1 + k ≡ p + suc k = omega arith in
    ground (arith, get_elem?-read_bytes m (p + 1) n k, ap m shift)

get_elem?-get_or :
    (l : List ℕ) (k : ℕ) → get_elem? l k ≡ (if ltb k (length l) then some (get_or l k 0) else none)
get_elem?-get_or [] k = ground arith
get_elem?-get_or (x ∷ l) zero = ground arith
get_elem?-get_or (x ∷ l) (suc k) = ground (arith, get_elem?-get_or l k)

same_elements : (xs ys : List ℕ) → ((k : ℕ) → get_elem? xs k ≡ get_elem? ys k) → xs ≡ ys
same_elements [] [] h = refl
same_elements [] (y ∷ ys) h = absurd (cc (h 0))
same_elements (x ∷ xs) [] h = absurd (cc (h 0))
same_elements (x ∷ xs) (y ∷ ys) h =
    let head : x ≡ y = cc (h 0) in
    ap₂ (λ (a : ℕ) (l : List ℕ). a ∷ l) head (same_elements xs ys (λ k. h (suc k)))

module _ {S : Type 0} (driver : Driver S) (pool : ℕ) where
  -- In a valid file system `fs_read` of an entry gives exactly the bytes of the file from the
  -- offset on, as many as are asked for and there.
  pub get_elem?-fs_read :
      {s : Fs S} (i offset len k : ℕ)
      → IsValid pool s
      → get_elem? (fs_read driver s (entry i) offset len) k
        ≡ (if ltb k len then byte s i (offset + k) else none)
  unfolding fs_read
  get_elem?-fs_read {s} i offset len k v =
      rw (v.plain i) (elim (Bool-cases ((file_at s i).content == 0)) [
        | inl z ↦
            let none_there : (file_at s i).size ≡ 0 = v.empty i (==→eq _ _ z) in
            ground (arith, none_there)
        | inr n ↦
            let shift : (file_at s i).content + offset + k ≡ (file_at s i).content + (offset + k) =
              omega arith in
            ground (
              arith,
              n,
              get_elem?-read_bytes s.mem ((file_at s i).content + offset)
                  (min ((file_at s i).size - offset) len) k,
              ap s.mem shift,
            )
      ])

  -- In a valid file system whose pool has room for twice the new end, reading an open file where a
  -- write has put bytes gives those bytes.
  pub fs_read-write :
      {s : Fs S} (i offset : ℕ) (buf : List ℕ)
      → IsValid pool s
      → (file_at s i).content ≢ 0
      → offset + length buf < 2 ^ 62
      → s.mem_used + (offset + length buf) * 2 ≤ pool_size
      → fs_read driver (fs_write pool s (entry i) offset buf).0 (entry i) offset (length buf) ≡ buf
  fs_read-write {s} i offset buf v opened bounded room =
      elim (fs_write_cases pool v i offset buf opened bounded) [
        | inr (e, full) ↦ absurd (omega (arith, full))
        | inl done ↦ same_elements _ buf (λ k.
            let back : offset + k - offset ≡ k = omega arith in
            get_elem?-fs_read i offset (length buf) k done.valid
            ∙ ground (arith, done.bytes (offset + k), get_elem?-get_or buf k, back))
      ]
