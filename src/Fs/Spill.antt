-- ===== src/Fs/Spill.antt =====
-- The terminator that `fs_write` puts behind a file which fills its buffer.
use ppo_os.Common.{
  ℕ, ◌+◌, ◌%◌, ◌^◌, ◌<◌, ◌≡◌, ◌≢◌, refl, true, false, some, List, arith, ltb, ◌==◌, length, get_or,
  set, get_or-set, ne→==, ap,
}
use ppo_os.Fs.{Fs, entry, no_file, grow, store, fs_write}
use ppo_os.Fs.Valid.{file_at, IsValid}
use ppo_os.Fs.Write.{byte}

-- In a valid file system, a write that makes an open file grow to exactly the capacity of its
-- buffer sets the first byte of the file whose buffer comes next to 0.
pub fs_write-spill :
    {S : Type 0} (pool : ℕ) {s : Fs S} (i j offset : ℕ) (buf : List ℕ)
    → IsValid pool s
    → (file_at s i).content ≢ 0
    → offset + length buf < 2 ^ 62
    → offset + length buf ≡ (file_at s i).capacity
    → (file_at s i).size < (file_at s i).capacity
    → (file_at s j).content ≡ (file_at s i).content + (file_at s i).capacity
    → 0 < (file_at s j).size
    → byte (fs_write pool s (entry i) offset buf).0 j 0 ≡ some 0
unfolding fs_write grow store
fs_write-spill pool {s} i j offset buf v opened bounded fills grows adjacent used =
    let whole : (offset + length buf) % 2 ^ 64 ≡ offset + length buf = omega arith in
    let here : ltb (file_at s i).capacity (offset + length buf) ≡ false = ground arith in
    let bigger : ltb (file_at s i).size (offset + length buf) ≡ true = ground arith in
    let other : i ≢ j = λ e. omega (arith, adjacent, ap (λ (k : ℕ). (file_at s k).content) e) in
    let apart : (i == j) ≡ false = ne→== i j other in
    let kept =
      get_or-set s.files i j (record (file_at s i) { size = offset + length buf }) no_file in
    let kept_j : get_or (set s.files i (record (file_at s i) { size = offset + length buf })) j
          no_file
        ≡ file_at s j =
      rw (kept, apart) refl in
    rw (v.plain i, ne→== _ 0 opened, whole, here, bigger, kept_j) (ground arith)
