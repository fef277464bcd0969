-- ===== src/Initramfs/Archive.antt =====
-- The newc format, stated apart from the parser of initramfs.c, and what the parser makes of it.
use ppo_os.Common.{
  ℕ, zero, suc, ◌+◌, ◌*◌, ◌/◌, ◌%◌, ◌^◌, ◌≤◌, ◌<◌, ◌≡◌, refl, ap, ◌∙◌, true, false, List, [], ◌∷◌,
  arith, take, ltb, lt→ltb, le→ltb, and_false,
}
use native.Mathlib.Nat.{pow-suc}
use ppo_os.Common.Loops.{for_range}
use ppo_os.CString.{Memory}
use ppo_os.Initramfs.{
  InitramfsFile, add_digit, hex2u32, entry, next_header, read_entries, initramfs_init, starts_with,
  is_string, cpio_newc_magic, trailer,
}
use ppo_os.Initramfs.Layout.{add_digit_lem, align4_lem}

-- The character for a digit.
pub data HexDigit : ℕ → ℕ → Type 0 where
  decimal : {d : ℕ} → d < 10 → HexDigit (48 + d) d
  lower : {d : ℕ} → d < 6 → HexDigit (97 + d) (10 + d)
  upper : {d : ℕ} → d < 6 → HexDigit (65 + d) (10 + d)

-- At `a` stand `n` hexadecimal digits, the highest first, of the number.
pub data Spelled (m : Memory) (a : ℕ) : ℕ → ℕ → Type 0 where
  nothing : Spelled m a 0 0
  digit : {n v d : ℕ} → Spelled m a n v → HexDigit (m (a + n)) d → Spelled m a (suc n) (v * 16 + d)

-- The next multiple of 4.
abbrev pub up4 : ℕ → ℕ
up4 x = (x + 3) / 4 * 4

-- An archive of files from an address on, closed by its trailer before `end`.
pub data Archive (m : Memory) (end : ℕ) : ℕ → List InitramfsFile → Type 0 where
  closed :
      {p namesize : ℕ}
      → p + 110 < end
      → starts_with m p cpio_newc_magic ≡ true
      → Spelled m (p + 94) 8 namesize
      → 0 < namesize
      → is_string m (p + 110) trailer ≡ true
      → Archive m end p []
  file :
      {p namesize size : ℕ} {fs : List InitramfsFile}
      → p + 110 < end
      → starts_with m p cpio_newc_magic ≡ true
      → Spelled m (p + 94) 8 namesize
      → Spelled m (p + 54) 8 size
      → is_string m (p + 110) trailer ≡ false
      → Archive m end (up4 (up4 (p + 110 + namesize) + size)) fs
      → Archive m end p
          (record { name = p + 110; data_start = up4 (p + 110 + namesize); size = size } ∷ fs)

for_range-last {ℓ} :
    {S : Type ℓ} (n first : ℕ) (body : ℕ → S → S) (s : S)
    → for_range (suc n) first body s ≡ body (first + n) (for_range n first body s)
unfolding for_range
for_range-last zero first body s = let e : first + 0 ≡ first = omega arith in rw e refl
for_range-last (suc n) first body s =
    let e : first + suc n ≡ first + 1 + n = omega arith in
    rw e (for_range-last n (first + 1) body (body first s))

add_digit-HexDigit : (c d v : ℕ) → HexDigit c d → add_digit c v ≡ v * 16 % 2 ^ 32 + d
add_digit-HexDigit _ _ v (decimal {d} lt) = ground (arith, add_digit_lem (48 + d) v)
add_digit-HexDigit _ _ v (lower {d} lt) = ground (arith, add_digit_lem (97 + d) v)
add_digit-HexDigit _ _ v (upper {d} lt) = ground (arith, add_digit_lem (65 + d) v)

HexDigit-lt : (c d : ℕ) → HexDigit c d → d < 16
HexDigit-lt c d (decimal lt) = omega arith
HexDigit-lt c d (lower lt) = omega arith
HexDigit-lt c d (upper lt) = omega arith

Spelled-lt : {m : Memory} {a n v : ℕ} → Spelled m a n v → v < 16 ^ n
Spelled-lt nothing = omega arith
Spelled-lt (digit {n} {v} {d} before here) =
    let below = Spelled-lt before in let small = HexDigit-lt _ d here in omega (arith, pow-suc 16 n)

hex2u32-mod : {m : Memory} {a n v : ℕ} → Spelled m a n v → hex2u32 m a n ≡ v % 2 ^ 32
unfolding hex2u32 for_range
hex2u32-mod nothing = refl
hex2u32-mod {m} {a} (digit {n} {v} {d} before here) =
    let last = for_range-last n 0 (λ i v. add_digit (m (a + i)) v) 0 in
    let none_before : 0 + n ≡ n = omega arith in
    let added = add_digit-HexDigit (m (a + n)) d (hex2u32 m a n) here in
    let small = HexDigit-lt _ d here in
    omega (
      arith,
      last ∙ ap (λ (k : ℕ). add_digit (m (a + k)) (hex2u32 m a n)) none_before ∙ added,
      hex2u32-mod before,
    )

hex2u32-Spelled : {m : Memory} {a v : ℕ} → Spelled m a 8 v → hex2u32 m a 8 ≡ v
hex2u32-Spelled s = omega (arith, Spelled-lt s, hex2u32-mod s)

head_in : {m : Memory} {end p : ℕ} {fs : List InitramfsFile} → Archive m end p fs → p + 110 < end
head_in (closed inside _ _ _ _) = inside
head_in (file inside _ _ _ _ _) = inside

module _ (m : Memory) (end : ℕ) (room : end + 2 ^ 34 ≤ 2 ^ 64) where
  read_entries-Archive :
      (rounds p : ℕ) (fs : List InitramfsFile)
      → Archive m end p fs
      → read_entries rounds m p end ≡ take rounds fs
  unfolding read_entries entry next_header
  read_entries-Archive zero p fs a = refl
  read_entries-Archive (suc rounds) p fs (closed {namesize} inside magic named some_name last) =
      rw (lt→ltb _ _ inside, magic, hex2u32-Spelled named, lt→ltb _ _ some_name, last) refl
  read_entries-Archive (suc rounds) p fs
        (file {namesize} {size} {fs = rest} inside magic named sized other more) =
      let names = Spelled-lt named in
      let sizes = Spelled-lt sized in
      let start = align4_lem (p + 110 + namesize) (omega arith) in
      let next = align4_lem (up4 (p + 110 + namesize) + size) (omega arith) in
      let e1 : (p + 110 + namesize) % 2 ^ 64 ≡ p + 110 + namesize = omega arith in
      let e2 : (up4 (p + 110 + namesize) + size) % 2 ^ 64 ≡ up4 (p + 110 + namesize) + size =
        omega arith in
      let fits = head_in more in
      rw
        (
          lt→ltb _ _ inside,
          magic,
          hex2u32-Spelled named,
          hex2u32-Spelled sized,
          other,
          e1,
          start,
          e2,
          next,
          le→ltb end (up4 (up4 (p + 110 + namesize) + size)) (omega arith),
          read_entries-Archive rounds _ rest more,
          and_false (ltb 0 namesize),
        )
        refl

  -- If from `base` on stands a newc archive that its trailer closes before the end, all more than
  -- 2^34 bytes below the end of the address space, `initramfs_init` stores exactly its first 16
  -- files, with the addresses and sizes that the format gives them.
  pub initramfs_init-Archive :
      (base len : ℕ) (fs : List InitramfsFile)
      → base + len ≡ end
      → Archive m end base fs
      → (initramfs_init m base len).files ≡ take 16 fs
  unfolding initramfs_init
  initramfs_init-Archive base len fs total a = rw total (read_entries-Archive 16 base fs a)
