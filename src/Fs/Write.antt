-- ===== src/Fs/Write.antt =====
-- `fs_write`: which bytes it stores, that it keeps the other files, and when it fails.
use ppo_os.Common.{
  ℕ, zero, suc, ◌+◌, ◌-◌, ◌*◌, ◌%◌, ◌^◌, ◌≤◌, ◌<◌, ◌≡◌, ◌≢◌, refl, ◌⊎◌, inl, inr, false, ◌&&◌,
  Option, none, some, List, [], ◌∷◌, arith, ltb, leb, ◌==◌, if◌then◌else◌, length, get_or, set,
  get_or-set, Bool-cases, ne→==, ltb→lt, ltb→le, sym, ◌∙◌, ap, ==→eq, ==→ne,
}
use ppo_os.Fs.{
  Fs, File, entry, is_ext2, no_file, pool_size, fill, copy, store, fs_alloc, grow, fs_write,
}
use ppo_os.Fs.Valid.{file_at, Apart, Apart-sym, InPool, IsValid, store-own, store-other}

-- Byte `k` of file `i`.
abbrev pub byte : {S : Type 0} → Fs S → ℕ → ℕ → Option ℕ
byte s i k = if ltb k (file_at s i).size then some (s.mem ((file_at s i).content + k)) else none

-- What a write makes of a file's bytes: the new ones, zeros in a gap, else the old ones.
abbrev pub written : {S : Type 0} → Fs S → ℕ → ℕ → List ℕ → ℕ → Option ℕ
written s i offset buf k =
    if leb offset k && ltb k (offset + length buf)
    then some (get_or buf (k - offset) 0)
    else if ltb k (file_at s i).size
    then byte s i k
    else if ltb k (offset + length buf)
    then some 0
    else none

module _ {S : Type 0} (pool : ℕ) {s : Fs S} (v : IsValid pool s) (i offset : ℕ) (buf : List ℕ)
    (opened : (file_at s i).content ≢ 0) (bounded : offset + length buf < 2 ^ 62) where
  abbrev f : File
  f = file_at s i

  abbrev new_size : ℕ
  new_size = offset + length buf

  -- `i` names an entry.
  in_table : i < length s.files
  in_table = go s.files i opened
    where
      go : (l : List File) (i : ℕ) → (get_or l i no_file).content ≢ 0 → i < length l
      go [] i ne = absurd (ne refl)
      go (x ∷ l) zero ne = omega arith
      go (x ∷ l) (suc i) ne = omega (arith, go l i ne)

  -- The state in which the bytes are stored, and the file's buffer there.
  record Ready (s1 : Fs S) (g : File) : Type 0 where
    files : s1.files ≡ s.files
    used : s1.mem_used ≤ pool_size
    more : s.mem_used ≤ s1.mem_used
    buffer : InPool pool s1.mem_used g
    plain : is_ext2 g.fs_type ≡ false
    opened' : g.content ≢ 0
    size : g.size ≡ f.size
    room : new_size ≤ g.capacity
    tight : new_size ≡ g.capacity → new_size ≡ f.capacity
    own : (k : ℕ) → k < f.size → s1.mem (g.content + k) ≡ s.mem (f.content + k)
    kept : (a : ℕ) → a < pool + s.mem_used → s1.mem a ≡ s.mem a
    apart : (j : ℕ) → i ≢ j → (file_at s j).content ≢ 0 → Apart g (file_at s j)

  here-Ready : new_size ≤ f.capacity → Ready s f
  here-Ready le = record {
    files = refl;
    used = v.used;
    more = omega arith;
    buffer = v.buffer i opened;
    plain = v.plain i;
    opened' = opened;
    size = refl;
    room = le;
    tight = λ e. e;
    own = λ k lt. refl;
    kept = λ a lt. refl;
    apart = λ j ne other. v.apart i j ne opened other;
  }

  abbrev grown_file : File
  grown_file = record f { content = pool + s.mem_used; capacity = new_size * 2 }

  abbrev grown_state : Fs S
  grown_state = record s {
    mem_used = s.mem_used + new_size * 2;
    mem =
        copy (fill s.mem (pool + s.mem_used) 0 (new_size * 2)) (pool + s.mem_used) f.content f.size;
  }

  grown-Ready :
      f.capacity < new_size → s.mem_used + new_size * 2 ≤ pool_size → Ready grown_state grown_file
  grown-Ready lt fits =
      let old = v.buffer i opened in
      let low = old.end in
      let small = old.fits in
      record {
        files = refl;
        used = fits;
        more = omega arith;
        buffer = record { start = omega arith; end = omega arith; fits = omega arith };
        plain = v.plain i;
        opened' = λ z. omega (arith, opened);
        size = refl;
        room = omega arith;
        tight = λ e. omega arith;
        own = λ k klt. ground arith;
        kept = λ a alt. ground arith;
        apart = λ j ne other. let e = (v.buffer j other).end in inr (omega arith);
      }

  grow_cases :
      ((grow pool s f new_size ≡ (s, none)) × (pool_size < s.mem_used + new_size * 2))
      ⊎ ((s1 : Fs S) × (g : File) × (grow pool s f new_size ≡ (s1, some g)) × Ready s1 g)
  unfolding grow fs_alloc
  grow_cases = elim (Bool-cases (ltb f.capacity new_size)) [
    | inr n ↦ rw n (inr (s, f, refl, here-Ready (omega (arith, ltb→le f.capacity new_size n))))
    | inl y ↦
        let whole : new_size * 2 % 2 ^ 64 ≡ new_size * 2 = omega arith in
        let used : (s.mem_used + new_size * 2) % 2 ^ 64 ≡ s.mem_used + new_size * 2 =
          omega (arith, v.used) in
        rw (y, whole, used)
          (elim (Bool-cases (ltb pool_size (s.mem_used + new_size * 2))) [
            | inl full ↦ rw full (inl (refl, ltb→lt _ _ full))
            | inr fits ↦
                rw fits (
                  inr (grown_state, grown_file, refl, grown-Ready (ltb→lt _ _ y) (ltb→le _ _ fits)))
          ])
  ]

  abbrev sized : File → File
  sized g = record g { size = if ltb g.size new_size then new_size else g.size }

  abbrev done : Fs S → File → Fs S
  done s1 g = record s1 { mem = store s1.mem g offset buf; files = set s1.files i (sized g) }

  -- What a write that is carried out does.
  pub record Stored (out : Fs S × ℕ) : Type 0 where
    pub result : out.1 ≡ length buf
    pub bytes : (k : ℕ) → byte out.0 i k ≡ written s i offset buf k
    pub others : (j k : ℕ) → new_size ≢ f.capacity → i ≢ j → byte out.0 j k ≡ byte s j k
    pub valid : IsValid pool out.0

  module _ {s1 : Fs S} {g : File} (r : Ready s1 g) where
    file_self : file_at (done s1 g) i ≡ sized g
    file_self = ground (arith, r.files, in_table, get_or-set s1.files i i (sized g) no_file)

    file_other : (j : ℕ) → i ≢ j → file_at (done s1 g) j ≡ file_at s j
    file_other j ne = ground (arith, r.files, get_or-set s1.files i j (sized g) no_file)

    every :
        (P : File → Type 0)
        → P (sized g)
        → ((j : ℕ) → i ≢ j → P (file_at s j))
        → (j : ℕ) → P (file_at (done s1 g) j)
    every P self other j = elim (Bool-cases (i == j)) [
      | inl e ↦ let same : i ≡ j = ==→eq i j e in rw (← same, file_self) self
      | inr n ↦ let ne : i ≢ j = ==→ne i j n in rw (file_other j ne) (other j ne)
    ]

    bytes_own : (k : ℕ) → byte (done s1 g) i k ≡ written s i offset buf k
    bytes_own k =
        rw file_self
          (ground (arith, r.size, r.own k, store-own s1.mem g offset buf (omega arith) k))

    strict : new_size ≢ f.capacity → new_size < g.capacity
    strict ne = go (omega (arith, r.room))
      where
        go : (new_size < g.capacity) ⊎ (new_size ≡ g.capacity) → new_size < g.capacity
        go (inl lt) = lt
        go (inr e) = absurd (ne (r.tight e))

    bytes_other : (j k : ℕ) → new_size ≢ f.capacity → i ≢ j → byte (done s1 g) j k ≡ byte s j k
    bytes_other j k ne other =
        rw (file_other j other) (elim (Bool-cases (ltb k (file_at s j).size)) [
          | inr n ↦ rw n refl
          | inl y ↦ rw y (ap some (same_byte (ltb→lt _ _ y)))
        ])
      where
        same_byte :
            k < (file_at s j).size
            → store s1.mem g offset buf ((file_at s j).content + k)
              ≡ s.mem ((file_at s j).content + k)
        same_byte lt =
            let full : (file_at s j).content ≢ 0 = λ z. omega (arith, v.empty j z, lt) in
            let b = v.buffer j full in
            let e = b.end in
            let t = b.fits in
            let outside : ((file_at s j).content + k < g.content)
                ⊎ (g.content + g.capacity ≤ (file_at s j).content + k) =
              omega (arith, r.apart j other full) in
            store-other s1.mem g offset buf (omega arith) ((file_at s j).content + k) (strict ne)
              outside
            ∙ r.kept ((file_at s j).content + k) (omega arith)

    done-IsValid : IsValid pool (done s1 g)
    done-IsValid = record {
      used = r.used;
      plain = every (λ h. is_ext2 h.fs_type ≡ false) r.plain (λ j ne. v.plain j);
      empty =
          every (λ h. h.content ≡ 0 → h.size ≡ 0) (λ z. absurd (r.opened' z)) (λ j ne. v.empty j);
      buffer =
          every (λ h. h.content ≢ 0 → InPool pool s1.mem_used h)
            (λ o. record {
              start = r.buffer.start;
              end = r.buffer.end;
              fits = ground (arith, r.room, r.buffer.fits);
            })
            (λ j ne o.
              let b = v.buffer j o in
              record { start = b.start; end = omega (arith, b.end, r.more); fits = b.fits });
      apart = λ a b ne oa ob. elim (Bool-cases (i == a)) [
        | inl e ↦
            let same : i ≡ a = ==→eq i a e in
            let other : i ≢ b = λ h. ne (sym same ∙ h) in
            let open_b : (file_at s b).content ≢ 0 = rw (← file_other b other) ob in
            rw (← same, file_self, file_other b other) (r.apart b other open_b)
        | inr n ↦
            let first : i ≢ a = ==→ne i a n in
            let open_a : (file_at s a).content ≢ 0 = rw (← file_other a first) oa in
            elim (Bool-cases (i == b)) [
              | inl e ↦
                  let same : i ≡ b = ==→eq i b e in
                  rw (← same, file_self, file_other a first)
                    (Apart-sym g (file_at s a) (r.apart a first open_a))
              | inr m ↦
                  let second : i ≢ b = ==→ne i b m in
                  let open_b : (file_at s b).content ≢ 0 = rw (← file_other b second) ob in
                  rw (file_other a first, file_other b second) (v.apart a b ne open_a open_b)
            ]
      ];
    }

  -- In a valid file system, a write to an open file whose end lies below 2^62 is either carried
  -- out, or it returns 0, changes nothing, and the pool has no room for the larger buffer. Carried
  -- out means that the result is the length, the file's bytes are the new ones, zeros in a gap and
  -- else the old ones, every other file keeps its bytes unless the write ends exactly at the end
  -- of the old buffer, and the file system stays valid.
  pub fs_write_cases :
      Stored (fs_write pool s (entry i) offset buf)
      ⊎ ((fs_write pool s (entry i) offset buf ≡ (s, 0)) × (pool_size < s.mem_used + new_size * 2))
  unfolding fs_write
  fs_write_cases =
      let wrap : new_size % 2 ^ 64 ≡ new_size = omega arith in
      let set_up : (f.content == 0) ≡ false = ne→== _ _ opened in
      rw (v.plain i, set_up, wrap)
        (elim grow_cases [
          | inl (e, full) ↦ rw e (inr (refl, full))
          | inr (s1, g, e, r) ↦ rw e (
              inl (record {
                result = refl;
                bytes = bytes_own r;
                others = bytes_other r;
                valid = done-IsValid r;
              }))
        ])
