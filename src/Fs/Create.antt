-- ===== src/Fs/Create.antt =====
-- `fs_create_file` and `fs_open`: a new file is empty, valid, and found again under its name.
use ppo_os.Common.{
  ℕ, zero, suc, ◌+◌, ◌%◌, ◌^◌, ◌≤◌, ◌<◌, ◌≡◌, ◌≢◌, refl, ◌⊎◌, inl, inr, true, false, Option, none,
  some, List, [], ◌∷◌, ◌++◌, arith, ltb, leb, ◌==◌, if◌then◌else◌, length, get_or, take, Bool-cases,
  Option-cases, sym, ◌∙◌, ltb→lt, ltb→le, ==→eq, take_of_le, bytes_eq, bytes_eq_refl,
}
use ppo_os.Fs.{
  Fs, File, FilePtr, entry, initramfs, is_ext2, Memory, Driver, pool_size, no_file, fill, fs_alloc,
  fs_open, fs_create_file, find_file, name_matches, strip_dot_slash, fs_max_files,
}
use ppo_os.Fs.Lookup.{or_last, IsAbsent, IsFirst, find_file-IsAbsent, find_file-IsFirst}
use ppo_os.Fs.Valid.{file_at, InPool, IsValid, Apart, Apart-sym}

get_or-append :
    (l : List File) (f d : File) (i : ℕ)
    → get_or (l ++ (f ∷ [])) i d ≡ (if i == length l then f else get_or l i d)
get_or-append [] f d zero = ground arith
get_or-append [] f d (suc i) = ground arith
get_or-append (x ∷ l) f d zero = ground arith
get_or-append (x ∷ l) f d (suc i) = ground (arith, get_or-append l f d i)

get_or-end : (l : List File) (d : File) (i : ℕ) → length l ≤ i → get_or l i d ≡ d
get_or-end [] d i le = refl
get_or-end (x ∷ l) d zero le = absurd (omega arith)
get_or-end (x ∷ l) d (suc i) le = get_or-end l d i (omega arith)

-- A new file has its buffer at the end of the used part of the pool, or it has none.
pub record IsNew {S : Type 0} (pool : ℕ) (s : Fs S) (f : File) : Type 0 where
  pub plain : is_ext2 f.fs_type ≡ false
  pub place : (f.content ≡ pool + s.mem_used) ⊎ (f.content ≡ 0)
  pub empty : f.content ≡ 0 → f.size ≡ 0
  pub fits : f.size ≤ f.capacity
  pub room : s.mem_used + f.capacity ≤ pool_size

-- The state with one more file.
abbrev pub add_file : {S : Type 0} → Fs S → File → Memory → Fs S
add_file s f m = record s {
  files = s.files ++ (f ∷ []);
  mem_used = s.mem_used + f.capacity;
  mem = m;
}

module _ {S : Type 0} (pool : ℕ) {s : Fs S} (f : File) (m : Memory) (v : IsValid pool s)
    (new : IsNew pool s f) where
  abbrev after : Fs S
  after = add_file s f m

  at_cases :
      (j : ℕ) → ((j ≡ length s.files) × (file_at after j ≡ f)) ⊎ (file_at after j ≡ file_at s j)
  at_cases j = elim (Bool-cases (j == length s.files)) [
    | inl e ↦ inl (==→eq j _ e, ground (arith, get_or-append s.files f no_file j))
    | inr n ↦ inr (ground (arith, get_or-append s.files f no_file j))
  ]

  every : (P : File → Type 0) → P f → ((j : ℕ) → P (file_at s j)) → (j : ℕ) → P (file_at after j)
  every P here there j = elim (at_cases j) [
    | inl (e, same) ↦ rw same here
    | inr same ↦ rw same (there j)
  ]

  new-Apart :
      (h : File)
      → (h.content ≢ 0 → InPool pool s.mem_used h)
      → f.content ≢ 0
      → h.content ≢ 0
      → Apart f h
  new-Apart h b of oh = let e = (b oh).end in inr (omega (arith, new.place))

  -- Adding a file behind the others keeps the invariant.
  pub append-IsValid : IsValid pool after
  append-IsValid = record {
    used = new.room;
    plain = every (λ h. is_ext2 h.fs_type ≡ false) new.plain v.plain;
    empty = every (λ h. h.content ≡ 0 → h.size ≡ 0) new.empty v.empty;
    buffer =
        every (λ h. h.content ≢ 0 → InPool pool (s.mem_used + f.capacity) h)
          (λ o. record {
            start = omega (arith, new.place);
            end = omega (arith, new.place);
            fits = new.fits;
          })
          (λ j o.
            let b = v.buffer j o in
            record { start = b.start; end = omega (arith, b.end); fits = b.fits });
    apart = λ i j ne oi oj. go i j ne oi oj (at_cases i) (at_cases j);
  }
    where
      go :
          (i j : ℕ)
          → i ≢ j
          → (file_at after i).content ≢ 0
          → (file_at after j).content ≢ 0
          → ((i ≡ length s.files) × (file_at after i ≡ f)) ⊎ (file_at after i ≡ file_at s i)
          → ((j ≡ length s.files) × (file_at after j ≡ f)) ⊎ (file_at after j ≡ file_at s j)
          → Apart (file_at after i) (file_at after j)
      go i j ne oi oj (inl (ei, si)) (inl (ej, sj)) = absurd (ne (ei ∙ sym ej))
      go i j ne oi oj (inl (ei, si)) (inr sj) =
          rw (si, sj) (new-Apart (file_at s j) (v.buffer j) (rw (← si) oi) (rw (← sj) oj))
      go i j ne oi oj (inr si) (inl (ej, sj)) =
          let h = new-Apart (file_at s i) (v.buffer i) (rw (← sj) oj) (rw (← si) oi) in
          rw (si, sj) (Apart-sym f (file_at s i) h)
      go i j ne oi oj (inr si) (inr sj) = rw (si, sj) (v.apart i j ne (rw (← si) oi) (rw (← sj) oj))

find_file-append :
    (name : List ℕ) (i : ℕ) (l : List File) (f : File)
    → find_file name i l ≡ none
    → name_matches name f ≡ true
    → find_file name i (l ++ (f ∷ [])) ≡ some (i + length l)
unfolding find_file
find_file-append name i [] f absent found = ground (arith, found)
find_file-append name i (x ∷ l) f absent found =
    let next : i + 1 + length l ≡ i + suc (length l) = omega arith in
    ground (arith, find_file-append name (i + 1) l f)

matches_own :
    (name : List ℕ) (f : File)
    → length name ≤ 31
    → f.name ≡ take 31 name
    → name_matches name f ≡ true
unfolding name_matches
matches_own name f short e =
    rw (e, take_of_le 31 name short)
      (rw (bytes_eq_refl name) (
        or_last (bytes_eq (strip_dot_slash (take 31 name)) (take 31 (strip_dot_slash name)))
          (bytes_eq name (take 31 (strip_dot_slash name)))))

-- The entry that `fs_create_file` adds.
abbrev pub new_file : {S : Type 0} → ℕ → Fs S → List ℕ → File
new_file pool s name = record {
  name = take 31 name;
  content = pool + s.mem_used;
  size = 0;
  capacity = 256;
  mode = 0o644;
  is_dir = false;
  fs_type = initramfs;
}

abbrev pub created : {S : Type 0} → ℕ → Fs S → List ℕ → Fs S
created pool s name = add_file s (new_file pool s name) (fill s.mem (pool + s.mem_used) 0 1)

module _ {S : Type 0} (driver : Driver S) (pool : ℕ) {s : Fs S} (v : IsValid pool s)
    (some_pool : 0 < pool) (ram : is_ext2 s.active_fs ≡ false) (c : ℕ) (l : List ℕ) where
  abbrev name : List ℕ
  name = c ∷ l

  -- How the code comes to its result.
  data Route : Fs S × Option FilePtr → Type 0 where
    by_search : (i : ℕ) → find_file name 0 s.files ≡ some i → Route (s, some (entry i))
    refused :
        find_file name 0 s.files ≡ none
        → (fs_max_files ≤ length s.files) ⊎ (pool_size < s.mem_used + 256)
        → Route (s, none)
    appended :
        find_file name 0 s.files ≡ none
        → length s.files < fs_max_files
        → IsValid pool (created pool s name)
        → Route (created pool s name, some (entry (length s.files)))

  -- What `fs_create_file` does: it finds the file, has no room in the table or in the pool, or adds
  -- an entry.
  pub data Created : Fs S × Option FilePtr → Type 0 where
    found : (i : ℕ) → IsFirst name s.files i → Created (s, some (entry i))
    no_room :
        IsAbsent name s.files
        → (fs_max_files ≤ length s.files) ⊎ (pool_size < s.mem_used + 256)
        → Created (s, none)
    added :
        IsAbsent name s.files
        → length s.files < fs_max_files
        → IsValid pool (created pool s name)
        → Created (created pool s name, some (entry (length s.files)))

  fs_create_file-Route : Route (fs_create_file driver pool s name)
  unfolding fs_create_file fs_open fs_alloc
  fs_create_file-Route =
      let whole : (s.mem_used + 256) % 2 ^ 64 ≡ s.mem_used + 256 = omega (arith, v.used) in
      rw ram (elim (Option-cases (find_file name 0 s.files)) [
        | inr (i, e) ↦ rw e (by_search i e)
        | inl e ↦
            rw (e, ram)
              (elim (Bool-cases (leb fs_max_files (length s.files))) [
                | inl full ↦ rw full (refused e (inl (ground arith)))
                | inr room ↦
                    rw (room, whole)
                      (elim (Bool-cases (ltb pool_size (s.mem_used + 256))) [
                        | inl full ↦ rw full (refused e (inr (ltb→lt _ _ full)))
                        | inr fits ↦ rw fits (
                            appended e (ground arith) (
                              append-IsValid pool _ _ v (record {
                                plain = refl;
                                place = inl refl;
                                empty = λ z. refl;
                                fits = omega arith;
                                room = ltb→le _ _ fits;
                              })))
                      ])
              ])
      ])

  Route-Created : {out : Fs S × Option FilePtr} → Route out → Created out
  Route-Created (by_search i e) =
      let (t, at, first) = find_file-IsFirst name 0 i s.files e in
      let here : i ≡ t = omega arith in found i (rw here first)
  Route-Created (refused e full) = no_room (find_file-IsAbsent name 0 s.files e) full
  Route-Created (appended e room valid) = added (find_file-IsAbsent name 0 s.files e) room valid

  -- In a valid file system under the RAM driver, `fs_create_file` with a name that is not empty
  -- returns the first entry that has this name, as far as 31 bytes go, with or without "./" in
  -- front, or as it is, and changes nothing; or no entry has it, and it returns NULL and changes
  -- nothing since the table or the pool is full, or adds an empty file of 256 bytes behind the
  -- others and keeps the file system valid.
  pub fs_create_file-Created : Created (fs_create_file driver pool s name)
  fs_create_file-Created = Route-Created fs_create_file-Route

  abbrev Reopens : Fs S × Option FilePtr → Type 0
  Reopens (s', none) = Unit {0}
  Reopens (s', some p) = fs_open driver s' name ≡ (s', some p)

  reopens : length name ≤ 31 → {out : Fs S × Option FilePtr} → Route out → Reopens out
  unfolding fs_open
  reopens short (by_search i at) = rw (ram, at) refl
  reopens short (refused absent full) = tt
  reopens short (appended absent room valid) =
      let own = matches_own name (new_file pool s name) short refl in
      let last : 0 + length s.files ≡ length s.files = omega arith in
      rw (ram, find_file-append name 0 s.files (new_file pool s name) absent own, last) refl

  -- In a valid file system under the RAM driver, after `fs_create_file` has returned a file for a
  -- name of 1 to 31 bytes, `fs_open` returns the same file for that name.
  pub open-create :
      {s' : Fs S} {p : FilePtr}
      → length name ≤ 31
      → fs_create_file driver pool s name ≡ (s', some p)
      → fs_open driver s' name ≡ (s', some p)
  open-create {s'} {p} short e = back e (reopens short fs_create_file-Route)
    where
      back : {out out' : Fs S × Option FilePtr} → out ≡ out' → Reopens out → Reopens out'
      back e h = rw (← e) h
