-- ===== src/Boot/Modules.antt =====
-- The boot loader's modules: the search of kernel/src/main.c for the archive among them.
use ppo_os.Common.{
  ℕ, zero, suc, ◌+◌, ◌<◌, ◌≡◌, ◌≢◌, refl, sym, ap, ◌∙◌, Bool, true, false, ◌||◌, List, [], ◌∷◌,
  ◌++◌, Option, none, some, arith, ne→==, eq→==, ◌==◌, Bool-cases, inl, inr, is_empty, length,
  bytes_eq, eq_of_bytes_eq, if◌then◌else◌, codes,
}
use ppo_os.Common.Int.{ℤ, pos, negsuc}
use ppo_os.CString.{Memory}
use ppo_os.CString.Str.{strlen, strcmp}
use ppo_os.CString.Str.Held.{Held, strlen-Held, strcmp-equal}
use ppo_os.Fs.{Fs, File, read_bytes}
use ppo_os.Syscall.{print}
use ppo_os.Boot.{is_zero, BootModule, Boot, file_name, say, say_string, find_module, list_files}

abbrev pub is_slash : ℕ → Bool
is_slash c = (c == 47) || (c == 92)

-- What follows the last slash of a path, or else the second argument.
abbrev pub behind_slash : List ℕ → List ℕ → List ℕ
behind_slash [] name = name
behind_slash (c ∷ cs) name = behind_slash cs (if is_slash c then cs else name)

length-behind_slash :
    (cs name : List ℕ) (fuel : ℕ)
    → length cs < fuel
    → length name < fuel
    → length (behind_slash cs name) < fuel
length-behind_slash [] name fuel lt lt' = lt'
length-behind_slash (c ∷ cs) name fuel lt lt' =
    length-behind_slash cs (if is_slash c then cs else name) fuel (omega arith) (ground arith)

-- `file_name` finds it.
pub file_name-Held :
    (fuel : ℕ) (m : Memory) (path last : ℕ) (cs name : List ℕ)
    → length cs < fuel
    → Held m path cs
    → Held m last name
    → (p : ℕ) × (file_name fuel m path last ≡ some p) × Held m p (behind_slash cs name)
unfolding file_name
file_name-Held zero m path last cs name lt h held = absurd (omega arith)
file_name-Held (suc fuel) m path last [] name lt h held = rw (eq→== (m path) 0 h) (last, refl, held)
file_name-Held (suc fuel) m path last (c ∷ cs) name lt (here, some_byte, h) held =
    rw (here, ne→== c 0 (omega arith))
      (elim (Bool-cases (is_slash c)) [
        | inl slash ↦ rw slash (file_name-Held fuel m (path + 1) (path + 1) cs cs (omega arith) h h)
        | inr other ↦ rw other (file_name-Held fuel m (path + 1) last cs name (omega arith) h held)
      ])

-- "initramfs.cpio"
abbrev pub archive_name : List ℕ
archive_name = codes "initramfs.cpio"

-- The paths of the modules: none for NULL, else a C string shorter than the fuel.
abbrev pub Named : ℕ → Memory → List BootModule → List (Option (List ℕ)) → Type 0
Named fuel m [] [] = Unit {0}
Named fuel m [] (n ∷ ns) = ⊥
Named fuel m (b ∷ bs) [] = ⊥
Named fuel m (b ∷ bs) (none ∷ ns) = (b.path ≡ 0) × Named fuel m bs ns
Named fuel m (b ∷ bs) (some cs ∷ ns) =
    (b.path ≢ 0) × (length cs < fuel) × Held m b.path cs × Named fuel m bs ns

abbrev pub is_archive : Option (List ℕ) → Bool
is_archive none = false
is_archive (some cs) = bytes_eq (behind_slash cs cs) archive_name

-- Address and size of the first module whose file name is that of the archive.
abbrev pub first_archive : List BootModule → List (Option (List ℕ)) → ℕ × ℕ
first_archive [] ns = (0, 0)
first_archive (b ∷ bs) [] = (0, 0)
first_archive (b ∷ bs) (n ∷ ns) = if is_archive n then (b.address, b.size) else first_archive bs ns

is_zero_not : (r : ℤ) → r ≢ pos 0 → is_zero r ≡ false
is_zero_not (pos zero) h = absurd (h refl)
is_zero_not (pos (suc n)) h = refl
is_zero_not (negsuc n) h = refl

module _ {S : Type 0} where
  -- Only the output and the registers differ.
  pub record Kept (s t : Boot S) : Type 0 where
    pub fs : t.system.fs ≡ s.system.fs
    pub vmm : t.system.vmm ≡ s.system.vmm
    pub fd_table : t.system.fd_table ≡ s.system.fd_table

  pub Kept-trans : {s t u : Boot S} → Kept s t → Kept t u → Kept s u
  Kept-trans h k = record {
    fs = k.fs ∙ h.fs;
    vmm = k.vmm ∙ h.vmm;
    fd_table = k.fd_table ∙ h.fd_table;
  }

  pub say-Kept : (n : ℕ) (text : List ℕ) (s : Boot S) → Kept s (say n text s)
  unfolding say
  say-Kept n text s = elim (Bool-cases s.system.has_terminal) [
    | inl e ↦ record { fs = rw e refl; vmm = rw e refl; fd_table = rw e refl }
    | inr e ↦ record { fs = rw e refl; vmm = rw e refl; fd_table = rw e refl }
  ]

  comma-Kept :
      (last : Bool) (s : Boot S)
      → Kept s (record s {
        system = if last then s.system else print s.system (codes ", ");
        serial = s.serial ++ codes ", ";
      })
  comma-Kept true s = record { fs = refl; vmm = refl; fd_table = refl }
  comma-Kept false s = elim (Bool-cases s.system.has_terminal) [
    | inl e ↦ record { fs = rw e refl; vmm = rw e refl; fd_table = rw e refl }
    | inr e ↦ record { fs = rw e refl; vmm = rw e refl; fd_table = rw e refl }
  ]

  pub list_files-Kept : (files : List File) (s : Boot S) → Kept s (list_files files s)
  unfolding list_files
  list_files-Kept [] s = record { fs = refl; vmm = refl; fd_table = refl }
  list_files-Kept (f ∷ files) s =
      let named = say (length f.name) f.name s in
      Kept-trans (say-Kept (length f.name) f.name s)
        (Kept-trans (comma-Kept (is_empty files) named) (list_files-Kept files _))

  pub find_module-first :
      (fuel wanted : ℕ) (m : Memory) (bs : List BootModule) (ns : List (Option (List ℕ)))
      (s : Boot S)
      → s.system.fs.mem ≡ m
      → Held m wanted archive_name
      → Named fuel m bs ns
      → (t : Boot S) × (find_module fuel wanted bs s
          ≡ some (t, (first_archive bs ns).0, (first_archive bs ns).1))
        × Kept s t
  unfolding find_module say_string
  find_module-first fuel wanted m [] [] s mem held named =
      (s, refl, record { fs = refl; vmm = refl; fd_table = refl })
  find_module-first fuel wanted m [] (n ∷ ns) s mem held named = absurd named
  find_module-first fuel wanted m (b ∷ bs) [] s mem held named = absurd named
  find_module-first fuel wanted m (b ∷ bs) (none ∷ ns) s mem held (null, rest) =
      let said = say 11 (codes "(null path)") s in
      let kept = Kept-trans (say-Kept 11 (codes "(null path)") s) (say-Kept 1 (codes " ") said) in
      let (t, e, more) =
        find_module-first fuel wanted m bs ns (say 1 (codes " ") said)
          (ap (λ (fs : Fs S). fs.mem) kept.fs ∙ mem) held rest in
      (t, rw (eq→== b.path 0 null) e, Kept-trans kept more)
  find_module-first fuel wanted m (b ∷ bs) (some cs ∷ ns) s mem held (path, short, text, rest) =
      let said = say (length cs) (read_bytes s.system.fs.mem b.path (length cs)) s in
      let s1 = say 1 (codes " ") said in
      let kept = Kept-trans (say-Kept (length cs) _ s) (say-Kept 1 (codes " ") said) in
      let mem1 : s1.system.fs.mem ≡ m = ap (λ (fs : Fs S). fs.mem) kept.fs ∙ mem in
      let len : strlen fuel s.system.fs.mem b.path ≡ some (length cs) =
        rw mem (strlen-Held fuel m b.path cs short text) in
      let (p, at, name) = file_name-Held fuel m b.path b.path cs cs short text text in
      let (r, order, same) =
        strcmp-equal fuel m p wanted (behind_slash cs cs) archive_name
          (length-behind_slash cs cs fuel short short) name held in
      let at1 = ap (λ (k : Memory). file_name fuel k b.path b.path) mem1 ∙ at in
      let order1 = ap (λ (k : Memory). strcmp fuel k p wanted) mem1 ∙ order in
      let (t, e, more) = find_module-first fuel wanted m bs ns s1 mem1 held rest in
      elim (Bool-cases (bytes_eq (behind_slash cs cs) archive_name)) [
        | inl found ↦
            let zero_there = same.1 (eq_of_bytes_eq _ _ found) in
            (s1, rw (ne→== b.path 0 path, len, at1, order1, zero_there, found) refl, kept)
        | inr other ↦
            let apart : r ≢ pos 0 =
              λ z. cc (sym other ∙ ap (λ l. bytes_eq l archive_name) (same.0 z)) in
            (
              t,
              rw (ne→== b.path 0 path, len, at1, order1, is_zero_not r apart, other) e,
              Kept-trans kept more,
            )
      ]
