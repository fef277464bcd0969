-- ===== src/Initramfs/Find.antt =====
-- `initramfs_find` against a lookup by the bytes of the names.
use ppo_os.Common.{
  ℕ, zero, suc, ◌<◌, ◌≡◌, refl, ap, ◌∙◌, sym, inl, inr, false, Option, none, some, List, [], ◌∷◌,
  arith, length, bytes_eq, if◌then◌else◌, bytes_eq_refl, eq_of_bytes_eq, Bool-cases,
}
use ppo_os.Common.Int.{ℤ, pos, negsuc}
use ppo_os.CString.{Memory}
use ppo_os.CString.Str.Held.{Held, strcmp-equal}
use ppo_os.Initramfs.{InitramfsFile, Ramfs, find_name, initramfs_find}

-- The files with their names as bytes.
pub data Named (m : Memory) (fuel : ℕ) : List InitramfsFile → List (List ℕ) → Type 0 where
  nobody : Named m fuel [] []
  named :
      {f : InitramfsFile} {fs : List InitramfsFile} {name : List ℕ} {names : List (List ℕ)}
      → Held m f.name name
      → length name < fuel
      → Named m fuel fs names
      → Named m fuel (f ∷ fs) (name ∷ names)

-- The first file with the name.
abbrev pub first_named : List InitramfsFile → List (List ℕ) → List ℕ → Option InitramfsFile
first_named [] names wanted = none
first_named (f ∷ fs) [] wanted = none
first_named (f ∷ fs) (name ∷ names) wanted =
    if bytes_eq name wanted then some f else first_named fs names wanted

module _ (fuel : ℕ) (m : Memory) (wanted : ℕ) (bytes : List ℕ) (held : Held m wanted bytes) where
  -- What a round of the loop makes of the result of `strcmp`.
  abbrev choose : InitramfsFile → Option (Option InitramfsFile) → ℤ → Option (Option InitramfsFile)
  choose f rest r = elim r [ pos zero ↦ some (some f) | _ ↦ rest ]

  choose-other :
      (f : InitramfsFile) (rest : Option (Option InitramfsFile)) (r : ℤ)
      → (r ≡ pos 0 → ⊥)
      → choose f rest r ≡ rest
  choose-other f rest (pos zero) ne = absurd (ne refl)
  choose-other f rest (pos (suc n)) ne = refl
  choose-other f rest (negsuc n) ne = refl

  find_name-first_named :
      (fs : List InitramfsFile) (names : List (List ℕ))
      → Named m fuel fs names
      → find_name fuel m fs wanted ≡ some (first_named fs names bytes)
  unfolding find_name
  find_name-first_named _ _ nobody = refl
  find_name-first_named _ _ (named {f} {fs} {name} {names} h lt more) =
      let (r, run, zero_iff) = strcmp-equal fuel m f.name wanted name bytes lt h held in
      let rest = find_name-first_named fs names more in
      elim (Bool-cases (bytes_eq name bytes)) [
        | inl e ↦
            let r_zero : r ≡ pos 0 = zero_iff.1 (eq_of_bytes_eq name bytes e) in
            rw (run, r_zero, e) refl
        | inr e ↦
            let other : r ≡ pos 0 → ⊥ = λ z. differ name e (zero_iff.0 z) in
            rw (run, choose-other f (find_name fuel m fs wanted) r other, e) rest
      ]
    where
      differ : (name : List ℕ) → bytes_eq name bytes ≡ false → name ≡ bytes → ⊥
      differ name e same =
          absurd
            (ground (arith, sym (bytes_eq_refl bytes) ∙ ap (λ n. bytes_eq n bytes) (sym same) ∙ e))

  -- If each stored name is a C string with fewer bytes than the fuel, `initramfs_find` returns the
  -- first file whose name has the bytes that are looked for, or NULL if none has.
  pub initramfs_find-first :
      (s : Ramfs) (names : List (List ℕ))
      → Named m fuel s.files names
      → initramfs_find fuel m s wanted ≡ some (first_named s.files names bytes)
  unfolding initramfs_find
  initramfs_find-first s names all = find_name-first_named s.files names all
