-- ===== src/Fs/Lookup.antt =====
-- Which entry the search of `fs_open` finds.
use mathlib.Core.Path.{subst}
use ppo_os.Common.{
  ℕ, zero, suc, ◌+◌, ◌<◌, ◌≡◌, ◌⊎◌, refl, inl, inr, Bool, true, false, ◌||◌, none, some, List, [],
  ◌∷◌, arith, length, get_or, take, if◌then◌else◌, codes, Bool-cases, bytes_eq, bytes_eq_refl,
  eq_of_bytes_eq, sym, ◌∙◌,
}
use ppo_os.Fs.{File, no_file, find_file, name_matches, strip_dot_slash}

-- The text behind a leading "./", or the text.
abbrev pub plain : List ℕ → List ℕ
plain [] = []
plain (c ∷ []) = c ∷ []
plain (c ∷ (d ∷ l)) = if bytes_eq (c ∷ (d ∷ [])) (codes "./") then l else c ∷ (d ∷ l)

-- The entry has this name: as far as 31 bytes go, with or without "./" in front of either, or as it is.
abbrev pub Bears : List ℕ → File → Type 0
Bears name f =
    (plain (take 31 f.name) ≡ take 31 (plain name))
    ⊎ ((f.name ≡ take 31 (plain name)) ⊎ (f.name ≡ name))

-- No entry has the name.
abbrev pub IsAbsent : List ℕ → List File → Type 0
IsAbsent name l = (j : ℕ) → j < length l → ¬ Bears name (get_or l j no_file)

-- The entry is the first one that has the name.
pub record IsFirst (name : List ℕ) (l : List File) (i : ℕ) : Type 0 where
  pub inside : i < length l
  pub bears : Bears name (get_or l i no_file)
  pub before : (j : ℕ) → j < i → ¬ Bears name (get_or l j no_file)

strip-plain : (l : List ℕ) → strip_dot_slash l ≡ plain l
unfolding strip_dot_slash
strip-plain [] = refl
strip-plain (c ∷ []) = refl
strip-plain (c ∷ (d ∷ l)) = ground arith

matches-Bears : (name : List ℕ) (f : File) → name_matches name f ≡ true → Bears name f
unfolding name_matches
matches-Bears name f = rw (strip-plain (take 31 f.name), strip-plain name) (λ h. cases h)
  where
    processed : List ℕ
    processed = take 31 (plain name)

    cases :
        (bytes_eq (plain (take 31 f.name)) processed
            || bytes_eq f.name processed
            || bytes_eq f.name name)
          ≡ true
        → Bears name f
    cases h = elim (Bool-cases (bytes_eq (plain (take 31 f.name)) processed)) [
      | inl e ↦ inl (eq_of_bytes_eq _ _ e)
      | inr n ↦ elim (Bool-cases (bytes_eq f.name processed)) [
        | inl e ↦ inr (inl (eq_of_bytes_eq _ _ e))
        | inr n' ↦ inr (inr (eq_of_bytes_eq _ _ (rw (n, n') at h)))
      ]
    ]

equal : {xs ys : List ℕ} → xs ≡ ys → bytes_eq xs ys ≡ true
equal {xs} e = subst (λ ys. bytes_eq xs ys ≡ true) e (bytes_eq_refl xs)

or_middle : (a b : Bool) → (a || true || b) ≡ true
or_middle true b = refl
or_middle false b = refl

pub or_last : (a b : Bool) → (a || b || true) ≡ true
or_last true b = refl
or_last false true = refl
or_last false false = refl

Bears-matches : (name : List ℕ) (f : File) → Bears name f → name_matches name f ≡ true
unfolding name_matches
Bears-matches name f h = rw (strip-plain (take 31 f.name), strip-plain name) (cases h)
  where
    cases :
        Bears name f
        → (bytes_eq (plain (take 31 f.name)) (take 31 (plain name))
            || bytes_eq f.name (take 31 (plain name))
            || bytes_eq f.name name)
          ≡ true
    cases (inl e) = rw (equal e) refl
    cases (inr (inl e)) = rw (equal e) (
        or_middle (bytes_eq (plain (take 31 f.name)) (take 31 (plain name))) (bytes_eq f.name name))
    cases (inr (inr e)) = rw (equal e) (
        or_last (bytes_eq (plain (take 31 f.name)) (take 31 (plain name)))
          (bytes_eq f.name (take 31 (plain name))))

differs : (name : List ℕ) (f : File) → name_matches name f ≡ false → ¬ Bears name f
differs name f n h = cc (sym n ∙ Bears-matches name f h)

pub find_file-IsAbsent :
    (name : List ℕ) (i : ℕ) (l : List File) → find_file name i l ≡ none → IsAbsent name l
unfolding find_file
find_file-IsAbsent name i [] e j lt = absurd (omega arith)
find_file-IsAbsent name i (f ∷ l) e j lt = elim (Bool-cases (name_matches name f)) [
  | inl here ↦ absurd (cc (rw here at e))
  | inr other ↦ later other (find_file-IsAbsent name (i + 1) l (rw other at e)) j lt
]
  where
    later :
        name_matches name f ≡ false
        → IsAbsent name l
        → (j : ℕ) → j < suc (length l)
        → ¬ Bears name (get_or (f ∷ l) j no_file)
    later other absent zero lt = differs name f other
    later other absent (suc j) lt = absent j (omega arith)

pub find_file-IsFirst :
    (name : List ℕ) (i k : ℕ) (l : List File)
    → find_file name i l ≡ some k
    → (t : ℕ) × (k ≡ i + t) × IsFirst name l t
unfolding find_file
find_file-IsFirst name i k [] e = absurd cc
find_file-IsFirst name i k (f ∷ l) e = elim (Bool-cases (name_matches name f)) [
  | inl here ↦ (
    0,
    at_once (rw here at e),
    record {
      inside = omega arith;
      bears = matches-Bears name f here;
      before = λ j lt. absurd (omega arith);
    },
  )
  | inr other ↦
      let (t, at, first) = find_file-IsFirst name (i + 1) k l (rw other at e) in
      (
        suc t,
        omega arith,
        record {
          inside = omega (arith, first.inside);
          bears = first.bears;
          before = before other t first.before;
        },
      )
]
  where
    at_once : some i ≡ some k → k ≡ i + 0
    at_once e = let same : i ≡ k = cc in omega arith

    before :
        name_matches name f ≡ false
        → (t : ℕ) → ((j : ℕ) → j < t → ¬ Bears name (get_or l j no_file))
        → (j : ℕ) → j < suc t
        → ¬ Bears name (get_or (f ∷ l) j no_file)
    before other t earlier zero lt = differs name f other
    before other t earlier (suc j) lt = earlier j (omega arith)
